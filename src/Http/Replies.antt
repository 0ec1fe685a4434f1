-- ===== src/Http/Replies.antt =====
-- What a provider may see (internal/adapters/http/handler.go: handleTransactionByID).
use backend_challenge_go_jun.Prelude.{
  ℕ, ◌≡◌, ap, true, false, some, Result, ok, arith, map_err, reject_if-eq-ok, >>=-eq-ok,
  ok-injective,
}
use backend_challenge_go_jun.Prelude.Bytes.{Bytes, is_empty, bytes_eq, bytes_eq_iff}
use backend_challenge_go_jun.Financial.Identifiers.{Uuid, UuidText, parse_uuid_id}
use backend_challenge_go_jun.Application.{AppError}
use backend_challenge_go_jun.Application.Service.{WagerResult}
use backend_challenge_go_jun.Http.{
  forbidden_refusal, bad_request, TransactionResponse, new_transaction_response,
  application_refusal,
}
use backend_challenge_go_jun.Http.Access.{Principal}
use backend_challenge_go_jun.Http.Handler.{is_internal, check_visible, handle_transaction_by_id}

check_visible_lem :
    (provider : Bytes) (result : WagerResult)
    → is_empty provider ≡ false
    → check_visible provider result ≡ ok tt
    → (result.provider_id ≡ provider) × (is_internal result.origin ≡ false)
unfolding check_visible
check_visible_lem provider result named h =
    let (internal, h) =
      reject_if-eq-ok (is_internal result.origin) forbidden_refusal _ (rw named at h) in
    let same : bytes_eq result.provider_id provider ≡ true = ground arith in
    ((bytes_eq_iff result.provider_id provider).0 same, internal)

-- What a provider is shown of a transaction is a transaction of its own, and never an internal one.
pub handle_transaction_by_id-own :
    (text : UuidText) (use_case : Uuid → Result AppError WagerResult) (principal : Principal)
    (raw : Bytes) {status : ℕ} {body : TransactionResponse}
    → is_empty principal.provider_id ≡ false
    → handle_transaction_by_id text use_case (some principal) raw ≡ ok (status, body)
    → (body.provider_id ≡ principal.provider_id) × (is_internal body.origin ≡ false)
unfolding handle_transaction_by_id new_transaction_response
handle_transaction_by_id-own text use_case principal raw named h =
    let (id, _, h) = >>=-eq-ok (map_err (λ e. bad_request) (parse_uuid_id text raw)) _ h in
    let (result, _, h) = >>=-eq-ok (map_err (λ e. application_refusal e) (use_case id)) _ h in
    let (_, visible, h) = >>=-eq-ok (check_visible principal.provider_id result) _ h in
    rw (← ap (λ x. x.1) (ok-injective h))
      (check_visible_lem principal.provider_id result named visible)
