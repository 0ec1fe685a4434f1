-- ===== src/Http/Handler.antt =====
-- The handlers (internal/adapters/http/handler.go) over the use cases, which are arguments. Metrics and
-- logging are left out.
use backend_challenge_go_jun.Prelude.{
  ℕ, [], Bool, true, false, not, ◌&&◌, Option, none, some, if◌then◌else◌, Result, ok, err, ◌>>=◌,
  ◌>>◌, map_err, reject_if,
}
use backend_challenge_go_jun.Prelude.Bytes.{Bytes, is_empty, bytes_eq}
use backend_challenge_go_jun.Prelude.Int.{ℤ}
use backend_challenge_go_jun.Financial.{Origin, kind_of_string}
use backend_challenge_go_jun.Financial.Identifiers.{
  Uuid, UuidText, parse_uuid_id, parse_provider_id, parse_external_id, parse_idempotency_key,
  parse_optional_external_id,
}
use backend_challenge_go_jun.Financial.Wallet.{Wallet}
use backend_challenge_go_jun.Application.{AppError, ErrorCode}
use backend_challenge_go_jun.Application.Commands.{OpenWalletCommand, SubmitWagerCommand}
use backend_challenge_go_jun.Application.Pagination.{LedgerPage, ledger_default_limit}
use backend_challenge_go_jun.Application.Reconciliation.{ReconciliationReport}
use backend_challenge_go_jun.Application.Service.{WagerResult}
use backend_challenge_go_jun.Application.Service.Recovery.{is_pending_reference}
use backend_challenge_go_jun.Http.{
  Refusal, Reply, of_application, refusal, bad_request, unprocessable, money_refusal,
  forbidden_refusal, parse_input, OpenWalletRequest, WalletResponse, WagerRequest,
  TransactionResponse, LedgerPageResponse, ReconciliationResponse, new_wallet_response,
  new_transaction_response, new_ledger_page_response, new_reconciliation_response,
  application_refusal, DecodeError, decode_refusal,
}
use backend_challenge_go_jun.Http.Access.{Principal}

-- The provider of `principal, _ := middleware.PrincipalFrom(ctx)`.
abbrev pub provider_of : Option Principal → Bytes
provider_of none = []
provider_of (some principal) = principal.provider_id

-- `strconv.Atoi`, which the limit goes through, is a parameter.
abbrev pub or_invalid_limit : Option ℤ → Result Refusal ℤ
or_invalid_limit none = err (refusal 400 (of_application ErrorCode.invalid_limit))
or_invalid_limit (some limit) = ok limit

unfoldable pub limit_of : (Bytes → Option ℤ) → Bytes → Result Refusal ℤ
limit_of atoi raw = if is_empty raw then ok ledger_default_limit else or_invalid_limit (atoi raw)

-- A reply to what a use case has returned.
abbrev pub answered : {A B : Type 0} → (A → ℕ × B) → Result AppError A → Reply B
answered view outcome = do value ← map_err (λ e. application_refusal e) outcome; ok (view value)

-- `if !ok || principal.ProviderID == ""`
abbrev pub provider_principal : Option Principal → Result Refusal Principal
provider_principal none = err forbidden_refusal
provider_principal (some principal) =
    if is_empty principal.provider_id then err forbidden_refusal else ok principal

abbrev pub is_internal : Origin → Bool
is_internal Origin.internal = true
is_internal _ = false

-- A provider sees its own external transactions only.
unfoldable pub check_visible : Bytes → WagerResult → Result Refusal (Unit {0})
check_visible provider result = if is_empty provider then ok tt else (do
  reject_if (is_internal result.origin) forbidden_refusal
  reject_if (not (bytes_eq result.provider_id provider))
      (refusal 404 (of_application ErrorCode.not_found)))

-- A command goes to the use case, and a refusal leaves the store as it is.
abbrev pub forward :
    {S C A B : Type 0}
    → (C → S → S × Result AppError A)
    → (A → ℕ × B)
    → Result Refusal C
    → S
    → S × Reply B
forward use_case view (err refused) s = (s, err refused)
forward use_case view (ok command) s =
    let done = use_case command s in (done.0, answered view done.1)

module _ (text : UuidText) where
  unfoldable pub open_wallet_command :
      OpenWalletRequest → (correlation : Bytes) → Result Refusal OpenWalletCommand
  unfolding parse_input
  open_wallet_command request correlation = do
    player_id ← map_err (λ e. unprocessable) (parse_uuid_id text request.player_id)
    initial_balance ← map_err (λ e. money_refusal) (parse_input request.initial_balance)
    ok (record {
      player_id = player_id;
      initial_balance = initial_balance;
      correlation_id = correlation;
    })

  -- The part of handleSubmitWager between the decoder and the use case.
  unfoldable pub submit_wager_command :
      Principal
      → WagerRequest
      → (idempotency_key correlation : Bytes) → Result Refusal SubmitWagerCommand
  unfolding parse_input
  submit_wager_command principal request raw_key correlation = do
    reject_if
        (not (is_empty request.provider_id)
          && not (bytes_eq request.provider_id principal.provider_id))
        forbidden_refusal
    idempotency_key ←
        map_err
          (λ e.
            if is_empty raw_key
            then refusal 400 (of_application ErrorCode.idempotency_key_required)
            else bad_request)
          (parse_idempotency_key raw_key)
    provider_id ← map_err (λ e. unprocessable) (parse_provider_id principal.provider_id)
    external_id ← map_err (λ e. unprocessable) (parse_external_id request.external_transaction_id)
    wallet_id ← map_err (λ e. unprocessable) (parse_uuid_id text request.wallet_id)
    player_id ← map_err (λ e. unprocessable) (parse_uuid_id text request.player_id)
    round_id ← map_err (λ e. unprocessable) (parse_external_id request.round_id)
    game_id ← map_err (λ e. unprocessable) (parse_external_id request.game_id)
    reference ←
        map_err (λ e. unprocessable)
          (parse_optional_external_id request.reference_external_transaction_id)
    amount ← map_err (λ e. money_refusal) (parse_input request.money)
    ok (record {
      provider_id = provider_id;
      external_transaction_id = external_id;
      idempotency_key = idempotency_key;
      wallet_id = wallet_id;
      player_id = player_id;
      round_id = round_id;
      game_id = game_id;
      kind = kind_of_string request.kind;
      amount = amount;
      reference_external_id = reference;
      correlation_id = correlation;
    })

  abbrev pub submitted_view : WagerResult → ℕ × TransactionResponse
  submitted_view result = (
    if is_pending_reference result.state then 202 else 200,
    new_transaction_response text.uuid_string result,
  )

  unfoldable pub handle_open_wallet :
      {S : Type 0}
      → (OpenWalletCommand → S → S × Result AppError Wallet)
      → (decoded : Result DecodeError OpenWalletRequest) (correlation : Bytes) → S
      → S × Reply WalletResponse
  unfolding open_wallet_command
  handle_open_wallet use_case decoded correlation s =
      forward use_case (λ view. (201, new_wallet_response text.uuid_string view))
        (map_err (λ e. decode_refusal e) decoded >>= λ request.
          open_wallet_command request correlation)
        s

  unfoldable pub handle_submit_wager :
      {S : Type 0}
      → (SubmitWagerCommand → S → S × Result AppError WagerResult)
      → Option Principal
      → (decoded : Result DecodeError WagerRequest) (idempotency_key correlation : Bytes) → S
      → S × Reply TransactionResponse
  unfolding submit_wager_command
  handle_submit_wager use_case principal decoded raw_key correlation s =
      forward use_case submitted_view
        (do
          principal ← provider_principal principal
          request ← map_err (λ e. decode_refusal e) decoded
          submit_wager_command principal request raw_key correlation)
        s

  unfoldable pub handle_wallet_by_id :
      (Uuid → Result AppError Wallet) → Bytes → Reply WalletResponse
  handle_wallet_by_id use_case raw = do
    id ← map_err (λ e. bad_request) (parse_uuid_id text raw)
    answered (λ view. (200, new_wallet_response text.uuid_string view)) (use_case id)

  unfoldable pub handle_ledger_page :
      (Bytes → Option ℤ)
      → (Uuid → Bytes → ℤ → Result AppError LedgerPage)
      → (wallet limit cursor : Bytes) → Reply LedgerPageResponse
  unfolding limit_of
  handle_ledger_page atoi use_case raw raw_limit cursor = do
    id ← map_err (λ e. bad_request) (parse_uuid_id text raw)
    limit ← limit_of atoi raw_limit
    answered (λ page. (200, new_ledger_page_response text.uuid_string page))
        (use_case id cursor limit)

  unfoldable pub handle_provider_transaction :
      (Bytes → Bytes → Result AppError WagerResult)
      → Option Principal
      → (provider external : Bytes) → Reply TransactionResponse
  handle_provider_transaction use_case principal raw_provider raw_external = do
    provider ← map_err (λ e. bad_request) (parse_provider_id raw_provider)
    reject_if (not (bytes_eq provider (provider_of principal))) forbidden_refusal
    external ← map_err (λ e. bad_request) (parse_external_id raw_external)
    answered (λ result. (200, new_transaction_response text.uuid_string result))
        (use_case provider external)

  unfoldable pub handle_transaction_by_id :
      (Uuid → Result AppError WagerResult) → Option Principal → Bytes → Reply TransactionResponse
  unfolding check_visible
  handle_transaction_by_id use_case principal raw = do
    id ← map_err (λ e. bad_request) (parse_uuid_id text raw)
    result ← map_err (λ e. application_refusal e) (use_case id)
    check_visible (provider_of principal) result
    ok (200, new_transaction_response text.uuid_string result)

  unfoldable pub handle_reconcile :
      (Uuid → Result AppError ReconciliationReport) → Bytes → Reply ReconciliationResponse
  handle_reconcile use_case raw = do
    id ← map_err (λ e. bad_request) (parse_uuid_id text raw)
    answered (λ report. (200, new_reconciliation_response text.uuid_string report)) (use_case id)
