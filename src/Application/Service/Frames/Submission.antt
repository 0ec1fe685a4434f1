-- ===== src/Application/Service/Frames/Submission.antt =====
-- What the writes of the ports keep, the body of a submission keeps
-- (internal/application/service.go: submitWithinTx).
use backend_challenge_go_jun.Prelude.{
  not, Option, none, some, Result, ok, err, ◌≡◌, map_err, >>=-eq-ok, if-eq-ok, ok-injective,
  reject_if-eq-ok,
}
use backend_challenge_go_jun.Prelude.Bytes.{Bytes, bytes_eq}
use backend_challenge_go_jun.Financial.Wallet.{Wallet}
use backend_challenge_go_jun.Financial.Wager.{WagerTransaction, new_external_transaction}
use backend_challenge_go_jun.Financial.Wager.Transitions.{mark_failed}
use backend_challenge_go_jun.Application.{AppError, ErrorCode, Sentinel, is, contract_error}
use backend_challenge_go_jun.Application.Commands.{SubmitWagerCommand, external_params}
use backend_challenge_go_jun.Application.Resolve.{plan_operation}
use backend_challenge_go_jun.Application.Ports.{Repositories, Surroundings}
use backend_challenge_go_jun.Application.Service.{WagerResult, fault}
use backend_challenge_go_jun.Application.Service.Submission.{
  digest_version, same_projection, claimed, load_reference, execute_with_reference, fail_or_return,
  execute_loaded, resolve_and_execute, submit_to_wallet, submit_new, found, replay_or_conflict,
  submit_known, submit_keyed, submit_within_tx,
}
use backend_challenge_go_jun.Application.Service.Frames.{Stable, execute_plan-Kept}

module _ {S : Type 0} (repos : Repositories S) (around : Surroundings) {Kept : S → Type 0}
    (stable : Stable repos Kept) where
  fail_or_return-Kept :
      (cause : AppError) (wall : Wallet) (t : WagerTransaction) (s : S) {answer : WagerResult × S}
      → fail_or_return repos around cause wall t s ≡ ok answer
      → Kept s
      → Kept answer.1
  unfolding fail_or_return
  fail_or_return-Kept cause wall t s e k =
      if-eq-ok (is cause Sentinel.corrupt_persisted_record) _ _ e
        (λ _ e.
          let (u, _, e) = >>=-eq-ok (map_err fault (mark_failed t wall.balance around.now)) _ e in
          let (s1, w, e) = >>=-eq-ok (repos.update_transaction u none s) _ e in
          rw (← ok-injective e) (stable.updated u none w k))
        (λ _ e. cc)

  execute_loaded-Kept :
      (ref : Result AppError (Option WagerTransaction)) (wall : Wallet) (t : WagerTransaction)
      (s : S) {answer : WagerResult × S}
      → execute_loaded repos around ref wall t s ≡ ok answer
      → Kept s
      → Kept answer.1
  unfolding execute_loaded execute_with_reference
  execute_loaded-Kept (err cause) wall t s e k = fail_or_return-Kept cause wall t s e k
  execute_loaded-Kept (ok ref) wall t s e k =
      let (plan, _, e) = >>=-eq-ok (plan_operation (claimed repos around s) t ref) _ e in
      execute_plan-Kept repos around stable wall t plan s e k

  submit_to_wallet-Kept :
      (wall : Wallet) (cmd : SubmitWagerCommand) (digest : Bytes) (s : S) {answer : WagerResult × S}
      → submit_to_wallet repos around wall cmd digest s ≡ ok answer
      → Kept s
      → Kept answer.1
  unfolding submit_to_wallet resolve_and_execute
  submit_to_wallet-Kept wall cmd digest s e k =
      let (_, e) =
        reject_if-eq-ok (not (bytes_eq wall.currency cmd.amount.currency))
          (contract_error ErrorCode.unsupported_currency) _ e in
      let (t, _, e) =
        >>=-eq-ok
          (map_err (λ c. contract_error ErrorCode.invalid_request)
            (new_external_transaction
              (external_params cmd around.transaction_id digest_version digest around.now)))
          _ e in
      let (s1, w, e) = >>=-eq-ok (repos.insert_transaction t s) _ e in
      execute_loaded-Kept (load_reference repos around t s1) wall t s1 e (stable.inserted t w k)

  submit_new-Kept :
      (cmd : SubmitWagerCommand) (digest : Bytes) (s : S) {answer : WagerResult × S}
      → submit_new repos around cmd digest s ≡ ok answer
      → Kept s
      → Kept answer.1
  unfolding submit_new
  submit_new-Kept cmd digest s e k =
      let (wall, _, e) = >>=-eq-ok (repos.lock_wallet cmd.wallet_id s) _ e in
      let (w, _, e) = >>=-eq-ok (found wall) _ e in submit_to_wallet-Kept w cmd digest s e k

  replay_or_conflict-Kept :
      (stored : WagerTransaction) (digest : Bytes) (s : S) {answer : WagerResult × S}
      → replay_or_conflict repos around stored digest s ≡ ok answer
      → Kept s
      → Kept answer.1
  unfolding replay_or_conflict
  replay_or_conflict-Kept stored digest s e k =
      if-eq-ok (same_projection stored digest) _ _ e (λ _ e. rw (← ok-injective e) k) (λ _ e. cc)

  submit_known-Kept :
      (known : Option WagerTransaction) (cmd : SubmitWagerCommand) (digest : Bytes) (s : S)
      {answer : WagerResult × S}
      → submit_known repos around known cmd digest s ≡ ok answer
      → Kept s
      → Kept answer.1
  unfolding submit_known
  submit_known-Kept none cmd digest s e k = submit_new-Kept cmd digest s e k
  submit_known-Kept (some stored) cmd digest s e k =
      if-eq-ok (bytes_eq stored.idempotency_key cmd.idempotency_key) _ _ e
        (λ _ e. replay_or_conflict-Kept stored digest s e k) (λ _ e. cc)

  submit_keyed-Kept :
      (existing : Option WagerTransaction) (cmd : SubmitWagerCommand) (digest : Bytes) (s : S)
      {answer : WagerResult × S}
      → submit_keyed repos around existing cmd digest s ≡ ok answer
      → Kept s
      → Kept answer.1
  unfolding submit_keyed
  submit_keyed-Kept (some stored) cmd digest s e k = replay_or_conflict-Kept stored digest s e k
  submit_keyed-Kept none cmd digest s e k =
      let (known, _, e) =
        >>=-eq-ok (repos.by_provider_and_external_id cmd.provider_id cmd.external_transaction_id s)
          _ e in
      submit_known-Kept known cmd digest s e k

  -- The body of a submission keeps whatever its writes keep.
  pub submit_within_tx-Kept :
      (cmd : SubmitWagerCommand) (digest : Bytes) (s : S) {answer : WagerResult × S}
      → submit_within_tx repos around cmd digest s ≡ ok answer
      → Kept s
      → Kept answer.1
  unfolding submit_within_tx
  submit_within_tx-Kept cmd digest s e k =
      let (existing, _, e) =
        >>=-eq-ok (repos.by_provider_and_key cmd.provider_id cmd.idempotency_key s) _ e in
      submit_keyed-Kept existing cmd digest s e k
