-- ===== src/Application/Service/Submission.antt =====
-- Submitting a wager: SubmitWagerTransaction and SubmitWagerFromInbox
-- (internal/application/service.go).
use backend_challenge_go_jun.Prelude.{
  ℕ, Bool, true, false, not, ◌&&◌, Option, none, some, if◌then◌else◌, Result, ok, err, ◌>>=◌, ◌>>◌,
  map_err, reject_if, List, [], ◌∷◌, take,
}
use backend_challenge_go_jun.Prelude.Bytes.{Bytes, codes, bytes_eq}
use backend_challenge_go_jun.Financial.Identifiers.{Uuid}
use backend_challenge_go_jun.Financial.Wallet.{Wallet}
use backend_challenge_go_jun.Financial.Wager.{WagerTransaction, new_external_transaction}
use backend_challenge_go_jun.Financial.Wager.Transitions.{mark_failed}
use backend_challenge_go_jun.Application.{
  AppError, ErrorCode, Sentinel, is, noted, contract_error, conflict_error, not_found_error,
  transient_error, transient_error_of,
}
use backend_challenge_go_jun.Application.Commands.{
  SubmitWagerCommand, InboxDelivery, validate_submit_wager, validate_inbox_delivery,
  external_params,
}
use backend_challenge_go_jun.Application.Resolve.{needs_reference, plan_operation, is_none}
use backend_challenge_go_jun.Application.Ports.{Repositories, Surroundings}
use backend_challenge_go_jun.Application.Service.{WagerResult, result_of, fault}
use backend_challenge_go_jun.Application.Service.Execution.{execute_plan}

abbrev pub digest_version : Bytes
digest_version = codes "sha256-jcs-v1"

abbrev pub max_concurrent_write_retries : ℕ
max_concurrent_write_retries = 3

-- The test of a stored transaction against the digest of a command.
abbrev pub same_projection : WagerTransaction → Bytes → Bool
same_projection stored digest =
    bytes_eq stored.digest digest && bytes_eq stored.digest_version digest_version

abbrev pub found : Option Wallet → Result AppError Wallet
found none = err not_found_error
found (some wall) = ok wall

module _ {S : Type 0} (repos : Repositories S) (around : Surroundings) where
  -- The lookup of a claim in planOperation.
  unfoldable pub claimed : S → Uuid → Result AppError Bool
  claimed s reference_id = do
    claim ← repos.claim_by_reference reference_id s
    ok (not (is_none claim))

  unfoldable pub load_reference : WagerTransaction → S → Result AppError (Option WagerTransaction)
  load_reference txn s =
      if not (needs_reference txn)
      then ok none
      else repos.by_provider_and_external_id txn.provider_id txn.reference_external_transaction_id s

  unfoldable pub execute_with_reference :
      Wallet → WagerTransaction → Option WagerTransaction → S → Result AppError (WagerResult × S)
  unfolding claimed
  execute_with_reference wall txn ref s = do
    plan ← plan_operation (claimed s) txn ref
    execute_plan repos around wall txn plan s

  -- A reference that cannot be rebuilt fails the transaction; any other error is returned.
  unfoldable pub fail_or_return :
      AppError → Wallet → WagerTransaction → S → Result AppError (WagerResult × S)
  fail_or_return e wall txn s =
      if is e Sentinel.corrupt_persisted_record
      then (do
        failed ← map_err fault (mark_failed txn wall.balance around.now)
        s ← repos.update_transaction failed none s
        ok (result_of failed false, s))
      else err e

  unfoldable pub execute_loaded :
      Result AppError (Option WagerTransaction)
      → Wallet
      → WagerTransaction
      → S
      → Result AppError (WagerResult × S)
  unfolding execute_with_reference fail_or_return
  execute_loaded (ok ref) wall txn s = execute_with_reference wall txn ref s
  execute_loaded (err e) wall txn s = fail_or_return e wall txn s

  -- Without a reference `load_reference` gives none, which is the first branch of the code.
  unfoldable pub resolve_and_execute :
      Wallet → WagerTransaction → S → Result AppError (WagerResult × S)
  unfolding load_reference execute_loaded
  resolve_and_execute wall txn s = execute_loaded (load_reference txn s) wall txn s

  -- submitWithinTx once the wallet is locked.
  unfoldable pub submit_to_wallet :
      Wallet → SubmitWagerCommand → Bytes → S → Result AppError (WagerResult × S)
  unfolding resolve_and_execute
  submit_to_wallet wall cmd digest s = do
    reject_if (not (bytes_eq wall.currency cmd.amount.currency))
        (contract_error ErrorCode.unsupported_currency)
    txn ←
        map_err (λ e. contract_error ErrorCode.invalid_request)
          (new_external_transaction
            (external_params cmd around.transaction_id digest_version digest around.now))
    s ← repos.insert_transaction txn s
    resolve_and_execute wall txn s

  unfoldable pub submit_new : SubmitWagerCommand → Bytes → S → Result AppError (WagerResult × S)
  unfolding submit_to_wallet
  submit_new cmd digest s = do
    wall ← repos.lock_wallet cmd.wallet_id s
    wall ← found wall
    submit_to_wallet wall cmd digest s

  -- A stored transaction under the key of the command.
  unfoldable pub replay_or_conflict :
      WagerTransaction → Bytes → S → Result AppError (WagerResult × S)
  replay_or_conflict stored digest s =
      if same_projection stored digest
      then ok (result_of stored true, s)
      else err (conflict_error ErrorCode.idempotency_conflict)

  -- A stored transaction under the external identity of the command.
  unfoldable pub submit_known :
      Option WagerTransaction → SubmitWagerCommand → Bytes → S → Result AppError (WagerResult × S)
  unfolding submit_new replay_or_conflict
  submit_known none cmd digest s = submit_new cmd digest s
  submit_known (some stored) cmd digest s =
      if bytes_eq stored.idempotency_key cmd.idempotency_key
      then replay_or_conflict stored digest s
      else err (conflict_error ErrorCode.external_transaction_conflict)

  unfoldable pub submit_keyed :
      Option WagerTransaction → SubmitWagerCommand → Bytes → S → Result AppError (WagerResult × S)
  unfolding submit_known replay_or_conflict
  submit_keyed (some stored) cmd digest s = replay_or_conflict stored digest s
  submit_keyed none cmd digest s = do
    conflicting ← repos.by_provider_and_external_id cmd.provider_id cmd.external_transaction_id s
    submit_known conflicting cmd digest s

  unfoldable pub submit_within_tx :
      SubmitWagerCommand → Bytes → S → Result AppError (WagerResult × S)
  unfolding submit_keyed
  submit_within_tx cmd digest s = do
    existing ← repos.by_provider_and_key cmd.provider_id cmd.idempotency_key s
    submit_keyed existing cmd digest s

  -- The result with `duplicate`. For a duplicate delivery the result, which the code leaves as an earlier
  -- attempt may have set it and the consumer does not read, is none here.
  unfoldable pub deliver_new :
      Option Bytes
      → SubmitWagerCommand
      → InboxDelivery
      → Bytes
      → S
      → Result AppError (Option WagerResult × S)
  unfolding submit_within_tx
  deliver_new (some stored_digest) cmd delivery digest s =
      if bytes_eq stored_digest delivery.digest
      then ok (none, s)
      else err (conflict_error ErrorCode.inbox_payload_conflict)
  deliver_new none cmd delivery digest s = do
    submitted ← submit_within_tx cmd digest s
    s ←
        repos.complete_delivery delivery.consumer_name delivery.message_id around.completed_at
          submitted.1
    ok (some submitted.0, s)

  unfoldable pub deliver_within_tx :
      SubmitWagerCommand → InboxDelivery → Bytes → S → Result AppError (Option WagerResult × S)
  unfolding deliver_new
  deliver_within_tx cmd delivery digest s = do
    begun ← repos.begin_delivery delivery s
    deliver_new begun.0 cmd delivery digest begun.1

-- The store after the commit of a body that succeeded: an error of the commit does not tell whether
-- it took effect, which is `commit_kept`.
abbrev pub committed :
    {A : Type 0} {S : Type 0}
    → Result AppError (Unit {0})
    → (commit_kept : Bool) → (s written : S) → A
    → S × Result AppError A
committed (ok done) commit_kept s written a = (written, ok a)
committed (err e) commit_kept s written a = (if commit_kept then written else s, err e)

-- A body that fails is rolled back.
abbrev pub finish :
    {A : Type 0} {S : Type 0} → Surroundings → S → Result AppError (A × S) → S × Result AppError A
finish around s (ok (a, written)) = committed around.commit around.commit_kept s written a
finish around s (err e) = (s, err e)

-- `if err := cmd.Validate(); err != nil { return }`, and the same for the begin of a transaction.
abbrev pub guarded :
    {A : Type 0} {S : Type 0}
    → Result AppError (Unit {0})
    → S
    → S × Result AppError A
    → S × Result AppError A
guarded (ok valid) s run = run
guarded (err e) s run = (s, err e)

abbrev pub in_tx :
    {A : Type 0} {S : Type 0}
    → Surroundings
    → (S → Result AppError (A × S))
    → S
    → S × Result AppError A
in_tx around body s = guarded around.begin s (finish around s (body s))

-- One attempt of a retry loop: its surroundings, and what other transactions committed before it.
pub record Attempt (S : Type 0) : Type 0 where
  pub around : Surroundings
  pub others : S → S

abbrev pub exhausted : {A : Type 0} → Option AppError → Result AppError A
exhausted none = err transient_error
exhausted (some conflict) = err (transient_error_of (noted conflict))

abbrev pub next_of :
    {A : Type 0} {S : Type 0}
    → (S × Result AppError A)
    → (Option AppError → S → S × Result AppError A)
    → S × Result AppError A
next_of (s, ok a) retry = (s, ok a)
next_of (s, err e) retry = if is e Sentinel.concurrent_write then retry (some e) s else (s, err e)

-- The retry loop: at most one round for each attempt of the list.
unfoldable pub with_retries :
    {A : Type 0} {S : Type 0}
    → (Surroundings → S → Result AppError (A × S))
    → List (Attempt S)
    → Option AppError
    → S
    → S × Result AppError A
with_retries body [] last_conflict s = (s, exhausted last_conflict)
with_retries body (attempt ∷ attempts) last_conflict s =
    next_of (in_tx attempt.around (body attempt.around) (attempt.others s))
      (with_retries body attempts)

-- The body of the transaction of SubmitWagerTransaction.
unfoldable pub submit_then :
    {S : Type 0}
    → Repositories S
    → Result AppError (Unit {0})
    → Surroundings
    → SubmitWagerCommand
    → Bytes
    → S
    → Result AppError (WagerResult × S)
unfolding submit_within_tx
submit_then repos before_commit around cmd digest s = do
  submitted ← submit_within_tx repos around cmd digest s
  before_commit
  ok submitted

-- SubmitWagerTransaction for the attempts that the run has, of which the code makes three at most;
-- `digest` is the SHA-256 of the projection of the command, and `before_commit` the failpoint.
unfoldable pub submit_wager_transaction :
    {S : Type 0}
    → Repositories S
    → Result AppError (Unit {0})
    → List (Attempt S)
    → SubmitWagerCommand
    → Bytes
    → S
    → S × Result AppError WagerResult
unfolding submit_then with_retries
submit_wager_transaction repos before_commit attempts cmd digest s =
    guarded (validate_submit_wager cmd) s (
      with_retries (λ around. submit_then repos before_commit around cmd digest)
        (take max_concurrent_write_retries attempts) none s)

-- SubmitWagerFromInbox: no result stands for a duplicate.
unfoldable pub submit_wager_from_inbox :
    {S : Type 0}
    → Repositories S
    → List (Attempt S)
    → SubmitWagerCommand
    → InboxDelivery
    → Bytes
    → S
    → S × Result AppError (Option WagerResult)
unfolding deliver_within_tx with_retries
submit_wager_from_inbox repos attempts cmd delivery digest s =
    guarded (validate_submit_wager cmd >> validate_inbox_delivery delivery) s (
      with_retries (λ around. deliver_within_tx repos around cmd delivery digest)
        (take max_concurrent_write_retries attempts) none s)
