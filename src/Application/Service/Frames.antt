-- ===== src/Application/Service/Frames.antt =====
-- What the writes of the ports keep, a submission keeps (internal/application/service.go).
pub mod Submission
use backend_challenge_go_jun.Prelude.{
  ◌+◌, Bool, true, false, not, Option, none, some, Result, ok, err, ◌≡◌, ap, refl, map_err,
  >>=-eq-ok, if-eq-ok, ok-injective, reject_if-eq-ok,
}
use backend_challenge_go_jun.Prelude.Bytes.{Bytes, bytes_eq}
use backend_challenge_go_jun.Financial.{
  Time, FailureCode, FinancialError, is_no_failure, insufficient_funds,
}
use backend_challenge_go_jun.Financial.Identifiers.{Uuid}
use backend_challenge_go_jun.Financial.Wallet.{Wallet}
use backend_challenge_go_jun.Financial.Ledger.{WalletLedgerEntry, new_ledger_entry}
use backend_challenge_go_jun.Financial.Reversal.{ReversalClaim, new_reversal_claim}
use backend_challenge_go_jun.Financial.Wager.{WagerTransaction, new_external_transaction}
use backend_challenge_go_jun.Financial.Wager.Transitions.{
  mark_pending_reference, mark_processed, mark_rejected, mark_failed,
}
use backend_challenge_go_jun.Event.{Envelope, Data, new_envelope}
use backend_challenge_go_jun.Application.{AppError, ErrorCode, Sentinel, is, contract_error}
use backend_challenge_go_jun.Application.Commands.{SubmitWagerCommand, external_params}
use backend_challenge_go_jun.Application.Resolve.{Movement, OperationPlan, plan_operation}
use backend_challenge_go_jun.Application.Backoff.{reference_ttl}
use backend_challenge_go_jun.Application.Ports.{Repositories, ReferenceSchedule, Surroundings}
use backend_challenge_go_jun.Application.Service.{
  WagerResult, fault, event_fault, metadata_of, emit, emit_processed, emit_rejected,
  emit_pending_reference, emit_balance_changed,
}
use backend_challenge_go_jun.Application.Service.Execution.{
  moved, reject, store_pending, store_unmoved, store_claim, store_movement, settle, apply_movement,
  execute_movement, execute_plan,
}
use backend_challenge_go_jun.Application.Service.Submission.{
  digest_version, same_projection, claimed, load_reference, execute_with_reference, fail_or_return,
  execute_loaded, resolve_and_execute, submit_to_wallet, submit_new, found, replay_or_conflict,
  submit_known, submit_keyed, submit_within_tx,
}

-- A property of the store that every write of a submission keeps.
pub record Stable {S : Type 0} (repos : Repositories S) (Kept : S → Type 0) : Type 0 where
  pub saved : (w : Wallet) {s s' : S} → repos.save_balance w s ≡ ok s' → Kept s → Kept s'
  pub inserted :
      (t : WagerTransaction) {s s' : S} → repos.insert_transaction t s ≡ ok s' → Kept s → Kept s'
  pub updated :
      (t : WagerTransaction) (schedule : Option ReferenceSchedule) {s s' : S}
      → repos.update_transaction t schedule s ≡ ok s'
      → Kept s
      → Kept s'
  pub entered :
      (e : WalletLedgerEntry) {s s' : S} → repos.insert_entry e s ≡ ok s' → Kept s → Kept s'
  pub claimed : (c : ReversalClaim) {s s' : S} → repos.insert_claim c s ≡ ok s' → Kept s → Kept s'
  pub emitted :
      (e : Envelope) (now : Time) {s s' : S} → repos.insert_event e now s ≡ ok s' → Kept s → Kept s'

module _ {S : Type 0} (repos : Repositories S) (around : Surroundings) {Kept : S → Type 0}
    (stable : Stable repos Kept) where
  emit-Kept :
      (event_id : Bytes) (aggregate : Uuid) (content : Data) {s s' : S}
      → emit repos around event_id aggregate content s ≡ ok s'
      → Kept s
      → Kept s'
  unfolding emit
  emit-Kept event_id aggregate content e k =
      let (envelope, _, e) =
        >>=-eq-ok
          (map_err event_fault
            (new_envelope (metadata_of around event_id (around.uuid_string aggregate)) content))
          _ e in
      stable.emitted envelope around.now e k

  reject-Kept :
      (wall : Wallet) (t : WagerTransaction) (r : Uuid) (code : FailureCode) (s : S)
      {answer : WagerResult × S}
      → reject repos around wall t r code s ≡ ok answer
      → Kept s
      → Kept answer.1
  unfolding reject emit_rejected
  reject-Kept wall t r code s e k =
      let (u, _, e) =
        >>=-eq-ok (map_err fault (mark_rejected t r code wall.balance around.now)) _ e in
      let (s1, w, e) = >>=-eq-ok (repos.update_transaction u none s) _ e in
      let (s2, v, e) = >>=-eq-ok (emit_rejected repos around wall u s1) _ e in
      rw (← ok-injective e) (emit-Kept _ _ _ v (stable.updated u none w k))

  store_pending-Kept :
      (t : WagerTransaction) (s : S) {answer : WagerResult × S}
      → store_pending repos around t s ≡ ok answer
      → Kept s
      → Kept answer.1
  unfolding store_pending emit_pending_reference
  store_pending-Kept t s e k =
      let (u, _, e) =
        >>=-eq-ok (map_err fault (mark_pending_reference t (around.now + reference_ttl) around.now))
          _ e in
      let (s1, w, e) = >>=-eq-ok (repos.update_transaction u _ s) _ e in
      let (s2, v, e) = >>=-eq-ok (emit_pending_reference repos around u s1) _ e in
      rw (← ok-injective e) (emit-Kept _ _ _ v (stable.updated u _ w k))

  store_unmoved-Kept :
      (wall : Wallet) (t : WagerTransaction) (r : Uuid) (s : S) {answer : WagerResult × S}
      → store_unmoved repos around wall t r s ≡ ok answer
      → Kept s
      → Kept answer.1
  unfolding store_unmoved emit_processed
  store_unmoved-Kept wall t r s e k =
      let (u, _, e) = >>=-eq-ok (map_err fault (mark_processed t r wall.balance around.now)) _ e in
      let (s1, w, e) = >>=-eq-ok (repos.update_transaction u none s) _ e in
      let (s2, v, e) = >>=-eq-ok (emit_processed repos around wall u wall.balance s1) _ e in
      rw (← ok-injective e) (emit-Kept _ _ _ v (stable.updated u none w k))

  store_claim-Kept :
      (claim : Bool) (r i : Uuid) {s s' : S}
      → store_claim repos around claim r i s ≡ ok s'
      → Kept s
      → Kept s'
  unfolding store_claim
  store_claim-Kept false r i e k = rw (← ok-injective e) k
  store_claim-Kept true r i e k =
      let (c, _, e) =
        >>=-eq-ok (map_err fault (new_reversal_claim around.claim_id r i around.now)) _ e in
      stable.claimed c e k

  store_movement-Kept :
      (wall updated : Wallet) (t : WagerTransaction) (plan : OperationPlan) (move : Movement)
      (s : S) {answer : WagerResult × S}
      → store_movement repos around wall updated t plan move s ≡ ok answer
      → Kept s
      → Kept answer.1
  unfolding store_movement emit_processed emit_balance_changed
  store_movement-Kept wall updated t plan move s e k =
      let (entry, _, e) = >>=-eq-ok (map_err fault (new_ledger_entry _)) _ e in
      let (u, _, e) =
        >>=-eq-ok (map_err fault (mark_processed t plan.reference_id updated.balance around.now)) _
          e in
      let (s1, a, e) = >>=-eq-ok (repos.save_balance updated s) _ e in
      let (s2, b, e) = >>=-eq-ok (repos.insert_entry entry s1) _ e in
      let (s3, c, e) =
        >>=-eq-ok (store_claim repos around plan.claim plan.reference_id t.id s2) _ e in
      let (s4, w, e) = >>=-eq-ok (repos.update_transaction u none s3) _ e in
      let (s5, v, e) = >>=-eq-ok (emit_processed repos around updated u updated.balance s4) _ e in
      let (s6, x, e) =
        >>=-eq-ok (emit_balance_changed repos around updated u move wall.balance updated.balance s5)
          _ e in
      let k2 = stable.entered entry b (stable.saved updated a k) in
      let k4 = stable.updated u none w (store_claim-Kept plan.claim plan.reference_id t.id c k2) in
      rw (← ok-injective e) (emit-Kept _ _ _ x (emit-Kept _ _ _ v k4))

  settle-Kept :
      (outcome : Result FinancialError Wallet) (wall : Wallet) (t : WagerTransaction)
      (plan : OperationPlan) (move : Movement) (s : S) {answer : WagerResult × S}
      → settle repos around outcome wall t plan move s ≡ ok answer
      → Kept s
      → Kept answer.1
  unfolding settle
  settle-Kept (ok updated) wall t plan move s e k =
      store_movement-Kept wall updated t plan move s e k
  settle-Kept (err insufficient_funds) wall t plan move s e k =
      reject-Kept wall t plan.reference_id _ s e k
  settle-Kept (err FinancialError.invalid_input) wall t plan move s e k = cc
  settle-Kept (err FinancialError.uninitialized) wall t plan move s e k = cc
  settle-Kept (err FinancialError.compensation_consumed) wall t plan move s e k = cc
  settle-Kept (err (FinancialError.invalid_transition a b)) wall t plan move s e k = cc
  settle-Kept (err (FinancialError.of_money a)) wall t plan move s e k = cc

  execute_movement-Kept :
      (move : Option Movement) (wall : Wallet) (t : WagerTransaction) (plan : OperationPlan) (s : S)
      {answer : WagerResult × S}
      → execute_movement repos around move wall t plan s ≡ ok answer
      → Kept s
      → Kept answer.1
  unfolding execute_movement apply_movement
  execute_movement-Kept none wall t plan s e k = store_unmoved-Kept wall t plan.reference_id s e k
  execute_movement-Kept (some move) wall t plan s e k =
      let (outcome, _, e) = >>=-eq-ok (moved move.direction wall move.amount around.now) _ e in
      settle-Kept outcome wall t plan move s e k

  pub execute_plan-Kept :
      (wall : Wallet) (t : WagerTransaction) (plan : OperationPlan) (s : S)
      {answer : WagerResult × S}
      → execute_plan repos around wall t plan s ≡ ok answer
      → Kept s
      → Kept answer.1
  unfolding execute_plan
  execute_plan-Kept wall t plan s e k =
      if-eq-ok plan.pending _ _ e (λ _ e. store_pending-Kept t s e k)
        (λ _ e.
          if-eq-ok (not (is_no_failure plan.failure)) _ _ e
            (λ _ e. reject-Kept wall t plan.reference_id plan.failure s e k)
            (λ _ e. execute_movement-Kept plan.movement wall t plan s e k))
