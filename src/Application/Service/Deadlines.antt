-- ===== src/Application/Service/Deadlines.antt =====
-- A recovery ends at the deadline of the reference (internal/application/service.go:
-- ResolvePendingReference).
use backend_challenge_go_jun.Prelude.{
  ◌≤◌, ◌≡◌, ap, arith, true, false, not, ltb, ℕ, Option, none, some, Result, ok, err, map_err,
  map_err-eq-ok, >>=-eq-ok, if-eq-ok, ok-injective, reject_if-eq-ok,
}
use backend_challenge_go_jun.Financial.{
  is_terminal, FailureCode, is_no_failure, FinancialError, insufficient_funds,
}
use backend_challenge_go_jun.Financial.Identifiers.{Uuid}
use backend_challenge_go_jun.Financial.Wallet.{Wallet}
use backend_challenge_go_jun.Financial.Ledger.{new_ledger_entry}
use backend_challenge_go_jun.Financial.Wager.{WagerTransaction}
use backend_challenge_go_jun.Financial.Wager.Transitions.{
  mark_processed, mark_rejected, mark_failed,
}
use backend_challenge_go_jun.Financial.Wager.States.{
  mark_processed_inv, mark_rejected_inv, mark_failed_inv,
}
use backend_challenge_go_jun.Application.{AppError, ErrorCode, Sentinel, is, contract_error}
use backend_challenge_go_jun.Application.Resolve.{Movement, OperationPlan, plan_operation}
use backend_challenge_go_jun.Application.Ports.{Repositories, Surroundings}
use backend_challenge_go_jun.Application.Service.{
  WagerResult, fault, emit_processed, emit_rejected, emit_balance_changed,
}
use backend_challenge_go_jun.Application.Service.Execution.{
  moved, reject, store_unmoved, store_claim, store_movement, settle, apply_movement,
  execute_movement, execute_plan,
}
use backend_challenge_go_jun.Application.Service.Submission.{
  claimed, load_reference, fail_or_return,
}
use backend_challenge_go_jun.Application.Service.Recovery.{
  is_pending_reference, wallet_of_transaction, advance, advance_loaded, resolve_waiting,
  resolve_within_tx,
}

-- The answer is final.
abbrev pub Ended : {S : Type 0} → WagerResult × S → Type 0
Ended answer = is_terminal answer.0.state ≡ true

module _ {S : Type 0} (repos : Repositories S) (around : Surroundings) where
  reject-Ended :
      (wall : Wallet) (t : WagerTransaction) (r : Uuid) (code : FailureCode) (s : S)
      {answer : WagerResult × S}
      → reject repos around wall t r code s ≡ ok answer
      → Ended answer
  unfolding reject
  reject-Ended wall t r code s e =
      let (u, m, e) =
        >>=-eq-ok (map_err fault (mark_rejected t r code wall.balance around.now)) _ e in
      let (s1, _, e) = >>=-eq-ok (repos.update_transaction u none s) _ e in
      let (s2, _, e) = >>=-eq-ok (emit_rejected repos around wall u s1) _ e in
      let (_, _, _, _, _, w) =
        mark_rejected_inv t r code wall.balance around.now
          (map_err-eq-ok fault (mark_rejected t r code wall.balance around.now) m) in
      rw (← ok-injective e) (ap (λ x. is_terminal x.state) w)

  store_unmoved-Ended :
      (wall : Wallet) (t : WagerTransaction) (r : Uuid) (s : S) {answer : WagerResult × S}
      → store_unmoved repos around wall t r s ≡ ok answer
      → Ended answer
  unfolding store_unmoved
  store_unmoved-Ended wall t r s e =
      let (u, m, e) = >>=-eq-ok (map_err fault (mark_processed t r wall.balance around.now)) _ e in
      let (s1, _, e) = >>=-eq-ok (repos.update_transaction u none s) _ e in
      let (s2, _, e) = >>=-eq-ok (emit_processed repos around wall u wall.balance s1) _ e in
      let (_, _, _, w) =
        mark_processed_inv t r wall.balance around.now
          (map_err-eq-ok fault (mark_processed t r wall.balance around.now) m) in
      rw (← ok-injective e) (ap (λ x. is_terminal x.state) w)

  store_movement-Ended :
      (wall updated : Wallet) (t : WagerTransaction) (plan : OperationPlan) (move : Movement)
      (s : S) {answer : WagerResult × S}
      → store_movement repos around wall updated t plan move s ≡ ok answer
      → Ended answer
  unfolding store_movement
  store_movement-Ended wall updated t plan move s e =
      let (entry, _, e) = >>=-eq-ok (map_err fault (new_ledger_entry _)) _ e in
      let marked = mark_processed t plan.reference_id updated.balance around.now in
      let (u, m, e) = >>=-eq-ok (map_err fault marked) _ e in
      let (s1, _, e) = >>=-eq-ok (repos.save_balance updated s) _ e in
      let (s2, _, e) = >>=-eq-ok (repos.insert_entry entry s1) _ e in
      let (s3, _, e) =
        >>=-eq-ok (store_claim repos around plan.claim plan.reference_id t.id s2) _ e in
      let (s4, _, e) = >>=-eq-ok (repos.update_transaction u none s3) _ e in
      let (s5, _, e) = >>=-eq-ok (emit_processed repos around updated u updated.balance s4) _ e in
      let (s6, _, e) =
        >>=-eq-ok (emit_balance_changed repos around updated u move wall.balance updated.balance s5)
          _ e in
      let (_, _, _, w) =
        mark_processed_inv t plan.reference_id updated.balance around.now
          (map_err-eq-ok fault marked m) in
      rw (← ok-injective e) (ap (λ x. is_terminal x.state) w)

  settle-Ended :
      (outcome : Result FinancialError Wallet) (wall : Wallet) (t : WagerTransaction)
      (plan : OperationPlan) (move : Movement) (s : S) {answer : WagerResult × S}
      → settle repos around outcome wall t plan move s ≡ ok answer
      → Ended answer
  unfolding settle
  settle-Ended (ok updated) wall t plan move s e = store_movement-Ended wall updated t plan move s e
  settle-Ended (err insufficient_funds) wall t plan move s e =
      reject-Ended wall t plan.reference_id _ s e
  settle-Ended (err FinancialError.invalid_input) wall t plan move s e = cc
  settle-Ended (err FinancialError.uninitialized) wall t plan move s e = cc
  settle-Ended (err FinancialError.compensation_consumed) wall t plan move s e = cc
  settle-Ended (err (FinancialError.invalid_transition a b)) wall t plan move s e = cc
  settle-Ended (err (FinancialError.of_money a)) wall t plan move s e = cc

  execute_movement-Ended :
      (move : Option Movement) (wall : Wallet) (t : WagerTransaction) (plan : OperationPlan) (s : S)
      {answer : WagerResult × S}
      → execute_movement repos around move wall t plan s ≡ ok answer
      → Ended answer
  unfolding execute_movement apply_movement
  execute_movement-Ended none wall t plan s e = store_unmoved-Ended wall t plan.reference_id s e
  execute_movement-Ended (some move) wall t plan s e =
      let (outcome, _, e) = >>=-eq-ok (moved move.direction wall move.amount around.now) _ e in
      settle-Ended outcome wall t plan move s e

  execute_plan-Ended :
      (wall : Wallet) (t : WagerTransaction) (plan : OperationPlan) (s : S)
      {answer : WagerResult × S}
      → plan.pending ≡ false
      → execute_plan repos around wall t plan s ≡ ok answer
      → Ended answer
  unfolding execute_plan
  execute_plan-Ended wall t plan s decided e =
      if-eq-ok plan.pending _ _ e (λ waits _. cc)
        (λ _ e.
          if-eq-ok (not (is_no_failure plan.failure)) _ _ e
            (λ _ e. reject-Ended wall t plan.reference_id plan.failure s e)
            (λ _ e. execute_movement-Ended plan.movement wall t plan s e))

  advance-Ended :
      (wall : Wallet) (t : WagerTransaction) (attempts : ℕ) (plan : OperationPlan) (s : S)
      {answer : WagerResult × S}
      → t.reference_deadline ≤ around.now
      → advance repos around wall t attempts plan s ≡ ok answer
      → Ended answer
  unfolding advance
  advance-Ended wall t attempts plan s late e =
      if-eq-ok plan.pending _ _ e
        (λ _ e.
          if-eq-ok (not (ltb around.now t.reference_deadline)) _ _ e
            (λ _ e. reject-Ended wall t 0 _ s e) (λ early e. ground arith))
        (λ decided e. execute_plan-Ended wall t plan s decided e)

  advance_loaded-Ended :
      (ref : Result AppError (Option WagerTransaction)) (wall : Wallet) (t : WagerTransaction)
      (attempts : ℕ) (s : S) {answer : WagerResult × S}
      → t.reference_deadline ≤ around.now
      → advance_loaded repos around ref wall t attempts s ≡ ok answer
      → Ended answer
  unfolding advance_loaded fail_or_return
  advance_loaded-Ended (err cause) wall t attempts s late e =
      if-eq-ok (is cause Sentinel.corrupt_persisted_record) _ _ e
        (λ _ e.
          let marked = mark_failed t wall.balance around.now in
          let (u, m, e) = >>=-eq-ok (map_err fault marked) _ e in
          let (s1, _, e) = >>=-eq-ok (repos.update_transaction u none s) _ e in
          let (_, _, w) =
            mark_failed_inv t wall.balance around.now (map_err-eq-ok fault marked m) in
          rw (← ok-injective e) (ap (λ x. is_terminal x.state) w))
        (λ _ e. cc)
  advance_loaded-Ended (ok ref) wall t attempts s late e =
      let (plan, _, e) = >>=-eq-ok (plan_operation (claimed repos around s) t ref) _ e in
      advance-Ended wall t attempts plan s late e

  -- A recovery that is answered at the deadline of the transaction's reference or later answers with
  -- a terminal state, whether the reference has arrived, is missing, or cannot be read.
  pub resolve_within_tx-Ended :
      (transaction_id : Uuid) (t : WagerTransaction) (attempts : ℕ) (s : S)
      {answer : WagerResult × S}
      → repos.lock_transaction transaction_id s ≡ ok (some (t, attempts))
      → t.reference_deadline ≤ around.now
      → resolve_within_tx repos around transaction_id s ≡ ok answer
      → Ended answer
  unfolding resolve_within_tx resolve_waiting
  resolve_within_tx-Ended transaction_id t attempts s locked late e =
      if-eq-ok (is_terminal t.state) _ _ (rw locked at e) (λ ended e. rw (← ok-injective e) ended)
        (λ _ e.
          let (_, e) =
            reject_if-eq-ok (not (is_pending_reference t.state))
              (contract_error ErrorCode.invalid_request) _ e in
          let (wall, _, e) = >>=-eq-ok (repos.lock_wallet t.wallet_id s) _ e in
          let (w, _, e) = >>=-eq-ok (wallet_of_transaction wall) _ e in
          advance_loaded-Ended (load_reference repos around t s) w t attempts s late e)
