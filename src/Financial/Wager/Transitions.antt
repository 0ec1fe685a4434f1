-- ===== src/Financial/Wager/Transitions.antt =====
-- The state machine of a wager transaction (internal/domain/financial/wager.go).
use backend_challenge_go_jun.Prelude.{not, ◌||◌, ltb, Result, ok, err, ◌>>◌, reject_if}
use backend_challenge_go_jun.Money.{Money, is_initialized, is_negative}
use backend_challenge_go_jun.Financial.{
  Time, is_zero_time, kind_valid, is_pending, is_permanent, State, state_valid, FailureCode,
  failure_valid, is_permanent, FinancialError, invalid_input, uninitialized, invalid_transition,
}
use backend_challenge_go_jun.Financial.Identifiers.{Uuid, is_nil}
use backend_challenge_go_jun.Financial.Wager.{WagerTransaction}

unfoldable pub check_transaction : WagerTransaction → Result FinancialError (Unit {0})
check_transaction t =
    reject_if
      (is_nil t.id
        || not (kind_valid t.kind)
        || not (state_valid t.state)
        || not (is_initialized t.amount))
      uninitialized

unfoldable pub mark_pending_reference :
    WagerTransaction → (deadline now : Time) → Result FinancialError WagerTransaction
unfolding check_transaction
mark_pending_reference t deadline now = do
  check_transaction t
  reject_if (not (is_pending t.state)) (invalid_transition t.state State.pending_reference)
  reject_if (is_zero_time deadline || is_zero_time now) invalid_input
  reject_if (not (ltb now deadline)) invalid_input
  ok (record t { state = State.pending_reference; reference_deadline = deadline; updated_at = now })

-- The `switch` of `transition`.
unfoldable pub check_source_state : State → State → Result FinancialError (Unit {0})
check_source_state State.pending next = ok tt
check_source_state State.pending_reference next = ok tt
check_source_state state next = err (invalid_transition state next)

-- The receiver of `transition` is a copy, so the `updatedAt` that it sets is lost with it.
unfoldable pub transition : WagerTransaction → State → Time → Result FinancialError (Unit {0})
unfolding check_transaction check_source_state
transition t next now = do
  check_transaction t
  reject_if (is_zero_time now) invalid_input
  check_source_state t.state next

unfoldable pub validate_observation : Uuid → Money → Result FinancialError (Unit {0})
validate_observation resolved_reference observed_balance = do
  reject_if (not (is_initialized observed_balance)) uninitialized
  reject_if (is_negative observed_balance) invalid_input

unfoldable pub mark_processed :
    WagerTransaction
    → (resolved_reference : Uuid) (observed_balance : Money) (now : Time)
    → Result FinancialError WagerTransaction
unfolding transition validate_observation
mark_processed t resolved_reference observed_balance now = do
  transition t State.processed now
  validate_observation resolved_reference observed_balance
  ok (record t {
    state = State.processed;
    reference_transaction_id = resolved_reference;
    observed_balance = observed_balance;
  })

unfoldable pub mark_rejected :
    WagerTransaction
    → (resolved_reference : Uuid) (code : FailureCode) (observed_balance : Money) (now : Time)
    → Result FinancialError WagerTransaction
unfolding transition validate_observation
mark_rejected t resolved_reference code observed_balance now = do
  transition t State.rejected now
  reject_if (not (failure_valid code) || is_permanent code) invalid_input
  validate_observation resolved_reference observed_balance
  ok (record t {
    state = State.rejected;
    reference_transaction_id = resolved_reference;
    failure_code = code;
    observed_balance = observed_balance;
  })

unfoldable pub mark_failed :
    WagerTransaction
    → (observed_balance : Money) (now : Time) → Result FinancialError WagerTransaction
unfolding transition
mark_failed t observed_balance now = do
  transition t State.failed now
  reject_if (not (is_initialized observed_balance)) uninitialized
  ok (record t {
    state = State.failed;
    failure_code = FailureCode.permanent_infrastructure;
    observed_balance = observed_balance;
  })
