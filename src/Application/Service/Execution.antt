-- ===== src/Application/Service/Execution.antt =====
-- Storing a decision: executePlan and applyMovement (internal/application/service.go).
use backend_challenge_go_jun.Prelude.{
  Bool, true, false, not, ◌+◌, Option, none, some, if◌then◌else◌, Result, ok, err, ◌>>=◌, map_err,
}
use backend_challenge_go_jun.Prelude.Int.{pos}
use backend_challenge_go_jun.Money.{Money}
use backend_challenge_go_jun.Financial.{
  Time, Direction, FailureCode, is_no_failure, is_bet, FinancialError, insufficient_funds,
}
use backend_challenge_go_jun.Financial.Identifiers.{Uuid}
use backend_challenge_go_jun.Financial.Wallet.{Wallet, credit, debit}
use backend_challenge_go_jun.Financial.Ledger.{new_ledger_entry}
use backend_challenge_go_jun.Financial.Reversal.{new_reversal_claim}
use backend_challenge_go_jun.Financial.Wager.{WagerTransaction}
use backend_challenge_go_jun.Financial.Wager.Transitions.{
  mark_pending_reference, mark_processed, mark_rejected,
}
use backend_challenge_go_jun.Application.{AppError, driver, of_financial, wrap_invariant}
use backend_challenge_go_jun.Application.Resolve.{Movement, OperationPlan}
use backend_challenge_go_jun.Application.Backoff.{reference_ttl, reference_next_attempt_at}
use backend_challenge_go_jun.Application.Ports.{Repositories, Surroundings}
use backend_challenge_go_jun.Application.Service.{
  WagerResult, result_of, fault, emit_processed, emit_rejected, emit_pending_reference,
  emit_balance_changed,
}

-- The `switch` on the direction: the outer error is the one of an unsupported direction.
abbrev pub moved :
    Direction → Wallet → Money → Time → Result AppError (Result FinancialError Wallet)
moved Direction.credit wall amount now = ok (credit wall amount now)
moved Direction.debit wall amount now = ok (debit wall amount now)
moved (Direction.other s) wall amount now = err (wrap_invariant driver)

module _ {S : Type 0} (repos : Repositories S) (around : Surroundings) where
  -- MarkRejected, Update, emitRejected and the result, as the three places have them.
  unfoldable pub reject :
      Wallet → WagerTransaction → Uuid → FailureCode → S → Result AppError (WagerResult × S)
  reject wall txn reference_id code s = do
    rejected ← map_err fault (mark_rejected txn reference_id code wall.balance around.now)
    s ← repos.update_transaction rejected none s
    s ← emit_rejected repos around wall rejected s
    ok (result_of rejected false, s)

  unfoldable pub store_pending : WagerTransaction → S → Result AppError (WagerResult × S)
  store_pending txn s = do
    pending ← map_err fault (mark_pending_reference txn (around.now + reference_ttl) around.now)
    let next = reference_next_attempt_at (pos 0) (around.uuid_string txn.id) around.now
    s ← repos.update_transaction pending (some (record { next_attempt_at = next; attempts = 0 })) s
    s ← emit_pending_reference repos around pending s
    ok (result_of pending false, s)

  unfoldable pub store_unmoved :
      Wallet → WagerTransaction → Uuid → S → Result AppError (WagerResult × S)
  store_unmoved wall txn reference_id s = do
    processed ← map_err fault (mark_processed txn reference_id wall.balance around.now)
    s ← repos.update_transaction processed none s
    s ← emit_processed repos around wall processed wall.balance s
    ok (result_of processed false, s)

  -- `if plan.claim`
  unfoldable pub store_claim : Bool → Uuid → Uuid → S → Result AppError S
  store_claim false reference_id transaction_id s = ok s
  store_claim true reference_id transaction_id s = do
    claim ←
        map_err fault (new_reversal_claim around.claim_id reference_id transaction_id around.now)
    repos.insert_claim claim s

  -- applyMovement once the wallet has moved.
  unfoldable pub store_movement :
      (wall updated : Wallet)
      → WagerTransaction
      → OperationPlan
      → Movement
      → S
      → Result AppError (WagerResult × S)
  unfolding store_claim
  store_movement wall updated txn plan move s = do
    entry ← map_err fault (
        new_ledger_entry (record {
          id = around.entry_id;
          wallet_id = updated.id;
          transaction_id = txn.id;
          direction = move.direction;
          amount = move.amount;
          balance_before = wall.balance;
          balance_after = updated.balance;
          created_at = around.now;
        }))
    processed ← map_err fault (mark_processed txn plan.reference_id updated.balance around.now)
    s ← repos.save_balance updated s
    s ← repos.insert_entry entry s
    s ← store_claim plan.claim plan.reference_id txn.id s
    s ← repos.update_transaction processed none s
    s ← emit_processed repos around updated processed updated.balance s
    s ← emit_balance_changed repos around updated processed move wall.balance updated.balance s
    ok (result_of processed false, s)

  -- The error of the movement: want of funds is a rejection, any other is returned.
  unfoldable pub settle :
      Result FinancialError Wallet
      → Wallet
      → WagerTransaction
      → OperationPlan
      → Movement
      → S
      → Result AppError (WagerResult × S)
  unfolding reject store_movement
  settle (ok updated) wall txn plan move s = store_movement wall updated txn plan move s
  settle (err insufficient_funds) wall txn plan move s =
      reject wall txn plan.reference_id
        (if not (is_bet txn.kind)
          then FailureCode.reversal_insufficient_funds
          else FailureCode.insufficient_funds)
        s
  settle (err e) wall txn plan move s = err (of_financial e)

  unfoldable pub apply_movement :
      Wallet → WagerTransaction → OperationPlan → Movement → S → Result AppError (WagerResult × S)
  unfolding settle
  apply_movement wall txn plan move s = do
    outcome ← moved move.direction wall move.amount around.now
    settle outcome wall txn plan move s

  unfoldable pub execute_movement :
      Option Movement
      → Wallet
      → WagerTransaction
      → OperationPlan
      → S
      → Result AppError (WagerResult × S)
  unfolding store_unmoved apply_movement
  execute_movement none wall txn plan s = store_unmoved wall txn plan.reference_id s
  execute_movement (some move) wall txn plan s = apply_movement wall txn plan move s

  unfoldable pub execute_plan :
      Wallet → WagerTransaction → OperationPlan → S → Result AppError (WagerResult × S)
  unfolding store_pending reject execute_movement
  execute_plan wall txn plan s =
      if plan.pending
      then store_pending txn s
      else (if not (is_no_failure plan.failure)
          then reject wall txn plan.reference_id plan.failure s
          else execute_movement plan.movement wall txn plan s)
