-- ===== src/Application/Service/Recovery.antt =====
-- The recovery of a reference and the opening of a wallet: ResolvePendingReference and OpenWallet
-- (internal/application/service.go).
use backend_challenge_go_jun.Prelude.{
  ℕ, Bool, true, false, not, ◌+◌, ltb, Option, none, some, if◌then◌else◌, Result, ok, err, ◌>>=◌,
  ◌>>◌, map_err, reject_if,
}
use backend_challenge_go_jun.Prelude.Int.{pos}
use backend_challenge_go_jun.Money.{is_positive, zero_money}
use backend_challenge_go_jun.Financial.{is_terminal, State, Direction, FailureCode, of_money}
use backend_challenge_go_jun.Financial.Identifiers.{Uuid}
use backend_challenge_go_jun.Financial.Wallet.{Wallet, new_wallet}
use backend_challenge_go_jun.Financial.Ledger.{new_ledger_entry}
use backend_challenge_go_jun.Financial.Wager.{
  WagerTransaction, new_internal_opening, rehydrate_transaction,
}
use backend_challenge_go_jun.Financial.Wager.Transitions.{mark_processed}
use backend_challenge_go_jun.Application.{
  AppError, ErrorCode, Sentinel, is, driver, corrupt_record, contract_error, conflict_error_of,
  not_found_error, of_financial, wrap_invariant,
}
use backend_challenge_go_jun.Application.Commands.{
  OpenWalletCommand, validate_open_wallet, validate_resolve_pending_reference,
}
use backend_challenge_go_jun.Application.Resolve.{OperationPlan, plan_operation}
use backend_challenge_go_jun.Application.Backoff.{reference_next_attempt_at}
use backend_challenge_go_jun.Application.Ports.{Repositories, Surroundings}
use backend_challenge_go_jun.Application.Service.{
  WagerResult, result_of, fault, emit_processed, emit_balance_changed,
}
use backend_challenge_go_jun.Application.Service.Execution.{execute_plan, reject}
use backend_challenge_go_jun.Application.Service.Submission.{
  claimed, load_reference, fail_or_return, in_tx,
}

abbrev pub is_pending_reference : State → Bool
is_pending_reference State.pending_reference = true
is_pending_reference _ = false

abbrev pub wallet_of_transaction : Option Wallet → Result AppError Wallet
wallet_of_transaction none = err (corrupt_record driver)
wallet_of_transaction (some wall) = ok wall

abbrev pub found_transaction :
    Option (WagerTransaction × ℕ) → Result AppError (WagerTransaction × ℕ)
found_transaction none = err not_found_error
found_transaction (some found) = ok found

module _ {S : Type 0} (repos : Repositories S) (around : Surroundings) where
  unfoldable pub reschedule_reference : WagerTransaction → ℕ → S → Result AppError (WagerResult × S)
  reschedule_reference txn attempts s = do
    let next_at =
        reference_next_attempt_at (pos (attempts + 1)) (around.uuid_string txn.id) around.now
    s ← repos.reschedule_reference txn.id around.now next_at (attempts + 1) s
    rescheduled ← map_err fault (rehydrate_transaction (record txn { updated_at = around.now }))
    ok (result_of rescheduled false, s)

  -- A plan in the recovery: what is still pending expires at its deadline.
  unfoldable pub advance :
      Wallet → WagerTransaction → ℕ → OperationPlan → S → Result AppError (WagerResult × S)
  unfolding reschedule_reference
  advance wall txn attempts plan s =
      if plan.pending
      then (if not (ltb around.now txn.reference_deadline)
          then reject repos around wall txn 0 FailureCode.reference_not_found s
          else reschedule_reference txn attempts s)
      else execute_plan repos around wall txn plan s

  unfoldable pub advance_loaded :
      Result AppError (Option WagerTransaction)
      → Wallet
      → WagerTransaction
      → ℕ
      → S
      → Result AppError (WagerResult × S)
  unfolding advance
  advance_loaded (err e) wall txn attempts s = fail_or_return repos around e wall txn s
  advance_loaded (ok ref) wall txn attempts s = do
    plan ← plan_operation (claimed repos around s) txn ref
    advance wall txn attempts plan s

  unfoldable pub resolve_waiting : WagerTransaction → ℕ → S → Result AppError (WagerResult × S)
  unfolding advance_loaded
  resolve_waiting txn attempts s = do
    reject_if (not (is_pending_reference txn.state)) (contract_error ErrorCode.invalid_request)
    wall ← repos.lock_wallet txn.wallet_id s
    wall ← wallet_of_transaction wall
    advance_loaded (load_reference repos around txn s) wall txn attempts s

  -- The body of the transaction of ResolvePendingReference.
  unfoldable pub resolve_within_tx : Uuid → S → Result AppError (WagerResult × S)
  unfolding resolve_waiting
  resolve_within_tx transaction_id s = do
    locked ← repos.lock_transaction transaction_id s
    found ← found_transaction locked
    (if is_terminal found.0.state
        then ok (result_of found.0 false, s)
        else resolve_waiting found.0 found.1 s)

  unfoldable pub resolve_pending_reference : Uuid → S → S × Result AppError WagerResult
  unfolding resolve_within_tx
  resolve_pending_reference transaction_id s =
      elim (validate_resolve_pending_reference transaction_id) [
        | ok valid ↦ in_tx around (resolve_within_tx transaction_id) s
        | err e ↦ (s, err e)
      ]

  abbrev pub insert_error : AppError → AppError
  insert_error e =
      if is e Sentinel.wallet_exists then conflict_error_of ErrorCode.wallet_already_exists e else e

  -- The opening of a wallet whose balance is positive.
  unfoldable pub store_opening : Wallet → S → Result AppError S
  store_opening wallet s = do
    opening ← map_err fault (
        new_internal_opening (record {
          id = around.transaction_id;
          wallet_id = wallet.id;
          player_id = wallet.player_id;
          amount = wallet.balance;
          now = around.now;
        }))
    processed ← map_err fault (mark_processed opening 0 wallet.balance around.now)
    s ← repos.insert_transaction processed s
    zero ← map_err (λ e. wrap_invariant (of_financial (of_money e))) (zero_money wallet.currency)
    entry ← map_err fault (
        new_ledger_entry (record {
          id = around.entry_id;
          wallet_id = wallet.id;
          transaction_id = processed.id;
          direction = Direction.credit;
          amount = wallet.balance;
          balance_before = zero;
          balance_after = wallet.balance;
          created_at = around.now;
        }))
    s ← repos.insert_entry entry s
    s ← emit_processed repos around wallet processed wallet.balance s
    emit_balance_changed repos around wallet processed
        (record { direction = Direction.credit; amount = wallet.balance }) zero wallet.balance s

  -- The body of the transaction of OpenWallet.
  unfoldable pub open_within_tx : Wallet → S → Result AppError (Wallet × S)
  unfolding store_opening
  open_within_tx wallet s = do
    s ← map_err insert_error (repos.insert_wallet wallet s)
    (if not (is_positive wallet.balance)
        then ok (wallet, s)
        else do s ← store_opening wallet s; ok (wallet, s))

  -- The view of a wallet has its fields.
  unfoldable pub open_wallet : OpenWalletCommand → S → S × Result AppError Wallet
  unfolding open_within_tx
  open_wallet cmd s =
      elim (validate_open_wallet cmd
        >> map_err (λ e. contract_error ErrorCode.invalid_request)
            (new_wallet around.wallet_id cmd.player_id cmd.initial_balance.currency
              cmd.initial_balance around.now)) [
                | ok wallet ↦ in_tx around (open_within_tx wallet) s
                | err e ↦ (s, err e)
              ]
