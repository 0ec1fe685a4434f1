-- ===== src/Financial/Ledger.antt =====
-- Ledger postings (internal/domain/financial/ledger.go).
pub mod Postings
mod Tests
use backend_challenge_go_jun.Prelude.{
  Bool, true, false, not, ◌||◌, Result, ok, err, ◌>>=◌, ◌>>◌, reject_if, map_err,
}
use backend_challenge_go_jun.Prelude.Bytes.{bytes_eq}
use backend_challenge_go_jun.Money.{
  Money, currency_mismatch, is_initialized, is_negative, is_positive, add, sub, equal,
}
use backend_challenge_go_jun.Financial.{
  Time, is_zero_time, Direction, direction_valid, FinancialError, invalid_input, uninitialized,
  of_money,
}
use backend_challenge_go_jun.Financial.Identifiers.{Uuid, is_nil}

pub record WalletLedgerEntry : Type 0 where
  pub id : Uuid
  pub wallet_id : Uuid
  pub transaction_id : Uuid
  pub direction : Direction
  pub amount : Money
  pub balance_before : Money
  pub balance_after : Money
  pub created_at : Time

-- The `switch` on the direction, with `expected := e.balanceAfter` before it.
unfoldable pub expected_balance : Direction → WalletLedgerEntry → Result FinancialError Money
expected_balance Direction.credit e = map_err of_money (add e.balance_before e.amount)
expected_balance Direction.debit e = map_err of_money (sub e.balance_before e.amount)
expected_balance (Direction.other s) e = ok e.balance_after

-- `validate` up to the arithmetic.
unfoldable pub check_fields : WalletLedgerEntry → Result FinancialError (Unit {0})
check_fields e = do
  reject_if (is_nil e.id) invalid_input
  reject_if (is_nil e.wallet_id) invalid_input
  reject_if (is_nil e.transaction_id) invalid_input
  reject_if (not (direction_valid e.direction)) invalid_input
  reject_if (is_zero_time e.created_at) invalid_input
  reject_if
      (not (is_initialized e.amount)
        || not (is_initialized e.balance_before)
        || not (is_initialized e.balance_after))
      uninitialized
  reject_if (not (is_positive e.amount)) invalid_input
  reject_if
      (not (bytes_eq e.balance_before.currency e.amount.currency)
        || not (bytes_eq e.balance_after.currency e.amount.currency))
      (of_money currency_mismatch)
  reject_if (is_negative e.balance_before || is_negative e.balance_after) invalid_input

-- The rest of `validate`: the expected balance against the recorded one.
unfoldable pub check_arithmetic : WalletLedgerEntry → Result FinancialError (Unit {0})
unfolding expected_balance
check_arithmetic e = do
  expected ← expected_balance e.direction e
  matches ← map_err of_money (equal expected e.balance_after)
  reject_if (not matches) invalid_input

unfoldable pub validate : WalletLedgerEntry → Result FinancialError (Unit {0})
unfolding check_fields check_arithmetic
validate e = do check_fields e; check_arithmetic e

-- `NewWalletLedgerEntry`; `RehydrateWalletLedgerEntry` has the same body.
unfoldable pub new_ledger_entry : WalletLedgerEntry → Result FinancialError WalletLedgerEntry
unfolding validate
new_ledger_entry entry = do validate entry; ok entry
