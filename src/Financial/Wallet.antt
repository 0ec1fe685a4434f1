-- ===== src/Financial/Wallet.antt =====
-- The wallet aggregate (internal/domain/financial/wallet.go). Methods return the new wallet.
pub mod Movement
pub mod Validity
mod Tests
use backend_challenge_go_jun.Prelude.{
  Bool, true, false, not, ◌||◌, ltb, [], Result, ok, err, ◌>>=◌, ◌>>◌, reject_if, map_err,
}
use backend_challenge_go_jun.Prelude.Bytes.{Bytes, is_empty, bytes_eq}
use backend_challenge_go_jun.Prelude.Int.{ℤ, pos, ◌+ℤ◌, ltb_ℤ, wrap64}
use backend_challenge_go_jun.Money.{
  Money, currency_mismatch, is_initialized, is_negative, is_positive, add, sub, less_than,
}
use backend_challenge_go_jun.Financial.{
  Time, is_zero_time, FinancialError, invalid_input, insufficient_funds, uninitialized, of_money,
}
use backend_challenge_go_jun.Financial.Identifiers.{Uuid, is_nil}

pub record Wallet : Type 0 where
  pub id : Uuid
  pub player_id : Uuid
  pub currency : Bytes
  pub balance : Money
  pub version : ℤ  -- int64
  pub created_at : Time
  pub updated_at : Time

unfoldable pub validate_movement : Bytes → Money → Result FinancialError (Unit {0})
validate_movement currency amount = do
  reject_if (not (is_initialized amount)) uninitialized
  reject_if (not (bytes_eq amount.currency currency)) (of_money currency_mismatch)

unfoldable pub new_wallet :
    (id player_id : Uuid) (currency : Bytes) (initial_balance : Money) (now : Time)
    → Result FinancialError Wallet
unfolding validate_movement
new_wallet id player_id currency initial_balance now = do
  reject_if (is_nil id) invalid_input
  reject_if (is_nil player_id) invalid_input
  reject_if (is_zero_time now) invalid_input
  validate_movement currency initial_balance
  reject_if (is_negative initial_balance) invalid_input
  ok (record {
    id = id;
    player_id = player_id;
    currency = currency;
    balance = initial_balance;
    version = pos 1;
    created_at = now;
    updated_at = now;
  })

unfoldable pub rehydrate_wallet :
    (id player_id : Uuid) (currency : Bytes) (balance : Money) (version : ℤ)
    (created_at updated_at : Time)
    → Result FinancialError Wallet
unfolding validate_movement
rehydrate_wallet id player_id currency balance version created_at updated_at = do
  reject_if (is_nil id) invalid_input
  reject_if (is_nil player_id) invalid_input
  reject_if (ltb_ℤ version (pos 1)) invalid_input
  reject_if (is_zero_time created_at || is_zero_time updated_at) invalid_input
  reject_if (ltb updated_at created_at) invalid_input
  validate_movement currency balance
  reject_if (is_negative balance) invalid_input
  ok (record {
    id = id;
    player_id = player_id;
    currency = currency;
    balance = balance;
    version = version;
    created_at = created_at;
    updated_at = updated_at;
  })

-- `version + 1` is int64 arithmetic.
unfoldable pub with_balance : Wallet → Money → Time → Wallet
with_balance w balance now = record w {
  balance = balance;
  version = wrap64 (w.version +ℤ pos 1);
  updated_at = now;
}

unfoldable pub check_wallet : Wallet → Result FinancialError (Unit {0})
check_wallet w =
    reject_if (is_nil w.id || is_empty w.currency || not (is_initialized w.balance)) uninitialized

unfoldable pub credit : Wallet → Money → Time → Result FinancialError Wallet
unfolding validate_movement with_balance check_wallet
credit w amount now = do
  check_wallet w
  reject_if (is_zero_time now) invalid_input
  validate_movement w.currency amount
  reject_if (not (is_positive amount)) invalid_input
  balance ← map_err of_money (add w.balance amount)
  ok (with_balance w balance now)

unfoldable pub debit : Wallet → Money → Time → Result FinancialError Wallet
unfolding validate_movement with_balance check_wallet
debit w amount now = do
  check_wallet w
  reject_if (is_zero_time now) invalid_input
  validate_movement w.currency amount
  reject_if (not (is_positive amount)) invalid_input
  insufficient ← map_err of_money (less_than w.balance amount)
  reject_if insufficient insufficient_funds
  balance ← map_err of_money (sub w.balance amount)
  ok (with_balance w balance now)
