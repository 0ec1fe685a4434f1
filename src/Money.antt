-- ===== src/Money.antt =====
-- The monetary value object (internal/domain/money/money.go): int64 minor units and a currency.
-- An operation on a value returns a new value or one of the package's sentinel errors; the text
-- of an error message is not modelled.
pub mod Arith
pub mod Results
pub mod Format
mod Tests
use backend_challenge_go_jun.Prelude.{
  ℕ, Bool, true, false, not, ◌&&◌, ◌||◌, List, [], ◌∷◌, if◌then◌else◌, Result, ok, err, ◌>>=◌, ◌>>◌,
  reject_if,
}
use backend_challenge_go_jun.Prelude.Bytes.{Bytes, is_empty, bytes_eq, is_upper}
use backend_challenge_go_jun.Prelude.Int.{
  ℤ, pos, negsuc, ◌+ℤ◌, ◌-ℤ◌, ltb_ℤ, eq_ℤ, min_int64, wrap64,
}

-- ErrInvalidInput, ErrOverflow, ErrCurrencyMismatch, ErrUninitialized
pub data MoneyError : Type 0 where
  invalid_input overflow currency_mismatch uninitialized : MoneyError

-- The zero value of the struct, `Money{}`, has the empty currency.
pub record Money : Type 0 where
  pub minor_units : ℤ
  pub currency : Bytes

abbrev pub no_money : Money
no_money = record { minor_units = pos 0; currency = [] }

-- `^[A-Z]{3}$`
unfoldable pub currency_pattern : Bytes → Bool
currency_pattern (a ∷ b ∷ c ∷ []) = is_upper a && is_upper b && is_upper c
currency_pattern _ = false

unfoldable pub zero_money : Bytes → Result MoneyError Money
unfolding currency_pattern
zero_money currency = do
  reject_if (not (currency_pattern currency)) invalid_input
  ok (record { minor_units = pos 0; currency = currency })

unfoldable pub from_minor_units : ℤ → Bytes → Result MoneyError Money
unfolding currency_pattern
from_minor_units minor_units currency = do
  reject_if (not (currency_pattern currency)) invalid_input
  ok (record { minor_units = minor_units; currency = currency })

abbrev pub is_initialized : Money → Bool
is_initialized m = not (is_empty m.currency)

abbrev pub is_zero : Money → Bool
is_zero m = eq_ℤ m.minor_units (pos 0)

abbrev pub is_negative : Money → Bool
is_negative m = ltb_ℤ m.minor_units (pos 0)

abbrev pub is_positive : Money → Bool
is_positive m = ltb_ℤ (pos 0) m.minor_units

unfoldable pub check_initialized : Money → Result MoneyError (Unit {0})
check_initialized m = reject_if (not (is_initialized m)) uninitialized

unfoldable pub check_compatible : Money → Money → Result MoneyError (Unit {0})
unfolding check_initialized
check_compatible m other = do
  check_initialized m
  check_initialized other
  reject_if (not (bytes_eq m.currency other.currency)) currency_mismatch

-- The test of `Add` looks at the sum as int64 arithmetic leaves it.
unfoldable pub add : Money → Money → Result MoneyError Money
unfolding check_compatible
add m other = do
  check_compatible m other
  let sum = wrap64 (m.minor_units +ℤ other.minor_units)
  reject_if
      ((ltb_ℤ (pos 0) other.minor_units && ltb_ℤ sum m.minor_units)
        || (ltb_ℤ other.minor_units (pos 0) && ltb_ℤ m.minor_units sum))
      overflow
  ok (record { minor_units = sum; currency = m.currency })

unfoldable pub neg : Money → Result MoneyError Money
unfolding check_initialized
neg m = do
  check_initialized m
  reject_if (eq_ℤ m.minor_units min_int64) overflow
  ok (record { minor_units = wrap64 (pos 0 -ℤ m.minor_units); currency = m.currency })

unfoldable pub sub : Money → Money → Result MoneyError Money
unfolding neg add
sub m other = do negated ← neg other; add m negated

-- The sign of the comparison: -1, 0 or 1.
unfoldable pub cmp : Money → Money → Result MoneyError ℤ
unfolding check_compatible
cmp m other = do
  check_compatible m other
  ok (
      if ltb_ℤ m.minor_units other.minor_units
      then negsuc 0
      else if ltb_ℤ other.minor_units m.minor_units
      then pos 1
      else pos 0)

unfoldable pub equal : Money → Money → Result MoneyError Bool
unfolding cmp
equal m other = do c ← cmp m other; ok (eq_ℤ c (pos 0))

unfoldable pub less_than : Money → Money → Result MoneyError Bool
unfolding cmp
less_than m other = do c ← cmp m other; ok (ltb_ℤ c (pos 0))

unfoldable pub greater_than : Money → Money → Result MoneyError Bool
unfolding cmp
greater_than m other = do c ← cmp m other; ok (ltb_ℤ (pos 0) c)
