-- ===== src/Money/Format.antt =====
-- The canonical external form of an amount (internal/domain/money/money.go: amountPattern, Parse,
-- String), with the parts of strconv that it calls.
pub mod Lemmas
pub mod Canonical
use backend_challenge_go_jun.Prelude.{
  ℕ, zero, suc, ◌+◌, ◌-◌, ◌*◌, ◌/◌, ◌%◌, ◌^◌, Bool, true, false, not, ◌&&◌, ◌||◌, Option, none,
  some, List, [], ◌∷◌, ◌++◌, ltb, leb, ◌==◌, if◌then◌else◌, Result, ok, err, ◌>>=◌, ◌>>◌, reject_if,
  length, get_or, take,
}
use backend_challenge_go_jun.Prelude.Bytes.{Bytes, is_digit}
use backend_challenge_go_jun.Prelude.Int.{pos, to_uint64}
use backend_challenge_go_jun.Money.{
  MoneyError, invalid_input, overflow, Money, currency_pattern, is_initialized, is_negative,
}

-- `\.[0-9]{2}$`
pub cents_pattern : Bytes → Bool
cents_pattern (d ∷ a ∷ b ∷ []) = (d == b'.') && is_digit a && is_digit b
cents_pattern _ = false

-- `[0-9]*\.[0-9]{2}$`: no digit is a point, so the first byte decides.
pub digits_pattern : Bytes → Bool
digits_pattern [] = false
digits_pattern (c ∷ s) = if is_digit c then digits_pattern s else cents_pattern (c ∷ s)

-- `^(0|[1-9][0-9]*)\.[0-9]{2}$`
unfoldable pub amount_pattern : Bytes → Bool
unfolding cents_pattern digits_pattern
amount_pattern [] = false
amount_pattern (c ∷ s) = if c == b'0' then cents_pattern s else is_digit c && digits_pattern s

-- The value of a text of decimal digits that follow the number `n`.
unfoldable pub decimal_value : ℕ → Bytes → ℕ
decimal_value n [] = n
decimal_value n (c ∷ s) = decimal_value (n * 10 + (c - b'0')) s

-- strconv.ParseInt(s, 10, 64) of a text of digits: ErrRange beyond 2^63 - 1.
unfoldable pub parse_int : Bytes → Option ℕ
unfolding decimal_value
parse_int s = let n = decimal_value 0 s in if leb n (2 ^ 63 - 1) then some n else none

or_overflow : Option ℕ → Result MoneyError ℕ
or_overflow none = err overflow
or_overflow (some n) = ok n

-- After the pattern has matched, the last two bytes are digits and the third last is the point.
unfoldable pub parse : Bytes → Bytes → Result MoneyError Money
unfolding currency_pattern amount_pattern parse_int or_overflow
parse amount currency = do
  reject_if (not (currency_pattern currency)) invalid_input
  reject_if (not (amount_pattern amount)) invalid_input
  let int_part = take (length amount - 3) amount
  let fraction =
      (get_or amount (length amount - 2) 0 - b'0') * 10
      + (get_or amount (length amount - 1) 0 - b'0')
  parsed ← or_overflow (parse_int int_part)
  reject_if (ltb ((2 ^ 63 - 1 - fraction) / 100) parsed) overflow
  ok (record { minor_units = pos (parsed * 100 + fraction); currency = currency })

-- The digits of `n` in front of `out`; a uint64 has at most 20.
pub emit_digits : ℕ → ℕ → Bytes → Bytes
emit_digits zero n out = out
emit_digits (suc fuel) n out =
    let more = emit_digits fuel (n / 10) ((b'0' + n % 10) ∷ out) in
    if ltb n 10 then (b'0' + n) ∷ out else more

-- strconv.FormatUint(n, 10)
unfoldable pub format_uint : ℕ → Bytes
unfolding emit_digits
format_uint n = emit_digits 20 n []

-- fmt.Sprintf("%02d", n) of a number below 100
abbrev pub two_digits : ℕ → Bytes
two_digits n = (b'0' + n / 10) ∷ (b'0' + n % 10) ∷ []

-- `units = -units` is uint64 arithmetic.
abbrev pub magnitude : Money → ℕ
magnitude m =
    let units = to_uint64 m.minor_units in
    if is_negative m then (2 ^ 64 - units) % 2 ^ 64 else units

-- `String`
unfoldable pub to_string : Money → Bytes
unfolding format_uint
to_string m =
    if not (is_initialized m)
    then []
    else (if is_negative m then b'-' ∷ [] else [])
      ++ (format_uint (magnitude m / 100) ++ (b'.' ∷ two_digits (magnitude m % 100)))
