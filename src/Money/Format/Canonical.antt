-- ===== src/Money/Format/Canonical.antt =====
-- An accepted amount is the one canonical text of its value (internal/domain/money/money.go).
use mathlib.Core.Path.{ap₂}
use mathlib.Core.List.{append-nil}
use native.Mathlib.Nat.{pow-suc, pow-le-pow_right}
use backend_challenge_go_jun.Prelude.{
  reject_if, not, ◌>>=◌, ◌>>◌, ◌⊎◌, ◌==◌, ℕ, suc, ◌+◌, ◌-◌, ◌*◌, ◌/◌, ◌%◌, ◌^◌, ◌<◌, ◌≤◌, ◌≡◌, refl,
  ◌∙◌, ap, true, false, [], ◌∷◌, ◌++◌, arith, ltb, ok, Bool-cases, inl, inr, length, Bool, ◌&&◌,
}
use backend_challenge_go_jun.Prelude.Bytes.{Bytes, is_digit}
use backend_challenge_go_jun.Prelude.Int.{pos}
use backend_challenge_go_jun.Money.{Money, invalid_input, overflow, currency_pattern}
use backend_challenge_go_jun.Money.Format.{
  decimal_value, emit_digits, format_uint, digits_pattern, cents_pattern, amount_pattern, parse,
  to_string, two_digits, or_overflow, parse_int,
}
use backend_challenge_go_jun.Money.Format.Lemmas.{
  all_digits, leads, to_string-pos, take-with_cents, get_or-tens, get_or-units,
}

-- A text is `s`, a point, and two digits `a` and `b`.
record Cents (t s : Bytes) (a b : ℕ) : Type 0 where
  split : t ≡ s ++ b'.' ∷ a ∷ b ∷ []
  whole : all_digits s ≡ true
  tens : is_digit a ≡ true
  units : is_digit b ≡ true

abbrev HasCents : Bytes → Type 0
HasCents t = (s : Bytes) × (a : ℕ) × (b : ℕ) × Cents t s a b

cents_pattern-HasCents : (t : Bytes) → cents_pattern t ≡ true → (a : ℕ) × (b : ℕ) × Cents t [] a b
unfolding cents_pattern
cents_pattern-HasCents [] h = cc
cents_pattern-HasCents (d ∷ []) h = cc
cents_pattern-HasCents (d ∷ a ∷ []) h = cc
cents_pattern-HasCents (d ∷ a ∷ b ∷ []) h = (a, b, ground arith)
cents_pattern-HasCents (d ∷ a ∷ b ∷ c ∷ t) h = cc

digits_pattern-HasCents : (t : Bytes) → digits_pattern t ≡ true → HasCents t
unfolding digits_pattern
digits_pattern-HasCents [] h = cc
digits_pattern-HasCents (c ∷ t) h = elim (Bool-cases (is_digit c)) [
  | inl digit ↦
      let (s, a, b, p) = digits_pattern-HasCents t (rw digit at h) in
      (
        c ∷ s,
        a,
        b,
        record {
          split = ap (λ r. c ∷ r) p.split;
          whole = rw (digit, p.whole) refl;
          tens = p.tens;
          units = p.units;
        },
      )
  | inr other ↦ let (a, b, p) = cents_pattern-HasCents (c ∷ t) (rw other at h) in ([], a, b, p)
]

both : (p q : Bool) → (p && q) ≡ true → (p ≡ true) × (q ≡ true)
both p q h = ground arith

-- The whole units of an accepted amount: a lone zero, or digits of which the first is none.
abbrev IsWhole : Bytes → Type 0
IsWhole s = (s ≡ b'0' ∷ []) ⊎ ((leads s ≡ true) × (all_digits s ≡ true))

zero-Cents :
    (c : ℕ) (t : Bytes) {a b : ℕ} → c ≡ b'0' → Cents t [] a b → Cents (c ∷ t) (b'0' ∷ []) a b
zero-Cents c t e p = record {
  split = rw e (ap (λ r. b'0' ∷ r) p.split);
  whole = refl;
  tens = p.tens;
  units = p.units;
}

suc-Cents :
    (c : ℕ) {t s : Bytes} {a b : ℕ} → is_digit c ≡ true → Cents t s a b → Cents (c ∷ t) (c ∷ s) a b
suc-Cents c digit p = record {
  split = ap (λ r. c ∷ r) p.split;
  whole = rw (digit, p.whole) refl;
  tens = p.tens;
  units = p.units;
}

amount_pattern-parts :
    (t : Bytes)
    → amount_pattern t ≡ true
    → (s : Bytes) × (a : ℕ) × (b : ℕ) × Cents t s a b × IsWhole s
unfolding amount_pattern
amount_pattern-parts [] h = cc
amount_pattern-parts (c ∷ t) h = elim (Bool-cases (c == b'0')) [
  | inl zero_byte ↦
      let (a, b, p) = cents_pattern-HasCents t (rw zero_byte at h) in
      (b'0' ∷ [], a, b, zero-Cents c t (ground arith) p, inl refl)
  | inr other ↦
      let (digit, rest) = both (is_digit c) (digits_pattern t) (rw other at h) in
      let (s, a, b, p) = digits_pattern-HasCents t rest in
      (c ∷ s, a, b, suc-Cents c digit p, inr (ground arith, rw (digit, p.whole) refl))
]

last_digit :
    (fuel n c : ℕ) (out : Bytes)
    → 0 < n
    → is_digit c ≡ true
    → emit_digits (suc fuel) (n * 10 + (c - b'0')) out ≡ emit_digits fuel n (c ∷ out)
unfolding emit_digits
last_digit fuel n c out p h =
    let q : (n * 10 + (c - b'0')) / 10 ≡ n = ground arith in
    let r : b'0' + (n * 10 + (c - b'0')) % 10 ≡ c = ground arith in
    let big : ltb (n * 10 + (c - b'0')) 10 ≡ false = ground arith in rw (big, q, r)

-- The digits behind a number other than zero come back.
emit_digits-decimal_value :
    (s : Bytes) (fuel n : ℕ) (out : Bytes)
    → 0 < n
    → all_digits s ≡ true
    → emit_digits (fuel + length s) (decimal_value n s) out ≡ emit_digits fuel n (s ++ out)
unfolding emit_digits decimal_value
emit_digits-decimal_value [] fuel n out p h = ap (λ k. emit_digits k n out) (omega arith)
emit_digits-decimal_value (c ∷ s) fuel n out p h =
    let (digit, rest) = both (is_digit c) (all_digits s) h in
    ap (λ k. emit_digits k (decimal_value (n * 10 + (c - b'0')) s) out) (omega arith)
    ∙ emit_digits-decimal_value s (suc fuel) (n * 10 + (c - b'0')) out (omega arith) rest
    ∙ last_digit fuel n c (s ++ out) p digit

decimal_value-lower : (s : Bytes) (n : ℕ) → n * 10 ^ length s ≤ decimal_value n s
unfolding decimal_value
decimal_value-lower [] n = omega arith
decimal_value-lower (c ∷ s) n =
    rw (pow-suc 10 (length s)) (omega (arith, decimal_value-lower s (n * 10 + (c - b'0'))))

le_mul : (n p : ℕ) → 0 < n → p ≤ n * p
le_mul n p h = grind arith

length-le : (s : Bytes) (n : ℕ) → 0 < n → decimal_value n s < 10 ^ 19 → length s < 19
length-le s n p h = elim (Bool-cases (ltb (length s) 19)) [
  | inl short ↦ ground arith
  | inr long ↦
      let power : 10 ^ 19 ≤ 10 ^ length s =
        pow-le-pow_right (omega arith) {i = 19} (ground arith) in
      absurd (omega (arith, power, le_mul n (10 ^ length s) p, decimal_value-lower s n))
]

first_digit : (fuel n : ℕ) (out : Bytes) → n < 10 → emit_digits (suc fuel) n out ≡ (b'0' + n) ∷ out
unfolding emit_digits
first_digit fuel n out h = ground arith

emit_digits-leads :
    (c : ℕ) (s : Bytes)
    → leads (c ∷ s) ≡ true
    → all_digits s ≡ true
    → decimal_value (c - b'0') s < 10 ^ 19
    → emit_digits 20 (decimal_value (c - b'0') s) [] ≡ c ∷ s
emit_digits-leads c s l d h =
    let short = length-le s (c - b'0') (ground arith) h in
    let fuel : ℕ = 19 - length s in
    ap (λ k. emit_digits k (decimal_value (c - b'0') s) []) (omega arith)
    ∙ emit_digits-decimal_value s (suc fuel) (c - b'0') [] (ground arith) d
    ∙ first_digit fuel (c - b'0') (s ++ []) (ground arith)
    ∙ ap₂ (λ (b : ℕ) (r : Bytes). b ∷ r) (ground arith) (append-nil s)

format_uint-emit_digits : (n : ℕ) → format_uint n ≡ emit_digits 20 n []
unfolding format_uint
format_uint-emit_digits n = refl

decimal_value-cons :
    (n c : ℕ) (s : Bytes) → decimal_value n (c ∷ s) ≡ decimal_value (n * 10 + (c - b'0')) s
unfolding decimal_value
decimal_value-cons n c s = refl

-- Printing the value of a canonical text gives the text.
format_uint-decimal_value :
    (s : Bytes) → IsWhole s → decimal_value 0 s ≤ 2 ^ 63 - 1 → format_uint (decimal_value 0 s) ≡ s
format_uint-decimal_value s (inl zero_text) h =
    rw zero_text (unfold format_uint decimal_value in refl)
format_uint-decimal_value [] (inr (l, d)) h = cc
format_uint-decimal_value (c ∷ s) (inr (l, d)) h =
    let e : decimal_value 0 (c ∷ s) ≡ decimal_value (c - b'0') s =
      decimal_value-cons 0 c s ∙ ap (λ k. decimal_value k s) (omega arith) in
    rw (e, format_uint-emit_digits)
      (emit_digits-leads c s l (both (is_digit c) (all_digits s) d).1 (omega arith))

parse-with_cents :
    (s : Bytes) (a b : ℕ) (currency : Bytes)
    → let fraction = (a - b'0') * 10 + (b - b'0') in
      parse (s ++ b'.' ∷ a ∷ b ∷ []) currency ≡ (do
        reject_if (not (currency_pattern currency)) invalid_input
        reject_if (not (amount_pattern (s ++ b'.' ∷ a ∷ b ∷ []))) invalid_input
        parsed ← or_overflow (parse_int s)
        reject_if (ltb ((2 ^ 63 - 1 - fraction) / 100) parsed) overflow
        ok (record { minor_units = pos (parsed * 100 + fraction); currency = currency }))
unfolding parse
parse-with_cents s a b currency =
    rw (take-with_cents s a b, get_or-tens s a b, get_or-units s a b) refl

parse-append_inv :
    (s : Bytes) (a b : ℕ) (currency : Bytes) {m : Money}
    → parse (s ++ b'.' ∷ a ∷ b ∷ []) currency ≡ ok m
    → is_digit a ≡ true
    → is_digit b ≡ true
    → let n = decimal_value 0 s * 100 + ((a - b'0') * 10 + (b - b'0')) in
      (m ≡ record { minor_units = pos n; currency = currency })
      × (currency_pattern currency ≡ true)
      × (n ≤ 2 ^ 63 - 1)
unfolding parse_int or_overflow
parse-append_inv s a b currency h da db =
    let e = rw (parse-with_cents s a b currency) at h in ground arith

-- An accepted amount matches the pattern.
parse-amount_pattern :
    (amount currency : Bytes) {m : Money}
    → parse amount currency ≡ ok m
    → amount_pattern amount ≡ true
unfolding parse
parse-amount_pattern amount currency h = elim (Bool-cases (amount_pattern amount)) [
  | inl matches ↦ matches
  | inr other ↦ elim (Bool-cases (currency_pattern currency)) [
    | inl iso_code ↦ let e = rw (iso_code, other) at h in cc
    | inr unknown ↦ let e = rw unknown at h in cc
  ]
]

digit_cents :
    (v a b : ℕ)
    → is_digit a ≡ true
    → is_digit b ≡ true
    → let n = v * 100 + ((a - b'0') * 10 + (b - b'0')) in
      (n / 100 ≡ v) × (two_digits (n % 100) ≡ a ∷ b ∷ [])
digit_cents v a b da db = ground arith

-- `String` gives back every text that `Parse` accepts, so distinct texts have distinct values.
pub to_string-parse :
    (amount currency : Bytes) {m : Money} → parse amount currency ≡ ok m → to_string m ≡ amount
to_string-parse amount currency h =
    let (s, a, b, p, whole) =
      amount_pattern-parts amount (parse-amount_pattern amount currency h) in
    let (value, iso_code, range) =
      parse-append_inv s a b currency (rw p.split at h) p.tens p.units in
    let (units, cents) = digit_cents (decimal_value 0 s) a b p.tens p.units in
    rw (value, to_string-pos _ currency iso_code range, units, cents, p.split)
      (rw (format_uint-decimal_value s whole (omega arith)) refl)
