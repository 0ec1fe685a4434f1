-- ===== src/Money/Format/Lemmas.antt =====
-- `Parse` after `String` and `String` after `Parse` (internal/domain/money/money.go).
use native.Mathlib.Nat.{pow-suc}
use backend_challenge_go_jun.Prelude.{
  ℕ, zero, suc, ◌+◌, ◌-◌, ◌*◌, ◌/◌, ◌%◌, ◌^◌, ◌<◌, ◌≤◌, ◌≡◌, refl, ◌∙◌, ap, true, false, [], ◌∷◌,
  ◌++◌, arith, ltb, leb, ok, Bool-cases, get_or, length, take, take-length-append, length-append,
  inl, inr, Bool, ◌&&◌,
}
use backend_challenge_go_jun.Prelude.Bytes.{is_empty, Bytes, is_digit}
use backend_challenge_go_jun.Prelude.Int.{pos, ltb_ℤ, InInt64}
use backend_challenge_go_jun.Money.{Money, currency_pattern}
use backend_challenge_go_jun.Money.Format.{
  parse, to_string, two_digits, decimal_value, emit_digits, format_uint, digits_pattern,
  cents_pattern, amount_pattern,
}

-- All bytes are digits.
abbrev pub all_digits : Bytes → Bool
all_digits [] = true
all_digits (c ∷ s) = is_digit c && all_digits s

decimal_value-emit_digits :
    (fuel n : ℕ) (out : Bytes)
    → n < 10 ^ fuel
    → decimal_value 0 (emit_digits fuel n out) ≡ decimal_value n out
unfolding decimal_value emit_digits
decimal_value-emit_digits zero n out h = let e : n ≡ 0 = omega arith in rw e
decimal_value-emit_digits (suc fuel) n out h = elim (Bool-cases (ltb n 10)) [
  | inl small ↦ rw small (ap (λ k. decimal_value k out) (omega arith))
  | inr big ↦ rw big (
      decimal_value-emit_digits fuel (n / 10) ((b'0' + n % 10) ∷ out)
        (omega (arith, pow-suc 10 fuel))
      ∙ ap (λ k. decimal_value k out) (omega arith))
]

all_digits-emit_digits :
    (fuel n : ℕ) (out : Bytes)
    → all_digits out ≡ true
    → n < 10 ^ fuel
    → all_digits (emit_digits fuel n out) ≡ true
unfolding emit_digits
all_digits-emit_digits zero n out a h = a
all_digits-emit_digits (suc fuel) n out a h =
    ground (arith, all_digits-emit_digits fuel (n / 10) ((b'0' + n % 10) ∷ out), pow-suc 10 fuel)

-- The first byte is a digit other than zero.
abbrev pub leads : Bytes → Bool
leads [] = false
leads (c ∷ s) = leb b'1' c && leb c b'9'

leads-emit_digits :
    (fuel n : ℕ) (out : Bytes) → 0 < n → n < 10 ^ fuel → leads (emit_digits fuel n out) ≡ true
unfolding emit_digits
leads-emit_digits zero n out p h = absurd (omega arith)
leads-emit_digits (suc fuel) n out p h =
    ground (arith, leads-emit_digits fuel (n / 10) ((b'0' + n % 10) ∷ out), pow-suc 10 fuel)

digits_pattern-append :
    (s t : Bytes) → all_digits s ≡ true → cents_pattern t ≡ true → digits_pattern (s ++ t) ≡ true
unfolding digits_pattern cents_pattern
digits_pattern-append [] [] hs ht = cc
digits_pattern-append [] (d ∷ []) hs ht = cc
digits_pattern-append [] (d ∷ a ∷ []) hs ht = cc
digits_pattern-append [] (d ∷ a ∷ b ∷ []) hs ht = ground arith
digits_pattern-append [] (d ∷ a ∷ b ∷ c ∷ t) hs ht = cc
digits_pattern-append (c ∷ s) t hs ht = ground (arith, digits_pattern-append s t)

amount_pattern-leads :
    (s t : Bytes)
    → leads s ≡ true
    → all_digits s ≡ true
    → cents_pattern t ≡ true
    → amount_pattern (s ++ t) ≡ true
unfolding amount_pattern
amount_pattern-leads [] t l hs ht = cc
amount_pattern-leads (c ∷ s) t l hs ht = ground (arith, digits_pattern-append s t)

-- What `String` writes in front of the cents matches the pattern.
amount_pattern-format_uint :
    (n : ℕ) (t : Bytes)
    → n < 10 ^ 20
    → cents_pattern t ≡ true
    → amount_pattern (format_uint n ++ t) ≡ true
unfolding format_uint
amount_pattern-format_uint zero t h ht = unfold amount_pattern emit_digits in ht
amount_pattern-format_uint (suc n) t h ht =
    amount_pattern-leads (emit_digits 20 (suc n) []) t
      (leads-emit_digits 20 (suc n) [] (omega arith) h)
      (all_digits-emit_digits 20 (suc n) [] refl h) ht

get_or-append : (s t : Bytes) (k : ℕ) → get_or (s ++ t) (length s + k) 0 ≡ get_or t k 0
get_or-append [] t k = ap (λ i. get_or t i 0) (omega arith)
get_or-append (c ∷ s) t k =
    let e : suc (length s) + k ≡ suc (length s + k) = omega arith in rw e (get_or-append s t k)

-- The slices that `Parse` takes of a text that ends in a point and two digits.
module _ (s : Bytes) (a b : ℕ) where
  abbrev pub with_cents : Bytes
  with_cents = s ++ b'.' ∷ a ∷ b ∷ []

  pub take-with_cents : take (length with_cents - 3) with_cents ≡ s
  take-with_cents =
      let e : length with_cents - 3 ≡ length s =
        omega (arith, length-append s (b'.' ∷ a ∷ b ∷ [])) in
      rw e (take-length-append s (b'.' ∷ a ∷ b ∷ []))

  pub get_or-tens : get_or with_cents (length with_cents - 2) 0 ≡ a
  get_or-tens =
      let e : length with_cents - 2 ≡ length s + 1 =
        omega (arith, length-append s (b'.' ∷ a ∷ b ∷ [])) in
      rw e (get_or-append s (b'.' ∷ a ∷ b ∷ []) 1)

  pub get_or-units : get_or with_cents (length with_cents - 1) 0 ≡ b
  get_or-units =
      let e : length with_cents - 1 ≡ length s + 2 =
        omega (arith, length-append s (b'.' ∷ a ∷ b ∷ [])) in
      rw e (get_or-append s (b'.' ∷ a ∷ b ∷ []) 2)

pub parse-append :
    (s : Bytes) (a b : ℕ) (currency : Bytes)
    → currency_pattern currency ≡ true
    → amount_pattern (s ++ b'.' ∷ a ∷ b ∷ []) ≡ true
    → decimal_value 0 s * 100 + ((a - b'0') * 10 + (b - b'0')) ≤ 2 ^ 63 - 1
    → parse (s ++ b'.' ∷ a ∷ b ∷ []) currency
      ≡ ok (record {
        minor_units = pos (decimal_value 0 s * 100 + ((a - b'0') * 10 + (b - b'0')));
        currency = currency;
      })
unfolding parse
parse-append s a b currency hc hp fits =
    rw (hc, hp, take-with_cents s a b, get_or-tens s a b, get_or-units s a b) (ground arith)

currency_pattern-initialized :
    (currency : Bytes) → currency_pattern currency ≡ true → is_empty currency ≡ false
unfolding currency_pattern
currency_pattern-initialized [] h = cc
currency_pattern-initialized (c ∷ s) h = refl

nonnegative : (n : ℕ) → ltb_ℤ (pos n) (pos 0) ≡ false
nonnegative n = ground arith

-- Without a sign, `String` writes the whole units, the point and the cents.
pub to_string-pos :
    (n : ℕ) (currency : Bytes)
    → currency_pattern currency ≡ true
    → n ≤ 2 ^ 63 - 1
    → to_string (record { minor_units = pos n; currency = currency })
      ≡ format_uint (n / 100) ++ b'.' ∷ two_digits (n % 100)
unfolding to_string
to_string-pos n currency hc h =
    let e : n % 2 ^ 64 ≡ n = omega arith in
    rw (currency_pattern-initialized currency hc, nonnegative n, e)

decimal_value-format_uint : (n : ℕ) → n < 10 ^ 20 → decimal_value 0 (format_uint n) ≡ n
unfolding format_uint decimal_value
decimal_value-format_uint n h = decimal_value-emit_digits 20 n [] h

cents_pattern-two_digits : (n : ℕ) → cents_pattern (b'.' ∷ two_digits (n % 100)) ≡ true
unfolding cents_pattern
cents_pattern-two_digits n = ground arith

parse-format :
    (n : ℕ) (currency : Bytes)
    → currency_pattern currency ≡ true
    → n ≤ 2 ^ 63 - 1
    → parse (format_uint (n / 100) ++ b'.' ∷ two_digits (n % 100)) currency
      ≡ ok (record { minor_units = pos n; currency = currency })
parse-format n currency hc h =
    let v = decimal_value-format_uint (n / 100) (omega arith) in
    parse-append (format_uint (n / 100)) (b'0' + n % 100 / 10) (b'0' + n % 100 % 10) currency hc
      (amount_pattern-format_uint (n / 100) _ (omega arith) (cents_pattern-two_digits n))
      (omega arith)
    ∙ ap (λ k. ok (record { minor_units = pos k; currency = currency })) (omega arith)

-- `Parse` reads what `String` writes, for every amount of a currency that is not negative.
pub parse-to_string :
    (n : ℕ) (currency : Bytes)
    → currency_pattern currency ≡ true
    → InInt64 (pos n)
    → let m : Money = record { minor_units = pos n; currency = currency } in
      parse (to_string m) currency ≡ ok m
parse-to_string n currency hc h =
    rw (to_string-pos n currency hc (omega arith)) (parse-format n currency hc (omega arith))
