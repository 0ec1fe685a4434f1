-- ===== src/Money/Arith.antt =====
-- Arithmetic and comparison of amounts against the exact integers.
use backend_challenge_go_jun.Prelude.{
  ◌≡◌, ◌≢◌, refl, ◌⊎◌, Result, inl, inr, ◌&&◌, ◌||◌, true, false, arith, ok, err, Bool,
}
use backend_challenge_go_jun.Prelude.Bytes.{Bytes, bytes_eq_refl}
use backend_challenge_go_jun.Prelude.Int.{
  ℤ, pos, negsuc, ◌+ℤ◌, ◌-ℤ◌, InInt64, min_int64, wrap64, wrap64_id, int_laws, ltb_ℤ, eq_ℤ,
}
use backend_challenge_go_jun.Money.{
  Money, MoneyError, overflow, is_initialized, check_compatible, add, neg, sub, equal, less_than,
  greater_than,
}

-- Two initialized amounts of one currency.
pub record Compatible (m other : Money) : Type 0 where
  pub initialized : is_initialized m ≡ true
  pub same_currency : m.currency ≡ other.currency

pub Compatible-check : {m other : Money} → Compatible m other → check_compatible m other ≡ ok tt
unfolding check_compatible
Compatible-check {m} {other} c =
    rw (← c.same_currency) (rw (bytes_eq_refl m.currency, c.initialized) refl)

abbrev pub overflowed : ℤ → ℤ → Bool
overflowed a b =
    (ltb_ℤ (pos 0) b && ltb_ℤ (wrap64 (a +ℤ b)) a) || (ltb_ℤ b (pos 0) && ltb_ℤ a (wrap64 (a +ℤ b)))

-- The test on the wrapped sum of two int64 values finds exactly the overflows.
overflowed_iff :
    (a b : ℤ)
    → InInt64 a
    → InInt64 b
    → (overflowed a b ≡ false × InInt64 (a +ℤ b)) ⊎ (overflowed a b ≡ true × (¬ InInt64 (a +ℤ b)))
unfolding wrap64 ◌+ℤ◌
overflowed_iff (pos a) (pos b) ha hb = ground arith
overflowed_iff (pos a) (negsuc b) ha hb = ground arith
overflowed_iff (negsuc a) (pos b) ha hb = ground arith
overflowed_iff (negsuc a) (negsuc b) ha hb = ground arith

-- The exact result `z` where it fits in int64, and the overflow error where it does not.
abbrev pub Exact : Bytes → ℤ → Result MoneyError Money → Type 0
Exact currency z r =
    (InInt64 z × (r ≡ ok (record { minor_units = z; currency = currency })))
    ⊎ ((¬ InInt64 z) × (r ≡ err overflow))

-- The sum of two amounts of one currency is exact, or it is refused as an overflow.
pub add-Exact :
    (m other : Money)
    → Compatible m other
    → InInt64 m.minor_units
    → InInt64 other.minor_units
    → Exact m.currency (m.minor_units +ℤ other.minor_units) (add m other)
unfolding add
add-Exact m other c hm ho = elim (overflowed_iff m.minor_units other.minor_units hm ho) [
  | inl (fits, range) ↦ inl (range, rw (Compatible-check c) (rw fits (rw (wrap64_id _ range) refl)))
  | inr (wraps, range) ↦ inr (range, rw (Compatible-check c) (rw wraps refl))
]

-- The negation of an amount is exact, or, for the one value that has none, refused.
pub neg-Exact :
    (m : Money)
    → is_initialized m ≡ true
    → InInt64 m.minor_units
    → Exact m.currency (pos 0 -ℤ m.minor_units) (neg m)
unfolding neg wrap64 ◌-ℤ◌
neg-Exact m i h = ground arith

neg_ok :
    (m : Money)
    → is_initialized m ≡ true
    → InInt64 m.minor_units
    → m.minor_units ≢ min_int64
    → InInt64 (pos 0 -ℤ m.minor_units)
      × (neg m ≡ ok (record { minor_units = pos 0 -ℤ m.minor_units; currency = m.currency }))
unfolding neg wrap64 ◌-ℤ◌
neg_ok m i h ne = ground arith

neg_min : (m : Money) → is_initialized m ≡ true → m.minor_units ≡ min_int64 → neg m ≡ err overflow
unfolding neg
neg_min m i e = ground arith

Compatible-right : {m other : Money} → Compatible m other → is_initialized other ≡ true
Compatible-right c = rw (← c.same_currency) c.initialized

add_neg : (a b : ℤ) → a +ℤ (pos 0 -ℤ b) ≡ a -ℤ b
add_neg a b = omega int_laws

-- A difference is exact or refused; the subtrahend -2^63 is refused with every minuend.
pub sub-Exact :
    (m other : Money)
    → Compatible m other
    → InInt64 m.minor_units
    → InInt64 other.minor_units
    → (other.minor_units ≢ min_int64
        → Exact m.currency (m.minor_units -ℤ other.minor_units) (sub m other))
      × (other.minor_units ≡ min_int64 → sub m other ≡ err overflow)
unfolding sub
sub-Exact m other c hm ho = (
  λ ne.
      let (range, e) = neg_ok other (Compatible-right c) ho ne in
      rw e (
        rw (← add_neg m.minor_units other.minor_units) (
          add-Exact m
            (record { minor_units = pos 0 -ℤ other.minor_units; currency = other.currency })
            (record { initialized = c.initialized; same_currency = c.same_currency }) hm range)),
  λ e. rw (neg_min other (Compatible-right c) e) refl,
)

-- The three comparisons decide the order of the exact amounts.
pub cmp_lem :
    (m other : Money)
    → Compatible m other
    → (less_than m other ≡ ok (ltb_ℤ m.minor_units other.minor_units))
      × (greater_than m other ≡ ok (ltb_ℤ other.minor_units m.minor_units))
      × (equal m other ≡ ok (eq_ℤ m.minor_units other.minor_units))
unfolding less_than greater_than equal
cmp_lem m other c = rw (Compatible-check c) (ground arith)
