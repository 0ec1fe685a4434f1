-- ===== src/Money/Results.antt =====
-- What successful sums and differences say of their operands (internal/domain/money/money.go).
use backend_challenge_go_jun.Prelude.{
  ◌≡◌, sym, inl, inr, arith, ok, >>=-eq-ok, Result, ◌∙◌, Bool-cases,
}
use backend_challenge_go_jun.Prelude.Bytes.{bytes_eq_iff}
use backend_challenge_go_jun.Prelude.Int.{ℤ, ◌+ℤ◌, ◌-ℤ◌, InInt64, min_int64, eq_ℤ, eq_ℤ_iff}
use backend_challenge_go_jun.Money.{
  Money, MoneyError, check_compatible, check_initialized, add, neg, sub,
}
use backend_challenge_go_jun.Money.Arith.{Compatible, Exact, add-Exact, sub-Exact}

pub check-Compatible : (m other : Money) → check_compatible m other ≡ ok tt → Compatible m other
unfolding check_compatible check_initialized
check-Compatible m other h = ground (arith, bytes_eq_iff m.currency other.currency)

-- `r` is the amount `z`, in the currency of `m`.
pub record IsAmount (m : Money) (z : ℤ) (r : Money) : Type 0 where
  pub value : r.minor_units ≡ z
  pub same_currency : r.currency ≡ m.currency
  pub fits : InInt64 r.minor_units

Exact-ok :
    (m : Money) (z : ℤ) (e : Result MoneyError Money) {r : Money}
    → Exact m.currency z e
    → e ≡ ok r
    → IsAmount m z r
Exact-ok m z e (inl (range, d)) h = let w = sym d ∙ h in ground arith
Exact-ok m z e (inr (range, d)) h = let w = sym d ∙ h in cc

pub add_ok :
    (m other : Money) {r : Money}
    → InInt64 m.minor_units
    → InInt64 other.minor_units
    → add m other ≡ ok r
    → IsAmount m (m.minor_units +ℤ other.minor_units) r
unfolding add
add_ok m other hm ho h =
    let (_, c, _) = >>=-eq-ok (check_compatible m other) _ h in
    Exact-ok m _ (add m other) (add-Exact m other (check-Compatible m other c) hm ho) h

negation_ok : (m other : Money) {r : Money} → sub m other ≡ ok r → Compatible m other
unfolding sub neg add check_initialized
negation_ok m other h =
    let (n, e, s) = >>=-eq-ok (neg other) _ h in
    let (_, c, _) = >>=-eq-ok (check_compatible m n) _ s in
    let k = check-Compatible m n c in
    record { initialized = k.initialized; same_currency = ground (arith, k.same_currency) }

pub sub_ok :
    (m other : Money) {r : Money}
    → InInt64 m.minor_units
    → InInt64 other.minor_units
    → sub m other ≡ ok r
    → IsAmount m (m.minor_units -ℤ other.minor_units) r
sub_ok m other {r} hm ho h =
    let (exact, least) = sub-Exact m other (negation_ok m other h) hm ho in
    elim (Bool-cases (eq_ℤ other.minor_units min_int64)) [
      | inl y ↦ let w = sym (least ((eq_ℤ_iff _ _).0 y)) ∙ h in cc
      | inr n ↦ Exact-ok m _ (sub m other) (exact (λ e. let y = (eq_ℤ_iff _ _).1 e in cc)) h
    ]
