-- ===== src/Application/Reconciliation/Balance.antt =====
-- The report compares the stored balance with the sum of the ledger.
use backend_challenge_go_jun.Prelude.{
  ◌≡◌, ◌↔◌, refl, sym, ap, ◌∙◌, arith, true, List, [], ◌∷◌, length, ok, map_err, >>=-eq-ok,
  map_err-eq-ok, ok-injective, reject_if-eq-ok, not,
}
use backend_challenge_go_jun.Prelude.Bytes.{Bytes}
use backend_challenge_go_jun.Prelude.Int.{
  ℤ, pos, ◌+ℤ◌, ◌-ℤ◌, InInt64, eq_ℤ_iff, int_laws, pos_part, neg_part,
}
use backend_challenge_go_jun.Money.{Money, zero_money, currency_pattern, add, sub}
use backend_challenge_go_jun.Money.Results.{add_ok, sub_ok}
use backend_challenge_go_jun.Financial.{Direction}
use backend_challenge_go_jun.Financial.Identifiers.{Uuid}
use backend_challenge_go_jun.Application.Reconciliation.{
  ReconciliationEntry, ReconciliationSnapshot, ReconciliationReport, apply_entry, calculate,
  report_on, money_fault,
}

-- What an entry adds to a balance.
abbrev pub signed : Direction → ℤ → ℤ
signed Direction.credit z = z
signed Direction.debit z = pos 0 -ℤ z
signed (Direction.other s) z = pos 0

-- The exact sum of a ledger: credits less debits.
abbrev pub ledger_sum : List ReconciliationEntry → ℤ
ledger_sum [] = pos 0
ledger_sum (e ∷ es) = signed e.direction e.amount.minor_units +ℤ ledger_sum es

-- The amounts of a ledger as they are read: int64 values.
abbrev pub AllInInt64 : List ReconciliationEntry → Type 0
AllInInt64 [] = Unit {0}
AllInInt64 (e ∷ es) = InInt64 e.amount.minor_units × AllInInt64 es

less : (a b : ℤ) → a -ℤ b ≡ a +ℤ (pos 0 -ℤ b)
less a b = omega int_laws

+ℤ_assoc : (a b c : ℤ) → a +ℤ b +ℤ c ≡ a +ℤ (b +ℤ c)
+ℤ_assoc a b c = omega int_laws

apply_entry_ok :
    (d : Direction) (m amount : Money) {r : Money}
    → InInt64 m.minor_units
    → InInt64 amount.minor_units
    → apply_entry d m amount ≡ ok r
    → (r.minor_units ≡ m.minor_units +ℤ signed d amount.minor_units) × InInt64 r.minor_units
unfolding apply_entry
apply_entry_ok Direction.credit m amount hm ha h =
    let s = add_ok m amount hm ha (map_err-eq-ok money_fault (add m amount) h) in (s.value, s.fits)
apply_entry_ok Direction.debit m amount hm ha h =
    let s = sub_ok m amount hm ha (map_err-eq-ok money_fault (sub m amount) h) in
    (s.value ∙ less m.minor_units amount.minor_units, s.fits)
apply_entry_ok (Direction.other s) m amount hm ha h = cc

calculate_ok :
    (es : List ReconciliationEntry) (m : Money) {r : Money}
    → InInt64 m.minor_units
    → AllInInt64 es
    → calculate m es ≡ ok r
    → (r.minor_units ≡ m.minor_units +ℤ ledger_sum es) × InInt64 r.minor_units
unfolding calculate
calculate_ok [] m hm hs h = rw (← ok-injective h) (omega int_laws, hm)
calculate_ok (e ∷ es) m hm (ha, hs) h =
    let (next, a, h) = >>=-eq-ok (apply_entry e.direction m e.amount) _ h in
    let (v, hn) = apply_entry_ok e.direction m e.amount hm ha a in
    let (w, hr) = calculate_ok es next hn hs h in
    (w ∙ ap (λ z. z +ℤ ledger_sum es) v ∙ +ℤ_assoc _ _ _, hr)

zero_money_value :
    (currency : Bytes) {z : Money} → zero_money currency ≡ ok z → z.minor_units ≡ pos 0
unfolding zero_money
zero_money_value currency h =
    let (_, d) = reject_if-eq-ok (not (currency_pattern currency)) _ _ h in
    rw (← ok-injective d) refl

from_zero : (a : ℤ) → pos 0 +ℤ a ≡ a
from_zero a = omega int_laws

difference_zero : (a b : ℤ) → (a -ℤ b ≡ pos 0) ↔ (a ≡ b)
difference_zero a b = (
  λ h. omega (int_laws, ap pos_part h, ap neg_part h),
  λ h. omega (int_laws, ap pos_part h, ap neg_part h),
)

-- A report states the exact sum of the ledger, credits less debits, and the exact difference of
-- the stored balance from it; the wallet is consistent exactly if the two are equal, and every
-- entry was counted. The stored amounts are int64 values.
pub report_on_lem :
    (wallet_id : Uuid) (snapshot : ReconciliationSnapshot) {report : ReconciliationReport}
    → InInt64 snapshot.balance.minor_units
    → AllInInt64 snapshot.entries
    → report_on wallet_id snapshot ≡ ok report
    → (report.calculated_balance.minor_units ≡ ledger_sum snapshot.entries)
      × (report.difference.minor_units
          ≡ snapshot.balance.minor_units -ℤ ledger_sum snapshot.entries)
      × ((report.consistent ≡ true) ↔ (snapshot.balance.minor_units ≡ ledger_sum snapshot.entries))
      × (report.checked_entries ≡ length snapshot.entries)
unfolding report_on
report_on_lem wallet_id snapshot hb hs h =
    let (zero, z, h) = >>=-eq-ok (map_err money_fault (zero_money snapshot.balance.currency)) _ h in
    let (calculated, c, h) = >>=-eq-ok (calculate zero snapshot.entries) _ h in
    let (difference, d, h) =
      >>=-eq-ok (map_err money_fault (sub snapshot.balance calculated)) _ h in
    let nought =
      zero_money_value _ (map_err-eq-ok money_fault (zero_money snapshot.balance.currency) z) in
    let (v, hc) = calculate_ok snapshot.entries zero (rw nought (ground arith)) hs c in
    let calculated_sum : calculated.minor_units ≡ ledger_sum snapshot.entries =
      v ∙ ap (λ n. n +ℤ ledger_sum snapshot.entries) nought ∙ from_zero _ in
    let s =
      sub_ok snapshot.balance calculated hb hc
        (map_err-eq-ok money_fault (sub snapshot.balance calculated) d) in
    let difference_sum = s.value ∙ ap (λ n. snapshot.balance.minor_units -ℤ n) calculated_sum in
    rw (← ok-injective h) (
      calculated_sum,
      difference_sum,
      (
        λ e. (difference_zero _ _).0 (sym difference_sum ∙ (eq_ℤ_iff _ _).0 e),
        λ e. (eq_ℤ_iff _ _).1 (difference_sum ∙ (difference_zero _ _).1 e),
      ),
      refl,
    )
