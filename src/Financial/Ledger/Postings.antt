-- ===== src/Financial/Ledger/Postings.antt =====
-- Which postings the constructor accepts (internal/domain/financial/ledger.go).
use backend_challenge_go_jun.Prelude.{
  ◌≡◌, ◌∙◌, sym, refl, ◌≢◌, ◌↔◌, inl, inr, true, false, not, arith, ok, reject_if, map_err,
  >>=-eq-ok, ◌>>=◌, ◌>>◌, Result,
}
use backend_challenge_go_jun.Prelude.Bytes.{Bytes, is_empty, bytes_eq_iff}
use backend_challenge_go_jun.Prelude.Int.{
  ℤ, pos, ◌+ℤ◌, ◌-ℤ◌, ◌≤ℤ◌, ◌<ℤ◌, InInt64, max_int64, eq_ℤ_iff,
}
use backend_challenge_go_jun.Money.{Money, MoneyError, is_initialized, equal}
use backend_challenge_go_jun.Money.Arith.{Compatible, Exact, add-Exact, sub-Exact, cmp_lem}
use backend_challenge_go_jun.Financial.{
  Direction, direction_valid, of_money, invalid_input, FinancialError,
}
use backend_challenge_go_jun.Financial.Ledger.{
  WalletLedgerEntry, check_fields, check_arithmetic, new_ledger_entry,
}

-- What the direction says of the balances around a posting.
abbrev pub Balances : Direction → ℤ → ℤ → ℤ → Type 0
Balances Direction.credit amount before after = after ≡ before +ℤ amount
Balances Direction.debit amount before after = after ≡ before -ℤ amount
Balances (Direction.other s) amount before after = ⊥

-- A posting whose arithmetic is exact, in one currency, with no negative balance.
pub record IsPosting (e : WalletLedgerEntry) : Type 0 where
  pub identified : e.id ≢ 0
  pub on_wallet : e.wallet_id ≢ 0
  pub by_transaction : e.transaction_id ≢ 0
  pub timed : e.created_at ≢ 0
  pub initialized : is_initialized e.amount ≡ true
  pub before_currency : e.balance_before.currency ≡ e.amount.currency
  pub after_currency : e.balance_after.currency ≡ e.amount.currency
  pub positive : pos 0 <ℤ e.amount.minor_units
  pub before_nonnegative : pos 0 ≤ℤ e.balance_before.minor_units
  pub after_nonnegative : pos 0 ≤ℤ e.balance_after.minor_units
  pub balances :
      Balances e.direction e.amount.minor_units e.balance_before.minor_units
        e.balance_after.minor_units

-- The three amounts are int64 values.
pub record InRange (e : WalletLedgerEntry) : Type 0 where
  pub amount_range : e.amount.minor_units ≤ℤ max_int64
  pub before_range : e.balance_before.minor_units ≤ℤ max_int64
  pub after_range : e.balance_after.minor_units ≤ℤ max_int64

-- The guards of the constructor in front of the arithmetic.
record Guarded (e : WalletLedgerEntry) : Type 0 where
  identified : e.id ≢ 0
  on_wallet : e.wallet_id ≢ 0
  by_transaction : e.transaction_id ≢ 0
  directed : direction_valid e.direction ≡ true
  timed : e.created_at ≢ 0
  amount_set : is_empty e.amount.currency ≡ false
  before_set : is_empty e.balance_before.currency ≡ false
  after_set : is_empty e.balance_after.currency ≡ false
  positive : pos 0 <ℤ e.amount.minor_units
  before_currency : e.balance_before.currency ≡ e.amount.currency
  after_currency : e.balance_after.currency ≡ e.amount.currency
  before_nonnegative : pos 0 ≤ℤ e.balance_before.minor_units
  after_nonnegative : pos 0 ≤ℤ e.balance_after.minor_units

Guarded-check : (e : WalletLedgerEntry) → Guarded e → check_fields e ≡ ok tt
unfolding check_fields
Guarded-check e g =
    rw
      (
        g.amount_set,
        g.before_set,
        g.after_set,
        (bytes_eq_iff e.balance_before.currency e.amount.currency).1 g.before_currency,
        (bytes_eq_iff e.balance_after.currency e.amount.currency).1 g.after_currency,
      )
      (ground arith)

check-Guarded : (e : WalletLedgerEntry) → check_fields e ≡ ok tt → Guarded e
unfolding check_fields
check-Guarded e h = ground (
  arith,
  bytes_eq_iff e.balance_before.currency e.amount.currency,
  bytes_eq_iff e.balance_after.currency e.amount.currency,
)

abbrev against : Money → Result MoneyError Money → Result FinancialError (Unit {0})
against after r = do
  expected ← map_err of_money r
  matches ← map_err of_money (equal expected after)
  reject_if (not matches) invalid_input

-- An exact result agrees with the recorded balance or is refused; an overflow is refused.
against-Exact :
    (currency : Bytes) (z : ℤ) (after : Money) (r : Result MoneyError Money)
    → is_empty currency ≡ false
    → after.currency ≡ currency
    → InInt64 after.minor_units
    → Exact currency z r
    → (against after r ≡ ok tt) ↔ (after.minor_units ≡ z)
against-Exact currency z after r set same range (inl (fits, e)) =
    let expected : Money = record { minor_units = z; currency = currency } in
    let c : Compatible expected after = record {
      initialized = rw set refl;
      same_currency = sym same;
    } in
    rw (e, (cmp_lem expected after c).2) (ground (arith, eq_ℤ_iff z after.minor_units))
against-Exact currency z after r set same range (inr (wraps, e)) =
    (λ h. let f = rw e at h in cc, λ same_value. absurd (wraps (rw (← same_value) range)))

module _ (e : WalletLedgerEntry) (g : Guarded e) (r : InRange e) where
  amounts_Compatible : Compatible e.balance_before e.amount
  amounts_Compatible = record {
    initialized = rw g.before_set refl;
    same_currency = g.before_currency;
  }

  before_InInt64 : InInt64 e.balance_before.minor_units
  before_InInt64 = omega (arith, g.before_nonnegative, r.before_range)

  amount_InInt64 : InInt64 e.amount.minor_units
  amount_InInt64 = omega (arith, g.positive, r.amount_range)

  after_InInt64 : InInt64 e.balance_after.minor_units
  after_InInt64 = omega (arith, g.after_nonnegative, r.after_range)

  same_balance_currency : e.balance_after.currency ≡ e.balance_before.currency
  same_balance_currency = g.after_currency ∙ sym g.before_currency

  arithmetic_iff :
      (d : Direction)
      → e.direction ≡ d
      → (check_arithmetic e ≡ ok tt)
        ↔ Balances d e.amount.minor_units e.balance_before.minor_units e.balance_after.minor_units
  unfolding check_arithmetic
  arithmetic_iff Direction.credit h = rw h (
      against-Exact e.balance_before.currency _ e.balance_after _ g.before_set same_balance_currency
        after_InInt64
        (add-Exact e.balance_before e.amount amounts_Compatible before_InInt64 amount_InInt64))
  arithmetic_iff Direction.debit h = rw h (
      against-Exact e.balance_before.currency _ e.balance_after _ g.before_set same_balance_currency
        after_InInt64
        ((sub-Exact e.balance_before e.amount amounts_Compatible before_InInt64 amount_InInt64).0
          (λ m. let p = rw m at g.positive in omega arith)))
  arithmetic_iff (Direction.other s) h = let p = rw h at g.directed in cc

Balances-directed : (d : Direction) (a b c : ℤ) → Balances d a b c → direction_valid d ≡ true
Balances-directed Direction.credit a b c h = refl
Balances-directed Direction.debit a b c h = refl
Balances-directed (Direction.other s) a b c h = absurd h

new_ledger_entry-checks :
    (e : WalletLedgerEntry) → new_ledger_entry e ≡ ((check_fields e >> check_arithmetic e) >> ok e)
unfolding new_ledger_entry
new_ledger_entry-checks e = refl

IsPosting-Guarded : {e : WalletLedgerEntry} → IsPosting e → Guarded e
IsPosting-Guarded {e} p =
    let set : is_empty e.amount.currency ≡ false = let h = p.initialized in ground arith in
    record {
      identified = p.identified;
      on_wallet = p.on_wallet;
      by_transaction = p.by_transaction;
      directed = Balances-directed e.direction _ _ _ p.balances;
      timed = p.timed;
      amount_set = set;
      before_set = rw p.before_currency set;
      after_set = rw p.after_currency set;
      positive = p.positive;
      before_currency = p.before_currency;
      after_currency = p.after_currency;
      before_nonnegative = p.before_nonnegative;
      after_nonnegative = p.after_nonnegative;
    }

Guarded-IsPosting :
    (e : WalletLedgerEntry)
    → Guarded e
    → Balances e.direction e.amount.minor_units e.balance_before.minor_units
        e.balance_after.minor_units
    → IsPosting e
Guarded-IsPosting e g b = record {
  identified = g.identified;
  on_wallet = g.on_wallet;
  by_transaction = g.by_transaction;
  timed = g.timed;
  initialized = rw g.amount_set refl;
  before_currency = g.before_currency;
  after_currency = g.after_currency;
  positive = g.positive;
  before_nonnegative = g.before_nonnegative;
  after_nonnegative = g.after_nonnegative;
  balances = b;
}

-- The constructor accepts exactly the postings in one currency whose amount is positive, whose
-- balances are not negative and differ by the amount in the direction of the movement, and whose
-- identities and instant are set.
pub new_ledger_entry_iff :
    (e : WalletLedgerEntry) → InRange e → (new_ledger_entry e ≡ ok e) ↔ IsPosting e
new_ledger_entry_iff e r = (
  λ h.
      let (_, checked, _) =
        >>=-eq-ok (check_fields e >> check_arithmetic e) _ (sym (new_ledger_entry-checks e) ∙ h) in
      let (_, fields, sums) = >>=-eq-ok (check_fields e) _ checked in
      let g = check-Guarded e fields in
      Guarded-IsPosting e g ((arithmetic_iff e g r e.direction refl).0 sums),
  λ p.
      let g = IsPosting-Guarded p in
      new_ledger_entry-checks e
      ∙ rw (Guarded-check e g, (arithmetic_iff e g r e.direction refl).1 p.balances) refl,
)
