-- ===== src/Financial/Wallet/Movement.antt =====
-- What a credit and a debit do to a wallet (internal/domain/financial/wallet.go).
use backend_challenge_go_jun.Prelude.{
  ◌≤◌, ◌≡◌, ◌∙◌, sym, ap, refl, ◌≢◌, ◌⊎◌, inl, inr, true, false, arith, if◌then◌else◌, ok, err,
  ◌>>=◌, map_err, Bool-cases,
}
use backend_challenge_go_jun.Prelude.Bytes.{is_empty, bytes_eq, bytes_eq_iff}
use backend_challenge_go_jun.Prelude.Int.{
  ℤ, wrap64, wrap64_id, pos, ◌+ℤ◌, ◌-ℤ◌, ◌≤ℤ◌, ◌<ℤ◌, InInt64, max_int64, min_int64, int_laws, ltb_ℤ,
}
use backend_challenge_go_jun.Money.{Money, overflow, is_initialized, add, sub}
use backend_challenge_go_jun.Money.Arith.{Compatible, add-Exact, sub-Exact, cmp_lem}
use backend_challenge_go_jun.Financial.{Time, insufficient_funds, of_money}
use backend_challenge_go_jun.Financial.Wallet.{Wallet, with_balance, credit, debit}

-- A wallet as NewWallet and RehydrateWallet build it.
pub record IsValid (w : Wallet) : Type 0 where
  pub identified : w.id ≢ 0
  pub owned : w.player_id ≢ 0
  pub initialized : is_initialized w.balance ≡ true
  pub same_currency : w.balance.currency ≡ w.currency
  pub nonnegative : pos 0 ≤ℤ w.balance.minor_units
  pub balance_range : w.balance.minor_units ≤ℤ max_int64
  pub versioned : pos 1 ≤ℤ w.version
  pub version_range : w.version ≤ℤ max_int64
  pub created : w.created_at ≢ 0
  pub ordered : w.created_at ≤ w.updated_at

-- An amount that may move on the wallet at an instant.
pub record Movable (w : Wallet) (amount : Money) (now : Time) : Type 0 where
  pub same_currency : amount.currency ≡ w.currency
  pub positive : pos 0 <ℤ amount.minor_units
  pub range : amount.minor_units ≤ℤ max_int64
  pub timed : now ≢ 0

module _ {w : Wallet} {amount : Money} {now : Time} (v : IsValid w) (a : Movable w amount now) where
  Movable-Compatible : Compatible w.balance amount
  Movable-Compatible = record {
    initialized = v.initialized;
    same_currency = v.same_currency ∙ sym a.same_currency;
  }

  balance_currency : is_empty w.balance.currency ≡ false
  balance_currency = let h = v.initialized in ground arith

  wallet_currency : is_empty w.currency ≡ false
  wallet_currency = rw (← v.same_currency) balance_currency

  amount_currency : is_empty amount.currency ≡ false
  amount_currency = rw a.same_currency wallet_currency

  matching : bytes_eq amount.currency w.currency ≡ true
  matching = (bytes_eq_iff amount.currency w.currency).1 a.same_currency

  balance_InInt64 : InInt64 w.balance.minor_units
  balance_InInt64 = omega (arith, v.nonnegative, v.balance_range)

  amount_InInt64 : InInt64 amount.minor_units
  amount_InInt64 = omega (arith, a.positive, a.range)

  -- Past the guards a credit is the sum of the amounts.
  credit-add :
      credit w amount now
      ≡ map_err of_money (add w.balance amount) >>= λ b. ok (with_balance w b now)
  unfolding credit
  credit-add =
      rw (wallet_currency, balance_currency, amount_currency, matching)
        (ground (arith, v.identified, a.timed, a.positive))

  debit-sub : debit w amount now ≡ (
      if ltb_ℤ w.balance.minor_units amount.minor_units
      then err insufficient_funds
      else map_err of_money (sub w.balance amount) >>= λ b. ok (with_balance w b now))
  unfolding debit
  debit-sub =
      rw
        (
          wallet_currency,
          balance_currency,
          amount_currency,
          matching,
          (cmp_lem w.balance amount Movable-Compatible).0,
        )
        (ground (arith, v.identified, a.timed, a.positive))

  -- A credit is the wallet with the sum of the amounts, or the sum leaves int64 and it is refused.
  pub credit_cases :
      let sum = w.balance.minor_units +ℤ amount.minor_units in
      ((InInt64 sum)
        × (credit w amount now
            ≡ ok (with_balance w (record { minor_units = sum; currency = w.currency }) now)))
      ⊎ ((¬ InInt64 sum) × (credit w amount now ≡ err (of_money overflow)))
  credit_cases =
      elim (add-Exact w.balance amount Movable-Compatible balance_InInt64 amount_InInt64) [
        | inl (fits, e) ↦ inl (fits, rw (credit-add, e, v.same_currency) refl)
        | inr (wraps, e) ↦ inr (wraps, rw (credit-add, e) refl)
      ]

  amount_ne_min : amount.minor_units ≢ min_int64
  amount_ne_min e = let p = rw e at a.positive in omega arith

  difference_InInt64 : InInt64 (w.balance.minor_units -ℤ amount.minor_units)
  difference_InInt64 = omega (int_laws, v.nonnegative, v.balance_range, a.positive, a.range)

  sub_balance :
      sub w.balance amount
      ≡ ok (record {
        minor_units = w.balance.minor_units -ℤ amount.minor_units;
        currency = w.balance.currency;
      })
  sub_balance =
      elim ((sub-Exact w.balance amount Movable-Compatible balance_InInt64 amount_InInt64).0
        amount_ne_min) [ inl (fits, e) ↦ e | inr (wraps, e) ↦ absurd (wraps difference_InInt64) ]

  -- A debit is refused for want of funds exactly when the balance is below the amount; otherwise it
  -- is the wallet with the difference.
  pub debit_cases :
      ((w.balance.minor_units <ℤ amount.minor_units)
        × (debit w amount now ≡ err insufficient_funds))
      ⊎ ((amount.minor_units ≤ℤ w.balance.minor_units)
          × (debit w amount now
              ≡ ok (
                  with_balance w
                    (record {
                      minor_units = w.balance.minor_units -ℤ amount.minor_units;
                      currency = w.currency;
                    })
                    now)))
  debit_cases = elim (Bool-cases (ltb_ℤ w.balance.minor_units amount.minor_units)) [
    | inl short ↦ inl (ground arith, rw (debit-sub, short) refl)
    | inr enough ↦ inr (ground arith, rw (debit-sub, enough, sub_balance, v.same_currency) refl)
  ]

  next_version : w.version <ℤ max_int64 → wrap64 (w.version +ℤ pos 1) ≡ w.version +ℤ pos 1
  next_version below = wrap64_id (w.version +ℤ pos 1) (omega (int_laws, v.versioned))

  moved_exact :
      (units : ℤ)
      → w.version <ℤ max_int64
      → with_balance w (record { minor_units = units; currency = w.currency }) now ≡ record {
        id = w.id;
        player_id = w.player_id;
        currency = w.currency;
        balance = record { minor_units = units; currency = w.currency };
        version = w.version +ℤ pos 1;
        created_at = w.created_at;
        updated_at = now;
      }
  unfolding with_balance
  moved_exact units below = rw (next_version below) refl

  -- A credit of a movable amount on a valid wallet below the last version adds exactly the amount and
  -- one version, sets the instant of the update and keeps everything else, or the sum leaves int64
  -- and it is refused.
  pub credit_exact :
      w.version <ℤ max_int64
      → let sum = w.balance.minor_units +ℤ amount.minor_units in
        ((InInt64 sum)
          × (credit w amount now
              ≡ ok (record {
                id = w.id;
                player_id = w.player_id;
                currency = w.currency;
                balance = record { minor_units = sum; currency = w.currency };
                version = w.version +ℤ pos 1;
                created_at = w.created_at;
                updated_at = now;
              })))
        ⊎ ((¬ InInt64 sum) × (credit w amount now ≡ err (of_money overflow)))
  credit_exact below = elim credit_cases [
    | inl (fits, e) ↦ inl (fits, e ∙ ap ok (moved_exact _ below))
    | inr refused ↦ inr refused
  ]

  -- A debit of a movable amount on a valid wallet below the last version is refused for want of
  -- funds exactly when the balance is below the amount; otherwise it takes exactly the amount, adds
  -- one version, sets the instant of the update and keeps everything else.
  pub debit_exact :
      w.version <ℤ max_int64
      → ((w.balance.minor_units <ℤ amount.minor_units)
          × (debit w amount now ≡ err insufficient_funds))
        ⊎ ((amount.minor_units ≤ℤ w.balance.minor_units)
            × (debit w amount now
                ≡ ok (record {
                  id = w.id;
                  player_id = w.player_id;
                  currency = w.currency;
                  balance = record {
                    minor_units = w.balance.minor_units -ℤ amount.minor_units;
                    currency = w.currency;
                  };
                  version = w.version +ℤ pos 1;
                  created_at = w.created_at;
                  updated_at = now;
                })))
  debit_exact below = elim debit_cases [
    | inl short ↦ inl short
    | inr (enough, e) ↦ inr (enough, e ∙ ap ok (moved_exact _ below))
  ]
