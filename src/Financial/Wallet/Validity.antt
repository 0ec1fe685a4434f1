-- ===== src/Financial/Wallet/Validity.antt =====
-- Wallets stay valid, and a stored wallet can be read back (internal/domain/financial/wallet.go).
use backend_challenge_go_jun.Prelude.{
  ◌≤◌, ◌<◌, ◌≡◌, ◌∙◌, sym, ap, not, map_err, reject_if, refl, ◌≢◌, inl, inr, true, false, arith, ok,
  err, >>=-eq-ok, ok-injective,
}
use backend_challenge_go_jun.Prelude.Bytes.{Bytes, is_empty, bytes_eq_iff}
use backend_challenge_go_jun.Prelude.Int.{
  ℤ, pos, ◌+ℤ◌, ◌-ℤ◌, ◌≤ℤ◌, ◌<ℤ◌, max_int64, int_laws, pos_part, neg_part, wrap64, wrap64_id,
}
use backend_challenge_go_jun.Money.{Money, is_positive, add, is_initialized}
use backend_challenge_go_jun.Financial.{Time, is_zero_time, of_money, invalid_input}
use backend_challenge_go_jun.Financial.Identifiers.{Uuid}
use backend_challenge_go_jun.Financial.Wallet.{
  Wallet, new_wallet, rehydrate_wallet, validate_movement, check_wallet, with_balance, credit,
  debit,
}
use backend_challenge_go_jun.Financial.Wallet.Movement.{IsValid, Movable, credit_cases, debit_cases}

-- A wallet that NewWallet builds from an int64 balance is valid, at version 1.
pub new_wallet-IsValid :
    (id player_id : Uuid) (currency : Bytes) (balance : Money) (now : Time) {w : Wallet}
    → balance.minor_units ≤ℤ max_int64
    → new_wallet id player_id currency balance now ≡ ok w
    → IsValid w × (w.version ≡ pos 1) × (w.balance ≡ balance)
unfolding new_wallet
new_wallet-IsValid id player_id currency balance now range h =
    ground (arith, bytes_eq_iff balance.currency currency)

with_balance-IsValid :
    (w : Wallet) (units : ℤ) (now : Time)
    → IsValid w
    → w.created_at ≤ now
    → w.version <ℤ max_int64
    → pos 0 ≤ℤ units
    → units ≤ℤ max_int64
    → IsValid (with_balance w (record { minor_units = units; currency = w.currency }) now)
      × ((with_balance w (record { minor_units = units; currency = w.currency }) now).version
          ≡ w.version +ℤ pos 1)
unfolding with_balance
with_balance-IsValid w units now v later below nonneg range =
    let e : wrap64 (w.version +ℤ pos 1) ≡ w.version +ℤ pos 1 =
      wrap64_id (w.version +ℤ pos 1) (omega (int_laws, v.versioned)) in
    let i : is_initialized (record { minor_units = units; currency = w.currency }) ≡ true =
      rw (← v.same_currency) v.initialized in
    (
      record {
        identified = v.identified;
        owned = v.owned;
        initialized = i;
        same_currency = refl;
        nonnegative = nonneg;
        balance_range = range;
        versioned = rw e (omega (int_laws, v.versioned));
        version_range = rw e (omega (int_laws, v.versioned));
        created = v.created;
        ordered = later;
      },
      e,
    )

-- A debit that succeeds on a valid wallet, at an instant not before its creation and below the last
-- version, leaves a valid wallet one version on, whose balance is not negative.
pub debit-IsValid :
    (w : Wallet) (amount : Money) (now : Time) {w' : Wallet}
    → IsValid w
    → Movable w amount now
    → w.created_at ≤ now
    → w.version <ℤ max_int64
    → debit w amount now ≡ ok w'
    → IsValid w' × (w'.version ≡ w.version +ℤ pos 1)
debit-IsValid w amount now v a later below h = elim (debit_cases v a) [
  | inl (short, e) ↦ let c = sym h ∙ e in cc
  | inr (enough, e) ↦ rw (ok-injective (sym h ∙ e)) (
      with_balance-IsValid w (w.balance.minor_units -ℤ amount.minor_units) now v later below
        (omega int_laws) (omega (int_laws, v.balance_range, a.positive)))
]

-- A credit that succeeds on a valid wallet, at an instant not before its creation and below the last
-- version, leaves a valid wallet one version on.
pub credit-IsValid :
    (w : Wallet) (amount : Money) (now : Time) {w' : Wallet}
    → IsValid w
    → Movable w amount now
    → w.created_at ≤ now
    → w.version <ℤ max_int64
    → credit w amount now ≡ ok w'
    → IsValid w' × (w'.version ≡ w.version +ℤ pos 1)
credit-IsValid w amount now v a later below h = elim (credit_cases v a) [
  | inl (fits, e) ↦ rw (ok-injective (sym h ∙ e)) (
      with_balance-IsValid w (w.balance.minor_units +ℤ amount.minor_units) now v later below
        (omega (int_laws, v.nonnegative, a.positive)) fits.1)
  | inr (wraps, e) ↦ let c = sym h ∙ e in cc
]

-- Every valid wallet is rebuilt from its stored fields unchanged.
pub rehydrate_valid :
    (w : Wallet)
    → IsValid w
    → rehydrate_wallet w.id w.player_id w.currency w.balance w.version w.created_at w.updated_at
      ≡ ok w
unfolding rehydrate_wallet
rehydrate_valid w v =
    let b : is_empty w.balance.currency ≡ false = let h = v.initialized in ground arith in
    let m = (bytes_eq_iff w.balance.currency w.currency).1 v.same_currency in
    rw (b, m)
      (ground (arith, v.identified, v.owned, v.versioned, v.created, v.ordered, v.nonnegative))

abbrev stamped : Wallet → Time → ℤ → Wallet
stamped w later version = record w { version = version; updated_at = later }

restored :
    (w : Wallet) (units version : ℤ) (later : Time)
    → w.balance.currency ≡ w.currency
    → units ≡ w.balance.minor_units
    → ◌≡◌ {A = Wallet}
        (record w {
          balance = record { minor_units = units; currency = w.currency };
          version = version;
          updated_at = later;
        })
        (record w { version = version; updated_at = later })
restored w units version later c e = λ i. record w {
  balance = record { minor_units = e i; currency = sym c i };
  version = version;
  updated_at = later;
}

debit_restores :
    (w : Wallet) (sum : ℤ) (amount : Money) (now later : Time)
    → w.balance.currency ≡ w.currency
    → pos 0 ≤ℤ w.balance.minor_units
    → Movable w amount now
    → later ≢ 0
    → let w' = with_balance w (record { minor_units = sum; currency = w.currency }) now in
      IsValid w'
      → w'.version ≡ w.version +ℤ pos 1
      → sum ≡ w.balance.minor_units +ℤ amount.minor_units
      → w.version +ℤ pos 1 <ℤ max_int64
      → debit w' amount later
        ≡ ok (record w { version = w.version +ℤ pos 1 +ℤ pos 1; updated_at = later })
unfolding with_balance
debit_restores w sum amount now later c nonneg a timed valid version e below =
    let movable : Movable (with_balance w (record { minor_units = sum; currency = w.currency }) now)
        amount later =
      record {
        same_currency = a.same_currency;
        positive = a.positive;
        range = a.range;
        timed = timed;
      } in
    let first : wrap64 (w.version +ℤ pos 1) ≡ w.version +ℤ pos 1 = version in
    let low : pos 1 ≤ℤ w.version +ℤ pos 1 = rw (← first) (valid.versioned) in
    let two_versions : wrap64 (wrap64 (w.version +ℤ pos 1) +ℤ pos 1) ≡ w.version +ℤ pos 1 +ℤ pos 1 =
      rw first (wrap64_id (w.version +ℤ pos 1 +ℤ pos 1) (omega (int_laws, low))) in
    elim (debit_cases valid movable) [
      | inl (short, f) ↦
          let below_amount : sum <ℤ amount.minor_units = short in
          absurd (omega (int_laws, nonneg, ap pos_part e, ap neg_part e))
      | inr (enough, f) ↦
          f
          ∙ ap (λ r. ok r)
              (restored w (sum -ℤ amount.minor_units)
                  (wrap64 (wrap64 (w.version +ℤ pos 1) +ℤ pos 1)) later c
                  (omega (int_laws, ap pos_part e, ap neg_part e))
                ∙ ap (stamped w later) two_versions)
    ]

-- A debit gives back what a credit added: the balance returns, and the version is two further on.
pub debit-credit :
    (w : Wallet) (amount : Money) (now later : Time) {w' : Wallet}
    → IsValid w
    → Movable w amount now
    → w.created_at ≤ now
    → later ≢ 0
    → w.version +ℤ pos 1 <ℤ max_int64
    → credit w amount now ≡ ok w'
    → debit w' amount later
      ≡ ok (record w { version = w.version +ℤ pos 1 +ℤ pos 1; updated_at = later })
debit-credit w amount now later v a ordered timed below h = elim (credit_cases v a) [
  | inr (wraps, e) ↦ let c = sym h ∙ e in cc
  | inl (fits, e) ↦
      let sum = w.balance.minor_units +ℤ amount.minor_units in
      let (valid, version) =
        with_balance-IsValid w sum now v ordered (omega int_laws)
          (omega (int_laws, v.nonnegative, a.positive)) fits.1 in
      rw (ok-injective (sym h ∙ e)) (
        debit_restores w sum amount now later v.same_currency v.nonnegative a timed valid version
          refl below)
]

credit_inv :
    (w : Wallet) (amount : Money) (now : Time) {w' : Wallet}
    → credit w amount now ≡ ok w'
    → (b : Money) × (w' ≡ with_balance w b now)
unfolding credit
credit_inv w amount now h =
    let (_, _, timed) = >>=-eq-ok (check_wallet w) _ h in
    let (_, _, moved) = >>=-eq-ok (reject_if (is_zero_time now) invalid_input) _ timed in
    let (_, _, signed) = >>=-eq-ok (validate_movement w.currency amount) _ moved in
    let (_, _, sum) = >>=-eq-ok (reject_if (not (is_positive amount)) invalid_input) _ signed in
    let (b, _, done) = >>=-eq-ok (map_err of_money (add w.balance amount)) _ sum in
    (b, sym (ok-injective done))

with_balance-version :
    (w : Wallet) (b : Money) (now : Time)
    → IsValid w
    → w.version <ℤ max_int64
    → pos 1 ≤ℤ wrap64 (w.version +ℤ pos 1)
with_balance-version w b now v below =
    rw (wrap64_id (w.version +ℤ pos 1) (omega (int_laws, v.versioned)))
      (omega (int_laws, v.versioned))

-- The clock of an instance that lags behind the creation of a wallet makes a wallet that no
-- instance can read back: a credit does not compare the instant with the wallet's.
pub credit_before_creation :
    (w : Wallet) (amount : Money) (now : Time) {w' : Wallet}
    → IsValid w
    → w.version <ℤ max_int64
    → now < w.created_at
    → credit w amount now ≡ ok w'
    → rehydrate_wallet w'.id w'.player_id w'.currency w'.balance w'.version w'.created_at
        w'.updated_at
      ≡ err invalid_input
unfolding rehydrate_wallet with_balance
credit_before_creation w amount now v below skew h =
    let (b, e) = credit_inv w amount now h in
    let positive = (with_balance-version w b now v below) in
    rw e (ground (arith, v.identified, v.owned, v.created, positive))
