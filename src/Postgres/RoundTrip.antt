-- ===== src/Postgres/RoundTrip.antt =====
-- A stored transaction is read back (internal/adapters/postgres/transactions.go: Insert and
-- rehydrateTransaction).
use backend_challenge_go_jun.Prelude.{
  false, not, ◌&&◌, ltb, ◌||◌, ◌≤◌, reject_if-eq-ok, >>=-eq-ok, ◌≢◌, ◌≡◌, ◌⊎◌, ◌∙◌, refl, sym, ap,
  arith, true, ok, map_err, [], ◌∷◌, inl, inr, Bool-cases, ==_iff,
}
use backend_challenge_go_jun.Prelude.Bytes.{Bytes}
use backend_challenge_go_jun.Money.{
  Money, no_money, is_initialized, currency_pattern, from_minor_units,
}
use backend_challenge_go_jun.Financial.{
  invalid_input, uninitialized, origin_valid, kind_valid, state_valid, is_no_failure, failure_valid,
  Time, is_zero_time, FailureCode,
}
use backend_challenge_go_jun.Financial.Identifiers.{Uuid, UuidText, is_nil, parse_uuid_id}
use backend_challenge_go_jun.Financial.Wager.{
  WagerTransaction, rehydrate_transaction, check_origin_metadata,
}
use backend_challenge_go_jun.Application.Ports.{TimeColumn, as_stored}
use backend_challenge_go_jun.Postgres.{
  deref_string, null_string, deref_failure, null_failure, null_uuid, null_money, deref_time,
  null_time, corrupt_row, corrupt_amount,
}
use backend_challenge_go_jun.Postgres.Rows.{
  kept_time, transaction_row, transaction_params, reference_column, observed_column,
  rehydrate_transaction_row,
}

string_kept : (s : Bytes) → deref_string (null_string s) ≡ s
string_kept [] = refl
string_kept (c ∷ s) = refl

failure_kept : (code : FailureCode) → deref_failure (null_failure code) ≡ code
failure_kept FailureCode.insufficient_funds = refl
failure_kept FailureCode.reversal_insufficient_funds = refl
failure_kept FailureCode.reference_not_found = refl
failure_kept FailureCode.reference_not_processed = refl
failure_kept FailureCode.reference_mismatch = refl
failure_kept FailureCode.reversal_amount_mismatch = refl
failure_kept FailureCode.reference_kind_not_allowed = refl
failure_kept FailureCode.invalid_win_reference = refl
failure_kept FailureCode.already_reversed = refl
failure_kept FailureCode.permanent_infrastructure = refl
failure_kept (FailureCode.other []) = refl
failure_kept (FailureCode.other (c ∷ s)) = refl

time_kept :
    (column : TimeColumn) (t : Time) → deref_time (kept_time column (null_time t)) ≡ column.kept t
time_kept column t = elim (Bool-cases (is_zero_time t)) [
  | inl b ↦
      let zero : t ≡ 0 = (==_iff t 0).0 b in rw b (sym (ap column.kept zero ∙ column.kept_zero))
  | inr b ↦ rw b refl
]

parse_own :
    (text : UuidText) (id : Uuid)
    → map_err corrupt_row (parse_uuid_id text (text.uuid_string id)) ≡ ok id
unfolding parse_uuid_id
parse_own text id = rw (text.parse-string id) refl

reference_kept : (text : UuidText) (id : Uuid) → reference_column text (null_uuid id) ≡ ok id
unfolding reference_column
reference_kept text id = elim (Bool-cases (is_nil id)) [
  | inl b ↦ rw b (ap ok (sym ((==_iff id 0).0 b)))
  | inr b ↦ rw b (parse_own text id)
]

money_kept :
    (m : Money)
    → currency_pattern m.currency ≡ true
    → map_err corrupt_amount (from_minor_units m.minor_units m.currency) ≡ ok m
unfolding from_minor_units
money_kept m p = rw p refl

-- No balance was observed, or one in the currency of the amount.
abbrev pub Observed : (observed amount : Money) → Type 0
Observed observed amount =
    (observed ≡ no_money)
    ⊎ ((is_initialized observed ≡ true) × (observed.currency ≡ amount.currency))

observed_column-null_money :
    (m amount : Money)
    → currency_pattern amount.currency ≡ true
    → Observed m amount
    → observed_column (null_money m) amount.currency ≡ ok m
unfolding observed_column
observed_column-null_money m amount p (inl n) = rw n refl
observed_column-null_money m amount p (inr (set, same)) =
    rw (set, ← same) (money_kept m (ap currency_pattern same ∙ p))

params_kept :
    (column : TimeColumn) (t : WagerTransaction)
    → transaction_params
        (transaction_row column t)
        t.id
        t.wallet_id
        t.player_id
        t.reference_transaction_id
        t.amount
        t.observed_balance
      ≡ as_stored column t
params_kept column t =
    rw
      (
        string_kept t.provider_id,
        string_kept t.external_transaction_id,
        string_kept t.idempotency_key,
        string_kept t.digest_version,
        string_kept t.digest,
        string_kept t.round_id,
        string_kept t.game_id,
        string_kept t.reference_external_transaction_id,
        failure_kept t.failure_code,
        time_kept column t.reference_deadline,
      )
      refl

-- The checks of the origin do not look at the instants.
origin_kept :
    (column : TimeColumn) (t : WagerTransaction)
    → check_origin_metadata (as_stored column t) ≡ check_origin_metadata t
unfolding check_origin_metadata
origin_kept column t = refl

-- Instants that are set and in order stay so, if the creation is not lost.
instants_kept :
    (column : TimeColumn) (created updated : Time)
    → (ltb updated created) ≡ false
    → column.kept created ≢ 0
    → ((is_zero_time (column.kept created) || is_zero_time (column.kept updated)) ≡ false)
      × (ltb (column.kept updated) (column.kept created) ≡ false)
instants_kept column created updated ordered set =
    let below : created ≤ updated = ground arith in
    let later = column.kept_ordered created updated below in (ground arith, ground arith)

-- What RehydrateTransaction accepts, it accepts with the instants of the columns, unless these lose
-- the creation altogether.
rehydrate-as_stored :
    (column : TimeColumn) (t : WagerTransaction)
    → rehydrate_transaction t ≡ ok t
    → column.kept t.created_at ≢ 0
    → rehydrate_transaction (as_stored column t) ≡ ok (as_stored column t)
unfolding rehydrate_transaction
rehydrate-as_stored column t r set =
    let (ids, r) =
      reject_if-eq-ok (is_nil t.id || is_nil t.wallet_id || is_nil t.player_id) invalid_input _ r in
    let (names, r) =
      reject_if-eq-ok
        (not (origin_valid t.origin) || not (kind_valid t.kind) || not (state_valid t.state))
        invalid_input _ r in
    let (amount, r) = reject_if-eq-ok (not (is_initialized t.amount)) uninitialized _ r in
    let (_, r) =
      reject_if-eq-ok (is_zero_time t.created_at || is_zero_time t.updated_at) invalid_input _ r in
    let (ordered, r) = reject_if-eq-ok (ltb t.updated_at t.created_at) invalid_input _ r in
    let (failure, r) =
      reject_if-eq-ok (not (is_no_failure t.failure_code) && not (failure_valid t.failure_code))
        invalid_input _ r in
    let (_, origin, _) = >>=-eq-ok (check_origin_metadata t) _ r in
    let (present, later) = instants_kept column t.created_at t.updated_at ordered set in
    rw (ids, names, amount, present, later, failure, origin_kept column t, origin) refl

-- A transaction that RehydrateTransaction accepts, with a documented currency, with no observed
-- balance or one in the same currency, and with a creation that its column does not lose, is read
-- back from the row that its insertion writes, with the instants that the columns keep.
pub rehydrate_transaction_row-transaction_row :
    (text : UuidText) (column : TimeColumn) (t : WagerTransaction)
    → rehydrate_transaction t ≡ ok t
    → currency_pattern t.amount.currency ≡ true
    → Observed t.observed_balance t.amount
    → column.kept t.created_at ≢ 0
    → rehydrate_transaction_row text (transaction_row column t) ≡ ok (as_stored column t)
unfolding rehydrate_transaction_row
rehydrate_transaction_row-transaction_row text column t r p o set =
    rw
      (
        parse_own text t.id,
        parse_own text t.wallet_id,
        parse_own text t.player_id,
        money_kept t.amount p,
        reference_kept text t.reference_transaction_id,
        observed_column-null_money t.observed_balance t.amount p o,
        params_kept column t,
        rehydrate-as_stored column t r set,
      )
      refl
