-- ===== src/Postgres/Updates.antt =====
-- An updated transaction is read back
-- (internal/adapters/postgres/transactions.go: Insert, Update, RescheduleReference).
use backend_challenge_go_jun.Prelude.{ℕ, ◌≢◌, ◌≡◌, ◌∙◌, refl, sym, ap, true, Option, none, some, ok}
use backend_challenge_go_jun.Money.{currency_pattern}
use backend_challenge_go_jun.Financial.{Time}
use backend_challenge_go_jun.Financial.Identifiers.{UuidText}
use backend_challenge_go_jun.Financial.Wager.{WagerTransaction, rehydrate_transaction}
use backend_challenge_go_jun.Financial.Wager.Lifecycle.{Operation, operation_of}
use backend_challenge_go_jun.Application.Ports.{ReferenceSchedule, TimeColumn, as_stored}
use backend_challenge_go_jun.Postgres.{null_string, null_failure, null_uuid, null_money, null_time}
use backend_challenge_go_jun.Postgres.Rows.{
  kept_time, TransactionRow, transaction_row, rehydrate_transaction_row, update_row, reschedule_row,
  schedule_at, schedule_attempts,
}
use backend_challenge_go_jun.Postgres.RoundTrip.{
  Observed, rehydrate_transaction_row-transaction_row,
}

-- The columns of the recovery schedule, over the others.
abbrev pub scheduled :
    TransactionRow
    → (next_attempt_at : Option Time) (attempts : ℕ) (claimed_until : Option Time) → TransactionRow
scheduled row next attempts claimed = record row {
  next_attempt_at = next;
  reference_attempts = attempts;
  claimed_until = claimed;
}

-- A row that holds the transaction, with some schedule.
pub record Stores (column : TimeColumn) (row : TransactionRow) (t : WagerTransaction) : Type 0 where
  pub next_attempt_at : Option Time
  pub attempts : ℕ
  pub claimed_until : Option Time
  pub columns : row ≡ scheduled (transaction_row column t) next_attempt_at attempts claimed_until

-- The row with the columns of an operation, and the others of a transaction.
abbrev operation_row :
    TimeColumn → WagerTransaction → (next : Option Time) (attempts : ℕ) → Operation → TransactionRow
operation_row column u next attempts o = record {
  id = o.id;
  origin = o.origin;
  kind = o.kind;
  state = u.state;
  provider_id = null_string o.provider_id;
  external_transaction_id = null_string o.external_transaction_id;
  idempotency_key = null_string o.idempotency_key;
  digest_version = null_string o.digest_version;
  digest = null_string o.digest;
  wallet_id = o.wallet_id;
  player_id = o.player_id;
  round_id = null_string o.round_id;
  game_id = null_string o.game_id;
  amount = o.amount.minor_units;
  currency = o.amount.currency;
  reference_external_transaction_id = null_string o.reference_external_transaction_id;
  reference_transaction_id = null_uuid u.reference_transaction_id;
  failure_code = null_failure u.failure_code;
  observed_balance = null_money u.observed_balance;
  reference_deadline = kept_time column (null_time u.reference_deadline);
  next_attempt_at = next;
  reference_attempts = attempts;
  claimed_until = none;
  created_at = column.kept o.created_at;
  updated_at = column.kept u.updated_at;
}

pub transaction_row-Stores :
    (column : TimeColumn) (t : WagerTransaction) → Stores column (transaction_row column t) t
transaction_row-Stores column t = record {
  next_attempt_at = none;
  attempts = 0;
  claimed_until = none;
  columns = refl;
}

-- Writing a transaction over a row of the same operation stores it.
pub update_row-Stores :
    {column : TimeColumn} {row : TransactionRow} {t : WagerTransaction} (u : WagerTransaction)
    (schedule : Option ReferenceSchedule)
    → Stores column row t
    → operation_of u ≡ operation_of t
    → Stores column (update_row column row u schedule) u
unfolding update_row
update_row-Stores {column} u schedule stored same = record {
  next_attempt_at = kept_time column (schedule_at schedule);
  attempts = schedule_attempts schedule;
  claimed_until = none;
  columns =
      ap (λ r. update_row column r u schedule) stored.columns
      ∙ ap
          (operation_row column u (kept_time column (schedule_at schedule))
            (schedule_attempts schedule))
          (sym same);
}

pub reschedule_row-Stores :
    {column : TimeColumn} {row : TransactionRow} {t : WagerTransaction} (now next_attempt_at : Time)
    (attempts : ℕ)
    → Stores column row t
    → Stores column
        (reschedule_row column row now next_attempt_at attempts)
        (record t { updated_at = now })
unfolding reschedule_row
reschedule_row-Stores {column} now next attempts stored = record {
  next_attempt_at = some (column.kept next);
  attempts = attempts;
  claimed_until = none;
  columns = ap (λ r. reschedule_row column r now next attempts) stored.columns;
}

-- The schedule plays no part in what is read.
pub Stores-read :
    (text : UuidText) {column : TimeColumn} {row : TransactionRow} {t : WagerTransaction}
    → Stores column row t
    → rehydrate_transaction_row text row ≡ rehydrate_transaction_row text (transaction_row column t)
unfolding rehydrate_transaction_row
Stores-read text {column} stored = ap (λ r. rehydrate_transaction_row text r) stored.columns

-- Over a row that holds an earlier state of the same operation, a transaction that
-- RehydrateTransaction accepts, with a documented currency, with no observed balance or one in the
-- same currency, and with a creation that its column does not lose, is read back after it was
-- written, whatever the schedule, with the instants that the columns keep.
pub rehydrate_transaction_row-update_row :
    (text : UuidText) {column : TimeColumn} {row : TransactionRow} {t : WagerTransaction}
    (u : WagerTransaction) (schedule : Option ReferenceSchedule)
    → Stores column row t
    → operation_of u ≡ operation_of t
    → rehydrate_transaction u ≡ ok u
    → currency_pattern u.amount.currency ≡ true
    → Observed u.observed_balance u.amount
    → column.kept u.created_at ≢ 0
    → rehydrate_transaction_row text (update_row column row u schedule) ≡ ok (as_stored column u)
rehydrate_transaction_row-update_row text {column} u schedule stored same r p o set =
    Stores-read text (update_row-Stores u schedule stored same)
    ∙ rehydrate_transaction_row-transaction_row text column u r p o set
