-- ===== src/Postgres/Rows.antt =====
-- Rows and the entities that are rebuilt from them (internal/adapters/postgres: transactions.go,
-- wallets.go, ledger.go, claims.go; the columns are those of migrations/000001). A UUID column
-- holds the identity and gives its canonical text to the scan.
use backend_challenge_go_jun.Prelude.{ℕ, Option, none, some, Result, ok, ◌>>=◌, map_err}
use backend_challenge_go_jun.Prelude.Bytes.{Bytes}
use backend_challenge_go_jun.Prelude.Int.{ℤ}
use backend_challenge_go_jun.Money.{Money, no_money, from_minor_units}
use backend_challenge_go_jun.Financial.{Time, Origin, Kind, State, Direction, FailureCode}
use backend_challenge_go_jun.Financial.Identifiers.{Uuid, UuidText, parse_uuid_id}
use backend_challenge_go_jun.Financial.Wallet.{Wallet, rehydrate_wallet}
use backend_challenge_go_jun.Financial.Ledger.{WalletLedgerEntry, new_ledger_entry}
use backend_challenge_go_jun.Financial.Reversal.{ReversalClaim, new_reversal_claim}
use backend_challenge_go_jun.Financial.Wager.{WagerTransaction, rehydrate_transaction}
use backend_challenge_go_jun.Application.{AppError}
use backend_challenge_go_jun.Application.Ports.{ReferenceSchedule, TimeColumn}
use backend_challenge_go_jun.Postgres.{
  corrupt_row, corrupt_amount, deref_string, null_string, deref_failure, null_failure, null_uuid,
  null_money, deref_time, null_time,
}

pub record WalletRow : Type 0 where
  pub id : Uuid
  pub player_id : Uuid
  pub currency : Bytes
  pub balance : ℤ
  pub version : ℤ
  pub created_at : Time
  pub updated_at : Time

pub record TransactionRow : Type 0 where
  pub id : Uuid
  pub origin : Origin
  pub kind : Kind
  pub state : State
  pub provider_id : Option Bytes
  pub external_transaction_id : Option Bytes
  pub idempotency_key : Option Bytes
  pub digest_version : Option Bytes
  pub digest : Option Bytes
  pub wallet_id : Uuid
  pub player_id : Uuid
  pub round_id : Option Bytes
  pub game_id : Option Bytes
  pub amount : ℤ
  pub currency : Bytes
  pub reference_external_transaction_id : Option Bytes
  pub reference_transaction_id : Option Uuid
  pub failure_code : Option FailureCode
  pub observed_balance : Option ℤ
  pub reference_deadline : Option Time
  pub next_attempt_at : Option Time
  pub reference_attempts : ℕ
  pub claimed_until : Option Time
  pub created_at : Time
  pub updated_at : Time

pub record LedgerRow : Type 0 where
  pub id : Uuid
  pub wallet_id : Uuid
  pub transaction_id : Uuid
  pub direction : Direction
  pub amount : ℤ
  pub balance_before : ℤ
  pub balance_after : ℤ
  pub created_at : Time

-- A column of an instant that may be null.
abbrev pub kept_time : TimeColumn → Option Time → Option Time
kept_time column none = none
kept_time column (some t) = some (column.kept t)

-- The rows that the INSERT statements write; their columns keep what they can of an instant.
abbrev pub wallet_row : TimeColumn → Wallet → WalletRow
wallet_row column wallet = record {
  id = wallet.id;
  player_id = wallet.player_id;
  currency = wallet.currency;
  balance = wallet.balance.minor_units;
  version = wallet.version;
  created_at = column.kept wallet.created_at;
  updated_at = column.kept wallet.updated_at;
}

abbrev pub transaction_row : TimeColumn → WagerTransaction → TransactionRow
transaction_row column t = record {
  id = t.id;
  origin = t.origin;
  kind = t.kind;
  state = t.state;
  provider_id = null_string t.provider_id;
  external_transaction_id = null_string t.external_transaction_id;
  idempotency_key = null_string t.idempotency_key;
  digest_version = null_string t.digest_version;
  digest = null_string t.digest;
  wallet_id = t.wallet_id;
  player_id = t.player_id;
  round_id = null_string t.round_id;
  game_id = null_string t.game_id;
  amount = t.amount.minor_units;
  currency = t.amount.currency;
  reference_external_transaction_id = null_string t.reference_external_transaction_id;
  reference_transaction_id = null_uuid t.reference_transaction_id;
  failure_code = null_failure t.failure_code;
  observed_balance = null_money t.observed_balance;
  reference_deadline = kept_time column (null_time t.reference_deadline);
  next_attempt_at = none;
  reference_attempts = 0;
  claimed_until = none;
  created_at = column.kept t.created_at;
  updated_at = column.kept t.updated_at;
}

-- `schedule.NextAttemptAt` and `schedule.Attempts`, or null and 0.
abbrev pub schedule_at : Option ReferenceSchedule → Option Time
schedule_at none = none
schedule_at (some schedule) = some schedule.next_attempt_at

abbrev pub schedule_attempts : Option ReferenceSchedule → ℕ
schedule_attempts none = 0
schedule_attempts (some schedule) = schedule.attempts

-- What the UPDATE of a transaction makes of its row.
unfoldable pub update_row :
    TimeColumn → TransactionRow → WagerTransaction → Option ReferenceSchedule → TransactionRow
update_row column row t schedule = record row {
  state = t.state;
  failure_code = null_failure t.failure_code;
  observed_balance = null_money t.observed_balance;
  reference_transaction_id = null_uuid t.reference_transaction_id;
  reference_deadline = kept_time column (null_time t.reference_deadline);
  next_attempt_at = kept_time column (schedule_at schedule);
  reference_attempts = schedule_attempts schedule;
  claimed_until = none;
  updated_at = column.kept t.updated_at;
}

-- What RescheduleReference makes of it.
unfoldable pub reschedule_row :
    TimeColumn → TransactionRow → (now next_attempt_at : Time) → (attempts : ℕ) → TransactionRow
reschedule_row column row now next_attempt_at attempts = record row {
  next_attempt_at = some (column.kept next_attempt_at);
  reference_attempts = attempts;
  claimed_until = none;
  updated_at = column.kept now;
}

abbrev pub ledger_row : TimeColumn → WalletLedgerEntry → LedgerRow
ledger_row column entry = record {
  id = entry.id;
  wallet_id = entry.wallet_id;
  transaction_id = entry.transaction_id;
  direction = entry.direction;
  amount = entry.amount.minor_units;
  balance_before = entry.balance_before.minor_units;
  balance_after = entry.balance_after.minor_units;
  created_at = column.kept entry.created_at;
}

-- `row.referenceTransactionID != nil` and `row.observedBalance != nil`
unfoldable pub reference_column : UuidText → Option Uuid → Result AppError Uuid
reference_column text none = ok 0
reference_column text (some id) = map_err corrupt_row (parse_uuid_id text (text.uuid_string id))

unfoldable pub observed_column : Option ℤ → Bytes → Result AppError Money
observed_column none currency = ok no_money
observed_column (some minor_units) currency =
    map_err corrupt_amount (from_minor_units minor_units currency)

-- The parameters of RehydrateTransaction.
abbrev pub transaction_params :
    TransactionRow
    → (id wallet_id player_id reference_transaction_id : Uuid) (amount observed_balance : Money)
    → WagerTransaction
transaction_params row id wallet_id player_id reference_transaction_id amount observed_balance =
    record {
      id = id;
      origin = row.origin;
      kind = row.kind;
      provider_id = deref_string row.provider_id;
      external_transaction_id = deref_string row.external_transaction_id;
      idempotency_key = deref_string row.idempotency_key;
      digest_version = deref_string row.digest_version;
      digest = deref_string row.digest;
      wallet_id = wallet_id;
      player_id = player_id;
      round_id = deref_string row.round_id;
      game_id = deref_string row.game_id;
      amount = amount;
      reference_external_transaction_id = deref_string row.reference_external_transaction_id;
      reference_transaction_id = reference_transaction_id;
      state = row.state;
      failure_code = deref_failure row.failure_code;
      observed_balance = observed_balance;
      reference_deadline = deref_time row.reference_deadline;
      created_at = row.created_at;
      updated_at = row.updated_at;
    }

-- `rehydrateTransaction`
unfoldable pub rehydrate_transaction_row :
    UuidText → TransactionRow → Result AppError WagerTransaction
unfolding reference_column observed_column
rehydrate_transaction_row text row = do
  id ← map_err corrupt_row (parse_uuid_id text (text.uuid_string row.id))
  wallet_id ← map_err corrupt_row (parse_uuid_id text (text.uuid_string row.wallet_id))
  player_id ← map_err corrupt_row (parse_uuid_id text (text.uuid_string row.player_id))
  amount ← map_err corrupt_amount (from_minor_units row.amount row.currency)
  reference_id ← reference_column text row.reference_transaction_id
  observed ← observed_column row.observed_balance row.currency
  map_err corrupt_row (
      rehydrate_transaction
        (transaction_params row id wallet_id player_id reference_id amount observed))

-- `rehydrateWallet`
unfoldable pub rehydrate_wallet_row : UuidText → WalletRow → Result AppError Wallet
rehydrate_wallet_row text row = do
  id ← map_err corrupt_row (parse_uuid_id text (text.uuid_string row.id))
  player_id ← map_err corrupt_row (parse_uuid_id text (text.uuid_string row.player_id))
  balance ← map_err corrupt_amount (from_minor_units row.balance row.currency)
  map_err corrupt_row
      (rehydrate_wallet id player_id row.currency balance row.version row.created_at row.updated_at)

-- `rehydrateLedgerEntry`; the currency is the wallet's.
unfoldable pub rehydrate_ledger_row :
    UuidText → Bytes → LedgerRow → Result AppError WalletLedgerEntry
rehydrate_ledger_row text currency row = do
  id ← map_err corrupt_row (parse_uuid_id text (text.uuid_string row.id))
  wallet_id ← map_err corrupt_row (parse_uuid_id text (text.uuid_string row.wallet_id))
  transaction_id ← map_err corrupt_row (parse_uuid_id text (text.uuid_string row.transaction_id))
  amount ← map_err corrupt_amount (from_minor_units row.amount currency)
  before ← map_err corrupt_amount (from_minor_units row.balance_before currency)
  after ← map_err corrupt_amount (from_minor_units row.balance_after currency)
  map_err corrupt_row (
      new_ledger_entry (record {
        id = id;
        wallet_id = wallet_id;
        transaction_id = transaction_id;
        direction = row.direction;
        amount = amount;
        balance_before = before;
        balance_after = after;
        created_at = row.created_at;
      }))

-- The row of a claim has the fields of the claim.
unfoldable pub rehydrate_claim_row : UuidText → ReversalClaim → Result AppError ReversalClaim
rehydrate_claim_row text row = do
  id ← map_err corrupt_row (parse_uuid_id text (text.uuid_string row.id))
  reference ←
      map_err corrupt_row (parse_uuid_id text (text.uuid_string row.reference_transaction_id))
  reversal ← map_err corrupt_row (parse_uuid_id text (text.uuid_string row.reversal_transaction_id))
  map_err corrupt_row (new_reversal_claim id reference reversal row.created_at)
