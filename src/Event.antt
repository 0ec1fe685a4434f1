-- ===== src/Event.antt =====
-- Integration events (internal/domain/event/event.go). The members of the data hold the values
-- whose texts the JSON has.
use backend_challenge_go_jun.Prelude.{ℕ, Result, ok, ◌>>◌, reject_if}
use backend_challenge_go_jun.Prelude.Bytes.{Bytes, is_empty}
use backend_challenge_go_jun.Prelude.Int.{ℤ}
use backend_challenge_go_jun.Money.{Money}
use backend_challenge_go_jun.Financial.{Time, is_zero_time, Origin, Kind, Direction, FailureCode}
use backend_challenge_go_jun.Financial.Identifiers.{Uuid}

pub record ProcessedData : Type 0 where
  pub transaction_id : Uuid
  pub origin : Origin
  pub provider_id : Bytes
  pub external_transaction_id : Bytes
  pub wallet_id : Uuid
  pub player_id : Uuid
  pub round_id : Bytes
  pub game_id : Bytes
  pub kind : Kind
  pub money : Money
  pub balance : Money

pub record RejectedData : Type 0 where
  pub transaction_id : Uuid
  pub provider_id : Bytes
  pub external_transaction_id : Bytes
  pub wallet_id : Uuid
  pub kind : Kind
  pub money : Money
  pub failure_code : FailureCode
  pub balance : Money
  pub reference_external_transaction_id : Bytes

pub record BalanceChangedData : Type 0 where
  pub wallet_id : Uuid
  pub transaction_id : Uuid
  pub direction : Direction
  pub money : Money
  pub balance_before : Money
  pub balance_after : Money
  pub wallet_version : ℤ

pub record PendingReferenceData : Type 0 where
  pub transaction_id : Uuid
  pub provider_id : Bytes
  pub external_transaction_id : Bytes
  pub wallet_id : Uuid
  pub kind : Kind
  pub money : Money
  pub reference_external_transaction_id : Bytes
  pub expires_at : Time

-- The event type and its data.
pub data Data : Type 0 where
  wager_transaction_processed : ProcessedData → Data
  wager_transaction_rejected : RejectedData → Data
  wallet_balance_changed : BalanceChangedData → Data
  wager_transaction_pending_reference : PendingReferenceData → Data

pub record Metadata : Type 0 where
  pub event_id : Bytes
  pub aggregate_id : Bytes
  pub correlation_id : Bytes
  pub causation_id : Bytes
  pub occurred_at : Time

pub record Envelope : Type 0 where
  pub metadata : Metadata
  pub version : ℕ
  pub content : Data

-- The package has one plain error.
pub data EventError : Type 0 where
  invalid_metadata : EventError

unfoldable pub validate_metadata : Metadata → Result EventError (Unit {0})
validate_metadata m = do
  reject_if (is_empty m.event_id) invalid_metadata
  reject_if (is_empty m.aggregate_id) invalid_metadata
  reject_if (is_empty m.correlation_id) invalid_metadata
  reject_if (is_zero_time m.occurred_at) invalid_metadata

-- The four constructors, by their data.
unfoldable pub new_envelope : Metadata → Data → Result EventError Envelope
unfolding validate_metadata
new_envelope meta content = do
  validate_metadata meta
  ok (record { metadata = meta; version = 1; content = content })
