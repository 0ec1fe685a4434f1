-- ===== src/Application/Service.antt =====
-- The use cases (internal/application/service.go). The body of a transaction takes the state of
-- the store and returns the state that it leaves, or an error; `in_tx` is the atomicity of it.
pub mod Execution
pub mod Submission
pub mod Recovery
pub mod Deadlines
pub mod Queries
pub mod Answers
pub mod Inbox
pub mod Frames
pub mod Replay
pub mod Movements
pub mod Memory
pub mod MemoryInbox
mod Tests
use backend_challenge_go_jun.Prelude.{
  ℕ, Bool, true, false, Option, none, some, [], Result, ok, err, ◌>>=◌, ◌>>◌, map_err,
}
use backend_challenge_go_jun.Prelude.Bytes.{Bytes}
use backend_challenge_go_jun.Money.{Money}
use backend_challenge_go_jun.Financial.{
  Time, Origin, Kind, State, Direction, FailureCode, FinancialError,
}
use backend_challenge_go_jun.Financial.Identifiers.{Uuid}
use backend_challenge_go_jun.Financial.Wallet.{Wallet}
use backend_challenge_go_jun.Financial.Wager.{WagerTransaction}
use backend_challenge_go_jun.Event.{
  Metadata, Data, EventError, new_envelope, wager_transaction_processed, wager_transaction_rejected,
  wallet_balance_changed, wager_transaction_pending_reference,
}
use backend_challenge_go_jun.Application.{AppError, driver, of_financial, wrap_invariant}
use backend_challenge_go_jun.Application.Resolve.{Movement}
use backend_challenge_go_jun.Application.Ports.{Repositories, Surroundings}

pub record WagerResult : Type 0 where
  pub transaction_id : Uuid
  pub origin : Origin
  pub kind : Kind
  pub provider_id : Bytes
  pub external_id : Bytes
  pub wallet_id : Uuid
  pub player_id : Uuid
  pub round_id : Bytes
  pub game_id : Bytes
  pub amount : Money
  pub reference_external : Bytes
  pub state : State
  pub observed_balance : Money
  pub failure_code : FailureCode
  pub reference_deadline : Time
  pub idempotent_replay : Bool
  pub created_at : Time
  pub updated_at : Time

abbrev pub result_of : WagerTransaction → Bool → WagerResult
result_of txn replay = record {
  transaction_id = txn.id;
  origin = txn.origin;
  kind = txn.kind;
  provider_id = txn.provider_id;
  external_id = txn.external_transaction_id;
  wallet_id = txn.wallet_id;
  player_id = txn.player_id;
  round_id = txn.round_id;
  game_id = txn.game_id;
  amount = txn.amount;
  reference_external = txn.reference_external_transaction_id;
  state = txn.state;
  observed_balance = txn.observed_balance;
  failure_code = txn.failure_code;
  reference_deadline = txn.reference_deadline;
  idempotent_replay = replay;
  created_at = txn.created_at;
  updated_at = txn.updated_at;
}

-- `wrapInvariant(err)` of an error of the domain and of the event package.
abbrev pub fault : FinancialError → AppError
fault e = wrap_invariant (of_financial e)

abbrev pub event_fault : EventError → AppError
event_fault e = wrap_invariant driver

abbrev pub metadata_of : Surroundings → (event_id aggregate_id : Bytes) → Metadata
metadata_of around event_id aggregate_id = record {
  event_id = event_id;
  aggregate_id = aggregate_id;
  correlation_id = around.correlation;
  causation_id = [];
  occurred_at = around.now;
}

module _ {S : Type 0} (repos : Repositories S) (around : Surroundings) where
  unfoldable pub emit : Bytes → Uuid → Data → S → Result AppError S
  emit event_id aggregate content s = do
    envelope ←
        map_err event_fault
          (new_envelope (metadata_of around event_id (around.uuid_string aggregate)) content)
    repos.insert_event envelope around.now s

  unfoldable pub emit_processed : Wallet → WagerTransaction → Money → S → Result AppError S
  unfolding emit
  emit_processed wallet txn balance s =
      emit around.first_event_id wallet.id
        (wager_transaction_processed (record {
          transaction_id = txn.id;
          origin = txn.origin;
          provider_id = txn.provider_id;
          external_transaction_id = txn.external_transaction_id;
          wallet_id = wallet.id;
          player_id = wallet.player_id;
          round_id = txn.round_id;
          game_id = txn.game_id;
          kind = txn.kind;
          money = txn.amount;
          balance = balance;
        }))
        s

  unfoldable pub emit_rejected : Wallet → WagerTransaction → S → Result AppError S
  unfolding emit
  emit_rejected wallet txn s =
      emit around.first_event_id wallet.id
        (wager_transaction_rejected (record {
          transaction_id = txn.id;
          provider_id = txn.provider_id;
          external_transaction_id = txn.external_transaction_id;
          wallet_id = wallet.id;
          kind = txn.kind;
          money = txn.amount;
          failure_code = txn.failure_code;
          balance = txn.observed_balance;
          reference_external_transaction_id = txn.reference_external_transaction_id;
        }))
        s

  unfoldable pub emit_pending_reference : WagerTransaction → S → Result AppError S
  unfolding emit
  emit_pending_reference txn s =
      emit around.first_event_id txn.wallet_id
        (wager_transaction_pending_reference (record {
          transaction_id = txn.id;
          provider_id = txn.provider_id;
          external_transaction_id = txn.external_transaction_id;
          wallet_id = txn.wallet_id;
          kind = txn.kind;
          money = txn.amount;
          reference_external_transaction_id = txn.reference_external_transaction_id;
          expires_at = txn.reference_deadline;
        }))
        s

  unfoldable pub emit_balance_changed :
      Wallet
      → WagerTransaction
      → Movement
      → (balance_before balance_after : Money) → S
      → Result AppError S
  unfolding emit
  emit_balance_changed wallet txn move balance_before balance_after s =
      emit around.second_event_id wallet.id
        (wallet_balance_changed (record {
          wallet_id = wallet.id;
          transaction_id = txn.id;
          direction = move.direction;
          money = move.amount;
          balance_before = balance_before;
          balance_after = balance_after;
          wallet_version = wallet.version;
        }))
        s
