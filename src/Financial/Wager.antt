-- ===== src/Financial/Wager.antt =====
-- The wager transaction and its state machine (internal/domain/financial/wager.go). A method with
-- a value receiver returns the new transaction. `RehydrateTransactionParams` has the fields of the
-- transaction itself, so rehydration takes a transaction.
pub mod Transitions
pub mod States
pub mod Lifecycle
pub mod Rehydration
mod Tests
use backend_challenge_go_jun.Prelude.{
  Bool, true, false, not, ◌&&◌, ◌||◌, ltb, leb, if◌then◌else◌, [], Result, ok, err, ◌>>=◌, ◌>>◌,
  reject_if,
}
use backend_challenge_go_jun.Prelude.Bytes.{Bytes, is_empty}
use backend_challenge_go_jun.Money.{
  Money, no_money, is_initialized, is_negative, is_positive, is_zero,
}
use backend_challenge_go_jun.Financial.{
  Time, is_zero_time, Origin, origin_valid, is_external_origin, Kind, kind_valid, is_external,
  is_opening, State, state_valid, FailureCode, no_failure, is_no_failure, failure_valid,
  is_permanent, FinancialError, invalid_input, uninitialized, invalid_transition,
}
use backend_challenge_go_jun.Financial.Identifiers.{Uuid, is_nil}

pub record WagerTransaction : Type 0 where
  pub id : Uuid
  pub origin : Origin
  pub kind : Kind
  pub provider_id : Bytes
  pub external_transaction_id : Bytes
  pub idempotency_key : Bytes
  pub digest_version : Bytes
  pub digest : Bytes
  pub wallet_id : Uuid
  pub player_id : Uuid
  pub round_id : Bytes
  pub game_id : Bytes
  pub amount : Money
  pub reference_external_transaction_id : Bytes
  pub reference_transaction_id : Uuid
  pub state : State
  pub failure_code : FailureCode
  pub observed_balance : Money
  pub reference_deadline : Time
  pub created_at : Time
  pub updated_at : Time

pub record NewExternalTransactionParams : Type 0 where
  pub id : Uuid
  pub provider_id : Bytes
  pub external_transaction_id : Bytes
  pub idempotency_key : Bytes
  pub digest_version : Bytes
  pub digest : Bytes
  pub wallet_id : Uuid
  pub player_id : Uuid
  pub round_id : Bytes
  pub game_id : Bytes
  pub kind : Kind
  pub amount : Money
  pub reference_external_id : Bytes
  pub now : Time

-- The two `switch` statements on the kind.
unfoldable pub check_kind_amount : Kind → Money → Bytes → Result FinancialError (Unit {0})
check_kind_amount Kind.loss amount reference = reject_if (not (is_zero amount)) invalid_input
check_kind_amount Kind.bet amount reference = do
  reject_if (not (is_positive amount)) invalid_input
  reject_if (not (is_empty reference)) invalid_input
check_kind_amount _ amount reference = reject_if (not (is_positive amount)) invalid_input

unfoldable pub check_kind_reference : Kind → Bytes → Result FinancialError (Unit {0})
check_kind_reference Kind.refund reference = reject_if (is_empty reference) invalid_input
check_kind_reference Kind.rollback reference = reject_if (is_empty reference) invalid_input
check_kind_reference _ reference = ok tt

-- The transaction that NewExternalTransaction builds.
abbrev pub external_transaction : NewExternalTransactionParams → WagerTransaction
external_transaction p = record {
  id = p.id;
  origin = Origin.external;
  kind = p.kind;
  provider_id = p.provider_id;
  external_transaction_id = p.external_transaction_id;
  idempotency_key = p.idempotency_key;
  digest_version = p.digest_version;
  digest = p.digest;
  wallet_id = p.wallet_id;
  player_id = p.player_id;
  round_id = p.round_id;
  game_id = p.game_id;
  amount = p.amount;
  reference_external_transaction_id = p.reference_external_id;
  reference_transaction_id = 0;
  state = State.pending;
  failure_code = no_failure;
  observed_balance = no_money;
  reference_deadline = 0;
  created_at = p.now;
  updated_at = p.now;
}

unfoldable pub new_external_transaction :
    NewExternalTransactionParams → Result FinancialError WagerTransaction
unfolding check_kind_amount check_kind_reference
new_external_transaction p = do
  reject_if (is_nil p.id || is_nil p.wallet_id || is_nil p.player_id) invalid_input
  reject_if
      (is_empty p.provider_id
        || is_empty p.external_transaction_id
        || is_empty p.round_id
        || is_empty p.game_id)
      invalid_input
  reject_if (is_empty p.idempotency_key || is_empty p.digest_version || is_empty p.digest)
      invalid_input
  reject_if (not (kind_valid p.kind) || not (is_external p.kind)) invalid_input
  reject_if (not (is_initialized p.amount)) uninitialized
  reject_if (is_zero_time p.now) invalid_input
  check_kind_amount p.kind p.amount p.reference_external_id
  check_kind_reference p.kind p.reference_external_id
  ok (external_transaction p)

pub record InternalOpeningParams : Type 0 where
  pub id : Uuid
  pub wallet_id : Uuid
  pub player_id : Uuid
  pub amount : Money
  pub now : Time

unfoldable pub new_internal_opening : InternalOpeningParams → Result FinancialError WagerTransaction
new_internal_opening p = do
  reject_if (is_nil p.id || is_nil p.wallet_id || is_nil p.player_id) invalid_input
  reject_if (not (is_initialized p.amount) || not (is_positive p.amount)) invalid_input
  reject_if (is_zero_time p.now) invalid_input
  ok (record {
    id = p.id;
    origin = Origin.internal;
    kind = Kind.opening;
    provider_id = [];
    external_transaction_id = [];
    idempotency_key = [];
    digest_version = [];
    digest = [];
    wallet_id = p.wallet_id;
    player_id = p.player_id;
    round_id = [];
    game_id = [];
    amount = p.amount;
    reference_external_transaction_id = [];
    reference_transaction_id = 0;
    state = State.pending;
    failure_code = no_failure;
    observed_balance = no_money;
    reference_deadline = 0;
    created_at = p.now;
    updated_at = p.now;
  })

-- The branch on the origin in `RehydrateTransaction`.
unfoldable pub check_origin_metadata : WagerTransaction → Result FinancialError (Unit {0})
check_origin_metadata p =
    if is_external_origin p.origin
    then (do
      reject_if
          (is_empty p.provider_id
            || is_empty p.external_transaction_id
            || is_empty p.idempotency_key
            || is_empty p.digest_version
            || is_empty p.digest)
          invalid_input
      reject_if (not (is_external p.kind)) invalid_input
      reject_if (is_empty p.round_id || is_empty p.game_id) invalid_input)
    else (do
      reject_if (not (is_opening p.kind)) invalid_input
      reject_if
          (not (is_empty p.provider_id)
            || not (is_empty p.external_transaction_id)
            || not (is_empty p.idempotency_key)
            || not (is_empty p.digest_version)
            || not (is_empty p.digest)
            || not (is_empty p.round_id)
            || not (is_empty p.game_id)
            || not (is_empty p.reference_external_transaction_id))
          invalid_input)

unfoldable pub rehydrate_transaction : WagerTransaction → Result FinancialError WagerTransaction
rehydrate_transaction p = do
  reject_if (is_nil p.id || is_nil p.wallet_id || is_nil p.player_id) invalid_input
  reject_if (not (origin_valid p.origin) || not (kind_valid p.kind) || not (state_valid p.state))
      invalid_input
  reject_if (not (is_initialized p.amount)) uninitialized
  reject_if (is_zero_time p.created_at || is_zero_time p.updated_at) invalid_input
  reject_if (ltb p.updated_at p.created_at) invalid_input
  reject_if (not (is_no_failure p.failure_code) && not (failure_valid p.failure_code)) invalid_input
  check_origin_metadata p
  ok p
