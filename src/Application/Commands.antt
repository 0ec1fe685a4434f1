-- ===== src/Application/Commands.antt =====
-- Commands and their contract checks (internal/application/commands.go).
use backend_challenge_go_jun.Prelude.{
  ◌≡◌, refl, false, not, ◌||◌, ◌==◌, arith, Result, ok, ◌>>◌, reject_if, reject_if-eq-ok, length,
}
use backend_challenge_go_jun.Prelude.Bytes.{Bytes, is_empty}
use backend_challenge_go_jun.Money.{Money, is_initialized, is_negative, is_positive, is_zero}
use backend_challenge_go_jun.Financial.{Time, is_zero_time, State, Kind, kind_valid, is_external}
use backend_challenge_go_jun.Financial.Identifiers.{Uuid, is_nil}
use backend_challenge_go_jun.Financial.Wager.{
  WagerTransaction, NewExternalTransactionParams, new_external_transaction, external_transaction,
  check_kind_amount, check_kind_reference,
}
use backend_challenge_go_jun.Application.{AppError, ErrorCode, contract_error}

pub record OpenWalletCommand : Type 0 where
  pub player_id : Uuid
  pub initial_balance : Money
  pub correlation_id : Bytes

unfoldable pub validate_open_wallet : OpenWalletCommand → Result AppError (Unit {0})
validate_open_wallet c = do
  reject_if (is_nil c.player_id) (contract_error ErrorCode.invalid_request)
  reject_if (not (is_initialized c.initial_balance)) (contract_error ErrorCode.invalid_money)
  reject_if (is_negative c.initial_balance) (contract_error ErrorCode.invalid_money)

pub record SubmitWagerCommand : Type 0 where
  pub provider_id : Bytes
  pub external_transaction_id : Bytes
  pub idempotency_key : Bytes
  pub wallet_id : Uuid
  pub player_id : Uuid
  pub round_id : Bytes
  pub game_id : Bytes
  pub kind : Kind
  pub amount : Money
  pub reference_external_id : Bytes
  pub correlation_id : Bytes

-- The `switch` on the kind.
unfoldable pub validate_kind : SubmitWagerCommand → Kind → Result AppError (Unit {0})
validate_kind c Kind.loss = do
  reject_if (not (is_zero c.amount)) (contract_error ErrorCode.invalid_loss_amount)
  reject_if (not (is_empty c.reference_external_id)) (contract_error ErrorCode.invalid_request)
validate_kind c Kind.bet = do
  reject_if (not (is_positive c.amount)) (contract_error ErrorCode.invalid_request)
  reject_if (not (is_empty c.reference_external_id)) (contract_error ErrorCode.invalid_request)
validate_kind c Kind.refund = do
  reject_if (not (is_positive c.amount)) (contract_error ErrorCode.invalid_request)
  reject_if (is_empty c.reference_external_id) (contract_error ErrorCode.reference_required)
validate_kind c Kind.rollback = do
  reject_if (not (is_positive c.amount)) (contract_error ErrorCode.invalid_request)
  reject_if (is_empty c.reference_external_id) (contract_error ErrorCode.reference_required)
validate_kind c _ =
    reject_if (not (is_positive c.amount)) (contract_error ErrorCode.invalid_request)

unfoldable pub validate_submit_wager : SubmitWagerCommand → Result AppError (Unit {0})
unfolding validate_kind
validate_submit_wager c = do
  reject_if (is_empty c.provider_id) (contract_error ErrorCode.invalid_request)
  reject_if (is_empty c.external_transaction_id) (contract_error ErrorCode.invalid_request)
  reject_if (is_nil c.wallet_id) (contract_error ErrorCode.invalid_request)
  reject_if (is_nil c.player_id) (contract_error ErrorCode.invalid_request)
  reject_if (is_empty c.round_id) (contract_error ErrorCode.invalid_request)
  reject_if (is_empty c.game_id) (contract_error ErrorCode.invalid_request)
  reject_if (is_empty c.idempotency_key) (contract_error ErrorCode.idempotency_key_required)
  reject_if (not (kind_valid c.kind) || not (is_external c.kind))
      (contract_error ErrorCode.invalid_request)
  reject_if (not (is_initialized c.amount)) (contract_error ErrorCode.invalid_money)
  validate_kind c c.kind

unfoldable pub validate_resolve_pending_reference : Uuid → Result AppError (Unit {0})
validate_resolve_pending_reference transaction_id =
    reject_if (is_nil transaction_id) (contract_error ErrorCode.invalid_request)

pub record InboxDelivery : Type 0 where
  pub consumer_name : Bytes
  pub message_id : Bytes
  pub digest : Bytes
  pub received_at : Time

unfoldable pub validate_inbox_delivery : InboxDelivery → Result AppError (Unit {0})
validate_inbox_delivery d = do
  reject_if (is_empty d.consumer_name) (contract_error ErrorCode.invalid_request)
  reject_if (is_empty d.message_id) (contract_error ErrorCode.invalid_request)
  reject_if (not (length d.digest == 64)) (contract_error ErrorCode.invalid_request)
  reject_if (is_zero_time d.received_at) (contract_error ErrorCode.invalid_request)

-- The parameters with which `submitWithinTx` calls NewExternalTransaction.
abbrev pub external_params :
    SubmitWagerCommand
    → (id : Uuid) (digest_version digest : Bytes) (now : Time) → NewExternalTransactionParams
external_params c id digest_version digest now = record {
  id = id;
  provider_id = c.provider_id;
  external_transaction_id = c.external_transaction_id;
  idempotency_key = c.idempotency_key;
  digest_version = digest_version;
  digest = digest;
  wallet_id = c.wallet_id;
  player_id = c.player_id;
  round_id = c.round_id;
  game_id = c.game_id;
  kind = c.kind;
  amount = c.amount;
  reference_external_id = c.reference_external_id;
  now = now;
}

-- What the checks on the kind leave for the domain.
validate_kind-domain :
    (c : SubmitWagerCommand) (k : Kind)
    → validate_kind c k ≡ ok tt
    → (check_kind_amount k c.amount c.reference_external_id ≡ ok tt)
      × (check_kind_reference k c.reference_external_id ≡ ok tt)
unfolding validate_kind check_kind_amount check_kind_reference
validate_kind-domain c Kind.opening h = (ground arith, refl)
validate_kind-domain c Kind.bet h = (ground arith, refl)
validate_kind-domain c Kind.win h = (ground arith, refl)
validate_kind-domain c Kind.loss h = (ground arith, refl)
validate_kind-domain c Kind.refund h = (ground arith, ground arith)
validate_kind-domain c Kind.rollback h = (ground arith, ground arith)
validate_kind-domain c (Kind.other s) h = (ground arith, refl)

-- A command that passes the contract checks is accepted by the domain: with identities and a clock
-- that are set, NewExternalTransaction makes a pending transaction of the command's kind and
-- amount, so `contractError(CodeInvalidRequest, err.Error())` is not reached in submitWithinTx.
pub validate_submit_wager-accepted :
    (c : SubmitWagerCommand) (id : Uuid) (digest_version digest : Bytes) (now : Time)
    → validate_submit_wager c ≡ ok tt
    → is_nil id ≡ false
    → is_empty digest_version ≡ false
    → is_empty digest ≡ false
    → is_zero_time now ≡ false
    → (t : WagerTransaction) × (new_external_transaction
          (external_params c id digest_version digest now)
        ≡ ok t)
      × (t.state ≡ State.pending)
      × (t.kind ≡ c.kind)
      × (t.amount ≡ c.amount)
      × (t.wallet_id ≡ c.wallet_id)
unfolding validate_submit_wager new_external_transaction
validate_submit_wager-accepted c id version digest now h i v d n =
    let (a, h) =
      reject_if-eq-ok (is_empty c.provider_id) (contract_error ErrorCode.invalid_request) _ h in
    let (b, h) =
      reject_if-eq-ok (is_empty c.external_transaction_id)
        (contract_error ErrorCode.invalid_request) _ h in
    let (w, h) =
      reject_if-eq-ok (is_nil c.wallet_id) (contract_error ErrorCode.invalid_request) _ h in
    let (p, h) =
      reject_if-eq-ok (is_nil c.player_id) (contract_error ErrorCode.invalid_request) _ h in
    let (r, h) =
      reject_if-eq-ok (is_empty c.round_id) (contract_error ErrorCode.invalid_request) _ h in
    let (g, h) =
      reject_if-eq-ok (is_empty c.game_id) (contract_error ErrorCode.invalid_request) _ h in
    let (k, h) =
      reject_if-eq-ok (is_empty c.idempotency_key)
        (contract_error ErrorCode.idempotency_key_required) _ h in
    let (x, h) =
      reject_if-eq-ok (not (kind_valid c.kind) || not (is_external c.kind))
        (contract_error ErrorCode.invalid_request) _ h in
    let (m, h) =
      reject_if-eq-ok (not (is_initialized c.amount)) (contract_error ErrorCode.invalid_money) _
        h in
    let (y, z) = validate_kind-domain c c.kind h in
    (
      external_transaction (external_params c id version digest now),
      rw (i, a, b, w, p, r, g, k, x, m, v, d, n, y, z) refl,
      refl,
      refl,
      refl,
      refl,
    )
