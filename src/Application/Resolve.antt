-- ===== src/Application/Resolve.antt =====
-- The decision on an operation, before anything is stored (internal/application/resolve.go, and
-- the helpers of it in service.go).
pub mod Outcome
pub mod Reversals
pub mod Claims
use backend_challenge_go_jun.Prelude.{
  Bool, true, false, not, ◌&&◌, ◌||◌, ◌==◌, Option, none, some, if◌then◌else◌, Result, ok, err,
  ◌>>=◌, ◌>>◌, map_err,
}
use backend_challenge_go_jun.Prelude.Bytes.{is_empty, bytes_eq}
use backend_challenge_go_jun.Money.{Money, equal}
use backend_challenge_go_jun.Financial.{
  Kind, is_bet, State, Direction, FailureCode, no_failure, of_money,
}
use backend_challenge_go_jun.Financial.Identifiers.{Uuid, is_nil}
use backend_challenge_go_jun.Financial.Wager.{WagerTransaction}
use backend_challenge_go_jun.Application.{
  AppError, Sentinel, sentinel, of_financial, noted, wrapped,
}

-- The struct `movement`
pub record Movement : Type 0 where
  pub direction : Direction
  pub amount : Money

-- A nil pointer is `none`, and the zero value of the failure is `no_failure`.
pub record OperationPlan : Type 0 where
  pub movement : Option Movement
  pub claim : Bool
  pub reference_id : Uuid
  pub failure : FailureCode
  pub pending : Bool

abbrev pub empty_plan : OperationPlan
empty_plan = record {
  movement = none;
  claim = false;
  reference_id = 0;
  failure = no_failure;
  pending = false;
}

abbrev pub pending_plan : OperationPlan
pending_plan = record empty_plan { pending = true }

abbrev pub failure_plan : FailureCode → OperationPlan
failure_plan code = record empty_plan { failure = code }

abbrev pub movement_plan : Direction → Money → OperationPlan
movement_plan direction amount = record empty_plan {
  movement = some (record { direction = direction; amount = amount });
}

-- The errors of "%w: reference state %q is not documented" and of the kind.
abbrev pub undocumented : AppError
undocumented = noted (sentinel Sentinel.invariant)

abbrev pub needs_reference : WagerTransaction → Bool
needs_reference txn = not (is_empty txn.reference_external_transaction_id)

abbrev pub is_claiming_kind : Kind → Bool
is_claiming_kind Kind.refund = true
is_claiming_kind Kind.rollback = true
is_claiming_kind _ = false

-- It never returns an error.
unfoldable pub identity_matches : WagerTransaction → WagerTransaction → Bool
identity_matches txn ref =
    if not (txn.wallet_id == ref.wallet_id)
      || not (txn.player_id == ref.player_id)
      || not (bytes_eq txn.round_id ref.round_id)
    then false
    else (if not (bytes_eq txn.amount.currency ref.amount.currency) then false else true)

-- `allowed`, by the kinds of the operation and of its reference.
abbrev pub allowed_reference : Kind → Kind → Bool
allowed_reference Kind.refund ref = is_bet ref
allowed_reference Kind.rollback Kind.bet = true
allowed_reference Kind.rollback Kind.win = true
allowed_reference Kind.rollback Kind.refund = true
allowed_reference _ ref = false

abbrev pub reversal_direction : Kind → Kind → Direction
reversal_direction Kind.rollback Kind.bet = Direction.credit
reversal_direction Kind.rollback ref = Direction.debit
reversal_direction _ ref = Direction.credit

-- The `switch` on the state of the reference of a reversal.
unfoldable pub reverse_in_state :
    State → WagerTransaction → WagerTransaction → Bool → Result AppError OperationPlan
reverse_in_state State.pending txn ref claim_exists = ok pending_plan
reverse_in_state State.pending_reference txn ref claim_exists = ok pending_plan
reverse_in_state State.rejected txn ref claim_exists =
    ok (failure_plan FailureCode.reference_not_processed)
reverse_in_state State.failed txn ref claim_exists =
    ok (failure_plan FailureCode.reference_not_processed)
reverse_in_state State.processed txn ref claim_exists = ok (
    if claim_exists
    then failure_plan FailureCode.already_reversed
    else record (movement_plan (reversal_direction txn.kind ref.kind) ref.amount) {
      claim = true;
      reference_id = ref.id;
    })
reverse_in_state (State.other s) txn ref claim_exists = err undocumented

-- `classifyReversal` past the tests on the kinds and the identities.
unfoldable pub reverse_amount :
    WagerTransaction → WagerTransaction → Bool → Result AppError OperationPlan
unfolding reverse_in_state
reverse_amount txn ref claim_exists = do
  equal ← map_err (λ e. of_financial (of_money e)) (equal txn.amount ref.amount)
  (if not equal
      then ok (failure_plan FailureCode.reversal_amount_mismatch)
      else reverse_in_state ref.state txn ref claim_exists)

unfoldable pub classify_reversal :
    WagerTransaction → Option WagerTransaction → Bool → Result AppError OperationPlan
unfolding identity_matches reverse_amount
classify_reversal txn none claim_exists = ok pending_plan
classify_reversal txn (some ref) claim_exists =
    if not (allowed_reference txn.kind ref.kind)
    then ok (failure_plan FailureCode.reference_kind_not_allowed)
    else (if not (identity_matches txn ref)
        then ok (failure_plan FailureCode.reference_mismatch)
        else reverse_amount txn ref claim_exists)

-- The `switch` on the state of the reference of a WIN.
unfoldable pub win_in_state :
    State → WagerTransaction → WagerTransaction → Result AppError OperationPlan
win_in_state State.pending txn ref = ok pending_plan
win_in_state State.pending_reference txn ref = ok pending_plan
win_in_state State.rejected txn ref = ok (failure_plan FailureCode.reference_not_processed)
win_in_state State.failed txn ref = ok (failure_plan FailureCode.reference_not_processed)
win_in_state State.processed txn ref =
    ok (record (movement_plan Direction.credit txn.amount) { reference_id = ref.id })
win_in_state (State.other s) txn ref = err undocumented

unfoldable pub classify_win :
    WagerTransaction → Option WagerTransaction → Result AppError OperationPlan
unfolding identity_matches win_in_state
classify_win txn none = ok (movement_plan Direction.credit txn.amount)
classify_win txn (some ref) =
    if not (is_bet ref.kind)
    then ok (failure_plan FailureCode.invalid_win_reference)
    else (if not (identity_matches txn ref)
        then ok (failure_plan FailureCode.invalid_win_reference)
        else win_in_state ref.state txn ref)

-- The `switch` on the kind of the operation.
unfoldable pub classify_kind :
    Kind → WagerTransaction → Option WagerTransaction → Bool → Result AppError OperationPlan
unfolding classify_win classify_reversal
classify_kind Kind.loss txn ref claim_exists = ok empty_plan
classify_kind Kind.bet txn ref claim_exists = ok (movement_plan Direction.debit txn.amount)
classify_kind Kind.win txn ref claim_exists = classify_win txn ref
classify_kind Kind.refund txn ref claim_exists = classify_reversal txn ref claim_exists
classify_kind Kind.rollback txn ref claim_exists = classify_reversal txn ref claim_exists
classify_kind _ txn ref claim_exists = err undocumented

abbrev pub is_none {ℓ} : {A : Type ℓ} → Option A → Bool
is_none none = true
is_none (some a) = false

unfoldable pub classify :
    WagerTransaction → Option WagerTransaction → Bool → Result AppError OperationPlan
unfolding classify_kind
classify txn ref claim_exists =
    if is_none ref && needs_reference txn
    then ok pending_plan
    else classify_kind txn.kind txn ref claim_exists

-- The lookup of the claim in `planOperation`, by the repository's answer for a reference.
unfoldable pub claim_exists :
    (Uuid → Result AppError Bool)
    → WagerTransaction
    → Option WagerTransaction
    → Result AppError Bool
claim_exists by_reference txn none = ok false
claim_exists by_reference txn (some ref) =
    if is_claiming_kind txn.kind && elim ref.state [ State.processed ↦ true | _ ↦ false ]
    then by_reference ref.id
    else ok false

abbrev pub keep_reference : OperationPlan → Option WagerTransaction → OperationPlan
keep_reference plan none = plan
keep_reference plan (some ref) =
    if not plan.pending && is_nil plan.reference_id
    then record plan { reference_id = ref.id }
    else plan

unfoldable pub plan_operation :
    (Uuid → Result AppError Bool)
    → WagerTransaction
    → Option WagerTransaction
    → Result AppError OperationPlan
unfolding claim_exists classify
plan_operation by_reference txn ref = do
  exists ← claim_exists by_reference txn ref
  plan ← map_err (wrapped Sentinel.invariant) (classify txn ref exists)
  ok (keep_reference plan ref)
