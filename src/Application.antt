-- ===== src/Application.antt =====
-- The application layer: its errors (internal/application/errors.go). `fmt` messages are left out;
-- what is kept of an error is what `errors.Is` and `errors.As` can see of it.
pub mod Commands
pub mod Pagination
pub mod Resolve
pub mod Backoff
pub mod Reconciliation
pub mod Ports
pub mod Service
mod Tests
use backend_challenge_go_jun.Prelude.{Bool, true, false, ◌||◌, Option, none, some}
use backend_challenge_go_jun.Financial.{FinancialError}

pub data ErrorCode : Type 0 where
  invalid_request invalid_money unsupported_currency idempotency_key_required reference_required
        invalid_loss_amount invalid_cursor invalid_limit wallet_already_exists idempotency_conflict
        external_transaction_conflict not_found service_unavailable inbox_payload_conflict
        invalid_message :
      ErrorCode

-- The sentinels of the package, which `errors.Is` compares.
pub data Sentinel : Type 0 where
  contract conflict not_found transient wallet_exists concurrent_write corrupt_persisted_record
        outbox_lease_lost invariant :
      Sentinel

-- A Go error: a sentinel, a domain error, any other error (`driver`), `*Error` without and with a cause,
-- and `fmt.Errorf` with "%w: %w" on a sentinel and a cause, or with one `%w`.
pub data AppError : Type 0 where
  sentinel : Sentinel → AppError
  of_financial : FinancialError → AppError
  driver : AppError
  classified : (class : Sentinel) → ErrorCode → AppError
  caused : (class : Sentinel) → ErrorCode → (cause : AppError) → AppError
  wrapped : Sentinel → AppError → AppError
  noted : AppError → AppError

abbrev pub same : Sentinel → Sentinel → Bool
same Sentinel.contract Sentinel.contract = true
same Sentinel.conflict Sentinel.conflict = true
same Sentinel.not_found Sentinel.not_found = true
same Sentinel.transient Sentinel.transient = true
same Sentinel.wallet_exists Sentinel.wallet_exists = true
same Sentinel.concurrent_write Sentinel.concurrent_write = true
same Sentinel.corrupt_persisted_record Sentinel.corrupt_persisted_record = true
same Sentinel.outbox_lease_lost Sentinel.outbox_lease_lost = true
same Sentinel.invariant Sentinel.invariant = true
same _ _ = false

-- `errors.Is(err, s)` over `Unwrap`, which gives the class and the cause.
abbrev pub is : AppError → Sentinel → Bool
is (sentinel r) s = same r s
is (of_financial e) s = false
is driver s = false
is (classified class code) s = same class s
is (caused class code cause) s = same class s || is cause s
is (wrapped r e) s = same r s || is e s
is (noted e) s = is e s

-- `ErrorCodeOf`: the code of the first `*Error`.
abbrev pub error_code_of : AppError → Option ErrorCode
error_code_of (sentinel r) = none
error_code_of (of_financial e) = none
error_code_of driver = none
error_code_of (classified class code) = some code
error_code_of (caused class code cause) = some code
error_code_of (wrapped r e) = error_code_of e
error_code_of (noted e) = error_code_of e

abbrev pub contract_error : ErrorCode → AppError
contract_error code = classified Sentinel.contract code

abbrev pub conflict_error : ErrorCode → AppError
conflict_error code = classified Sentinel.conflict code

abbrev pub conflict_error_of : ErrorCode → AppError → AppError
conflict_error_of code cause = caused Sentinel.conflict code cause

abbrev pub not_found_error : AppError
not_found_error = classified Sentinel.not_found ErrorCode.not_found

abbrev pub transient_error : AppError
transient_error = classified Sentinel.transient ErrorCode.service_unavailable

abbrev pub transient_error_of : AppError → AppError
transient_error_of cause = caused Sentinel.transient ErrorCode.service_unavailable cause

abbrev pub wrap_invariant : AppError → AppError
wrap_invariant e = wrapped Sentinel.invariant e

abbrev pub corrupt_record : AppError → AppError
corrupt_record e = wrapped Sentinel.corrupt_persisted_record e

abbrev pub is_contract : AppError → Bool
is_contract e = is e Sentinel.contract

abbrev pub is_conflict : AppError → Bool
is_conflict e = is e Sentinel.conflict

abbrev pub is_not_found : AppError → Bool
is_not_found e = is e Sentinel.not_found

abbrev pub is_transient : AppError → Bool
is_transient e = is e Sentinel.transient
