-- ===== src/Http.antt =====
-- What the HTTP adapter reads and answers (internal/adapters/http/dto.go and the error replies of
-- internal/adapters/http/handler.go). Messages of the replies are left out; JSON is encoding/json.
pub mod Handler
pub mod Access
pub mod Ingress
pub mod Replies
mod Tests
use backend_challenge_go_jun.Prelude.{
  ℕ, Bool, true, false, ◌||◌, Option, none, some, List, [], map, if◌then◌else◌, Result, ok, err,
  ◌>>=◌, ◌>>◌, map_err,
}
use backend_challenge_go_jun.Prelude.Bytes.{Bytes, is_empty}
use backend_challenge_go_jun.Prelude.Int.{ℤ}
use backend_challenge_go_jun.Money.{Money, MoneyError, is_initialized}
use backend_challenge_go_jun.Money.Format.{parse, to_string}
use backend_challenge_go_jun.Financial.{
  Time, is_zero_time, Origin, Kind, State, Direction, FailureCode, is_no_failure,
}
use backend_challenge_go_jun.Financial.Identifiers.{Uuid}
use backend_challenge_go_jun.Financial.Wallet.{Wallet}
use backend_challenge_go_jun.Financial.Ledger.{WalletLedgerEntry}
use backend_challenge_go_jun.Application.{
  AppError, ErrorCode, error_code_of, is_contract, is_conflict, is_not_found, is_transient,
}
use backend_challenge_go_jun.Application.Pagination.{LedgerPage}
use backend_challenge_go_jun.Application.Reconciliation.{ReconciliationReport}
use backend_challenge_go_jun.Application.Service.{WagerResult}

-- The codes of the error envelope: those of the application, and the adapter's own.
pub data Code : Type 0 where
  of_application : ErrorCode → Code
  unauthorized forbidden payload_too_large unsupported_media_type route_not_found : Code

-- What `middleware.WriteError` writes.
pub record Refusal : Type 0 where
  pub status : ℕ
  pub code : Code

-- What a handler writes: a refusal, or a status and a body.
abbrev pub Reply : Type 0 → Type 0
Reply A = Result Refusal (ℕ × A)

abbrev pub refusal : ℕ → Code → Refusal
refusal status code = record { status = status; code = code }

abbrev pub bad_request : Refusal
bad_request = refusal 400 (of_application ErrorCode.invalid_request)

abbrev pub unprocessable : Refusal
unprocessable = refusal 422 (of_application ErrorCode.invalid_request)

abbrev pub money_refusal : Refusal
money_refusal = refusal 422 (of_application ErrorCode.invalid_money)

abbrev pub forbidden_refusal : Refusal
forbidden_refusal = refusal 403 forbidden

abbrev pub unavailable : Refusal
unavailable = refusal 503 (of_application ErrorCode.service_unavailable)

pub record MoneyInput : Type 0 where
  pub amount : Bytes
  pub currency : Bytes

unfoldable pub parse_input : MoneyInput → Result MoneyError Money
parse_input m = parse m.amount m.currency

pub record MoneyView : Type 0 where
  pub amount : Bytes
  pub currency : Bytes

unfoldable pub new_money_view : Money → Option MoneyView
new_money_view value =
    if is_initialized value
    then some (record { amount = to_string value; currency = value.currency })
    else none

pub record OpenWalletRequest : Type 0 where
  pub player_id : Bytes
  pub initial_balance : MoneyInput

pub record WalletResponse : Type 0 where
  pub id : Bytes
  pub player_id : Bytes
  pub balance : Option MoneyView
  pub version : ℤ
  pub created_at : Time
  pub updated_at : Time

pub record WagerRequest : Type 0 where
  pub provider_id : Bytes
  pub external_transaction_id : Bytes
  pub player_id : Bytes
  pub wallet_id : Bytes
  pub round_id : Bytes
  pub game_id : Bytes
  pub kind : Bytes
  pub money : MoneyInput
  pub reference_external_transaction_id : Bytes

pub record TransactionResponse : Type 0 where
  pub transaction_id : Bytes
  pub origin : Origin
  pub provider_id : Bytes
  pub external_transaction_id : Bytes
  pub wallet_id : Bytes
  pub player_id : Bytes
  pub round_id : Bytes
  pub game_id : Bytes
  pub kind : Kind
  pub money : Option MoneyView
  pub status : State
  pub balance : Option MoneyView
  pub failure_code : FailureCode
  pub reference_external_transaction_id : Bytes
  pub reference_deadline : Option Time
  pub created_at : Option Time
  pub updated_at : Option Time
  pub idempotent_replay : Bool

pub record LedgerEntryResponse : Type 0 where
  pub id : Bytes
  pub wallet_id : Bytes
  pub transaction_id : Bytes
  pub direction : Direction
  pub money : Option MoneyView
  pub balance_before : Option MoneyView
  pub balance_after : Option MoneyView
  pub created_at : Time

pub record LedgerPageResponse : Type 0 where
  pub items : List LedgerEntryResponse
  pub next_cursor : Bytes

pub record ReconciliationResponse : Type 0 where
  pub wallet_id : Bytes
  pub stored_balance : Option MoneyView
  pub calculated_balance : Option MoneyView
  pub difference : Option MoneyView
  pub consistent : Bool
  pub checked_entries : ℕ

-- `if !t.IsZero() { response = &t }`
abbrev pub set_time : Time → Option Time
set_time t = if is_zero_time t then none else some t

module _ (uuid_string : Uuid → Bytes) where
  unfoldable pub new_wallet_response : Wallet → WalletResponse
  unfolding new_money_view
  new_wallet_response view = record {
    id = uuid_string view.id;
    player_id = uuid_string view.player_id;
    balance = new_money_view view.balance;
    version = view.version;
    created_at = view.created_at;
    updated_at = view.updated_at;
  }

  -- An identity or a code that is not set is the empty text, with the test or without it.
  unfoldable pub new_transaction_response : WagerResult → TransactionResponse
  unfolding new_money_view
  new_transaction_response result = record {
    transaction_id = uuid_string result.transaction_id;
    origin = result.origin;
    provider_id = result.provider_id;
    external_transaction_id = result.external_id;
    wallet_id = uuid_string result.wallet_id;
    player_id = uuid_string result.player_id;
    round_id = result.round_id;
    game_id = result.game_id;
    kind = result.kind;
    money = new_money_view result.amount;
    status = result.state;
    balance = new_money_view result.observed_balance;
    failure_code = result.failure_code;
    reference_external_transaction_id = result.reference_external;
    reference_deadline = set_time result.reference_deadline;
    created_at = set_time result.created_at;
    updated_at = set_time result.updated_at;
    idempotent_replay = result.idempotent_replay;
  }

  unfoldable pub new_ledger_entry_response : WalletLedgerEntry → LedgerEntryResponse
  unfolding new_money_view
  new_ledger_entry_response entry = record {
    id = uuid_string entry.id;
    wallet_id = uuid_string entry.wallet_id;
    transaction_id = uuid_string entry.transaction_id;
    direction = entry.direction;
    money = new_money_view entry.amount;
    balance_before = new_money_view entry.balance_before;
    balance_after = new_money_view entry.balance_after;
    created_at = entry.created_at;
  }

  unfoldable pub new_ledger_page_response : LedgerPage → LedgerPageResponse
  unfolding new_ledger_entry_response
  new_ledger_page_response page = record {
    items = map (λ entry. new_ledger_entry_response entry) page.items;
    next_cursor = page.next_cursor;
  }

  unfoldable pub new_reconciliation_response : ReconciliationReport → ReconciliationResponse
  unfolding new_money_view
  new_reconciliation_response report = record {
    wallet_id = uuid_string report.wallet_id;
    stored_balance = new_money_view report.stored_balance;
    calculated_balance = new_money_view report.calculated_balance;
    difference = new_money_view report.difference;
    consistent = report.consistent;
    checked_entries = report.checked_entries;
  }

-- The `switch` of writeApplicationError, behind its first two cases.
abbrev pub status_of_code : ErrorCode → AppError → ℕ
status_of_code ErrorCode.idempotency_key_required e = 400
status_of_code ErrorCode.invalid_cursor e = 400
status_of_code ErrorCode.invalid_limit e = 400
status_of_code _ e = if is_contract e then 422 else 503

abbrev pub refusal_of : Option ErrorCode → AppError → Refusal
refusal_of none e = unavailable
refusal_of (some code) e =
    refusal (if is_not_found e then 404 else if is_conflict e then 409 else status_of_code code e)
      (of_application code)

-- `writeApplicationError`
unfoldable pub application_refusal : AppError → Refusal
application_refusal e = refusal_of (error_code_of e) e

-- The two calls of `decoder.Decode`: the errors of encoding/json and of the limited body.
pub data DecodeError : Type 0 where
  max_bytes malformed more_than_one_value : DecodeError

-- What the second call finds: the end of the body, one more value, or an error.
pub data Trailer : Type 0 where
  end_of_body another_value : Trailer
  broken : DecodeError → Trailer

abbrev pub check_trailer : Trailer → Result DecodeError (Unit {0})
check_trailer end_of_body = ok tt
check_trailer another_value = err more_than_one_value
check_trailer (broken e) = err e

unfoldable pub decode_json : {A : Type 0} → Result DecodeError A → Trailer → Result DecodeError A
decode_json first second = do value ← first; check_trailer second; ok value

abbrev pub decode_refusal : DecodeError → Refusal
decode_refusal max_bytes = refusal 413 payload_too_large
decode_refusal _ = bad_request
