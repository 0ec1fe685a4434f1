-- ===== src/Postgres.antt =====
-- The PostgreSQL adapter: driver errors as the ports' sentinels
-- (internal/adapters/postgres/errors.go), and columns that may be null
-- (internal/adapters/postgres/transactions.go).
pub mod Rows
pub mod Pages
pub mod RoundTrip
pub mod Updates
pub mod References
mod Tests
use backend_challenge_go_jun.Prelude.{
  ℕ, Bool, ◌+◌, true, false, Option, none, some, List, [], ◌∷◌, map, if◌then◌else◌, leb, ◌&&◌,
}
use backend_challenge_go_jun.Prelude.Bytes.{Bytes, codes, bytes_eq, is_empty, is_upper}
use backend_challenge_go_jun.Prelude.Int.{ℤ}
use backend_challenge_go_jun.Money.{Money, is_initialized, MoneyError}
use backend_challenge_go_jun.Financial.{
  Time, is_zero_time, FailureCode, is_no_failure, no_failure, FinancialError, of_money,
}
use backend_challenge_go_jun.Financial.Identifiers.{Uuid, is_nil}
use backend_challenge_go_jun.Application.{
  AppError, Sentinel, sentinel, driver, of_financial, wrapped, noted,
}

-- The errors that PostgreSQL reports with a code, and every other error of the driver.
pub data DbError : Type 0 where
  unique_violation : (constraint : Bytes) → DbError
  foreign_key_violation check_violation serialization deadlock other_code connection : DbError

-- `strings.ToLower`, of ASCII
unfoldable pub to_lower : Bytes → Bytes
to_lower [] = []
to_lower (c ∷ s) = (if is_upper c then c + 32 else c) ∷ to_lower s

abbrev pub constraint_wallets_player_currency : Bytes
constraint_wallets_player_currency = codes "wallets_playerid_currency_key"

-- Each of the other names gives the same sentinel as the default.
unfoldable pub unique_violation_error : Bytes → AppError
unfolding to_lower
unique_violation_error constraint =
    if bytes_eq (to_lower constraint) constraint_wallets_player_currency
    then wrapped Sentinel.wallet_exists driver
    else wrapped Sentinel.concurrent_write driver

unfoldable pub map_error : DbError → AppError
unfolding unique_violation_error
map_error (unique_violation constraint) = unique_violation_error constraint
map_error serialization = wrapped Sentinel.concurrent_write driver
map_error deadlock = wrapped Sentinel.concurrent_write driver
map_error check_violation = noted (sentinel Sentinel.corrupt_persisted_record)
map_error foreign_key_violation = noted (sentinel Sentinel.corrupt_persisted_record)
map_error other_code = wrapped Sentinel.transient driver
map_error connection = wrapped Sentinel.transient driver

-- `corruptRow`, of an error of the domain and of an amount.
abbrev pub corrupt_row : FinancialError → AppError
corrupt_row e = wrapped Sentinel.corrupt_persisted_record (of_financial e)

abbrev pub corrupt_amount : MoneyError → AppError
corrupt_amount e = corrupt_row (of_money e)

-- `derefString` and the null columns.
abbrev pub deref_string : Option Bytes → Bytes
deref_string none = []
deref_string (some value) = value

abbrev pub null_string : Bytes → Option Bytes
null_string value = if is_empty value then none else some value

-- `nullString(string(code))` and the conversion back.
abbrev pub deref_failure : Option FailureCode → FailureCode
deref_failure none = no_failure
deref_failure (some code) = code

abbrev pub null_failure : FailureCode → Option FailureCode
null_failure code = if is_no_failure code then none else some code

abbrev pub null_uuid : Uuid → Option Uuid
null_uuid id = if is_nil id then none else some id

abbrev pub null_money : Money → Option ℤ
null_money value = if is_initialized value then some value.minor_units else none

abbrev pub deref_time : Option Time → Time
deref_time none = 0
deref_time (some t) = t

abbrev pub null_time : Time → Option Time
null_time t = if is_zero_time t then none else some t
