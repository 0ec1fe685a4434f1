-- ===== src/Financial.antt =====
-- The vocabulary of the financial domain: error sentinels and failure codes
-- (internal/domain/financial/errors.go), origins, kinds and states (wager.go), directions
-- (ledger.go). Each is a Go string type; `other` stands for every string that is none of the
-- documented constants.
pub mod Identifiers
pub mod Wallet
pub mod Ledger
pub mod Reversal
pub mod Wager
use backend_challenge_go_jun.Prelude.{ℕ, Bool, true, false, [], ◌==◌, if◌then◌else◌}
use backend_challenge_go_jun.Prelude.Bytes.{Bytes, codes, bytes_eq, is_empty}
use backend_challenge_go_jun.Money.{MoneyError}

-- Instants are nanoseconds since Go's zero time, so 0 is the instant for which `IsZero` holds.
abbrev pub Time : Type 0
Time = ℕ

abbrev pub is_zero_time : Time → Bool
is_zero_time t = t == 0

pub data Origin : Type 0 where
  internal external : Origin
  other : Bytes → Origin

pub data Kind : Type 0 where
  opening bet win loss refund rollback : Kind
  other : Bytes → Kind

pub data State : Type 0 where
  pending pending_reference processed rejected failed : State
  other : Bytes → State

pub data Direction : Type 0 where
  debit credit : Direction
  other : Bytes → Direction

-- `FailureCode ""`, which stands for no failure, is `other []`.
pub data FailureCode : Type 0 where
  insufficient_funds reversal_insufficient_funds reference_not_found reference_not_processed
        reference_mismatch reversal_amount_mismatch reference_kind_not_allowed invalid_win_reference
        already_reversed permanent_infrastructure :
      FailureCode
  other : Bytes → FailureCode

pub data FinancialError : Type 0 where
  invalid_input insufficient_funds uninitialized compensation_consumed : FinancialError
  invalid_transition : State → State → FinancialError
  of_money : MoneyError → FinancialError

abbrev pub no_failure : FailureCode
no_failure = FailureCode.other []

abbrev pub origin_valid : Origin → Bool
origin_valid (Origin.other s) = false
origin_valid _ = true

abbrev pub is_external_origin : Origin → Bool
is_external_origin Origin.external = true
is_external_origin _ = false

-- `Kind(text)`
unfoldable pub kind_of_string : Bytes → Kind
kind_of_string text =
    if bytes_eq text (codes "OPENING")
    then Kind.opening
    else if bytes_eq text (codes "BET")
    then Kind.bet
    else if bytes_eq text (codes "WIN")
    then Kind.win
    else if bytes_eq text (codes "LOSS")
    then Kind.loss
    else if bytes_eq text (codes "REFUND")
    then Kind.refund
    else if bytes_eq text (codes "ROLLBACK")
    then Kind.rollback
    else Kind.other text

abbrev pub kind_valid : Kind → Bool
kind_valid (Kind.other s) = false
kind_valid _ = true

-- `Kind.IsExternal`: the kinds that a provider may submit.
abbrev pub is_external : Kind → Bool
is_external Kind.opening = false
is_external (Kind.other s) = false
is_external _ = true

abbrev pub is_opening : Kind → Bool
is_opening Kind.opening = true
is_opening _ = false

abbrev pub is_bet : Kind → Bool
is_bet Kind.bet = true
is_bet _ = false

abbrev pub state_valid : State → Bool
state_valid (State.other s) = false
state_valid _ = true

abbrev pub is_terminal : State → Bool
is_terminal State.processed = true
is_terminal State.rejected = true
is_terminal State.failed = true
is_terminal _ = false

abbrev pub is_pending : State → Bool
is_pending State.pending = true
is_pending _ = false

abbrev pub direction_valid : Direction → Bool
direction_valid (Direction.other s) = false
direction_valid _ = true

abbrev pub failure_valid : FailureCode → Bool
failure_valid (FailureCode.other s) = false
failure_valid _ = true

-- `code == ""`
abbrev pub is_no_failure : FailureCode → Bool
is_no_failure (FailureCode.other s) = is_empty s
is_no_failure _ = false

abbrev pub is_permanent : FailureCode → Bool
is_permanent FailureCode.permanent_infrastructure = true
is_permanent _ = false
