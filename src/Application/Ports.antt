-- ===== src/Application/Ports.antt =====
-- The ports of the application (internal/application/ports.go). A repository bound to a
-- transaction reads and writes a state `S` of the store; the text of a UUID, the clock and fresh
-- identities come from the surroundings.
use backend_challenge_go_jun.Prelude.{ℕ, ◌≡◌, ◌≤◌, Bool, Option, List, Result}
use backend_challenge_go_jun.Prelude.Int.{ℤ}
use backend_challenge_go_jun.Prelude.Bytes.{Bytes}
use backend_challenge_go_jun.Financial.{Time}
use backend_challenge_go_jun.Financial.Identifiers.{Uuid}
use backend_challenge_go_jun.Financial.Wallet.{Wallet}
use backend_challenge_go_jun.Financial.Ledger.{WalletLedgerEntry}
use backend_challenge_go_jun.Financial.Reversal.{ReversalClaim}
use backend_challenge_go_jun.Financial.Wager.{WagerTransaction}
use backend_challenge_go_jun.Event.{Envelope}
use backend_challenge_go_jun.Application.{AppError}
use backend_challenge_go_jun.Application.Pagination.{LedgerCursor}
use backend_challenge_go_jun.Application.Commands.{InboxDelivery}

pub record ReferenceSchedule : Type 0 where
  pub next_attempt_at : Time
  pub attempts : ℕ

-- Reads return none for a missing row; every operation may fail.
pub record Repositories (S : Type 0) : Type 0 where
  pub lock_wallet : Uuid → S → Result AppError (Option Wallet)
  pub wallet_by_id : Uuid → S → Result AppError (Option Wallet)
  pub save_balance : Wallet → S → Result AppError S
  pub insert_wallet : Wallet → S → Result AppError S
  pub insert_transaction : WagerTransaction → S → Result AppError S
  pub update_transaction : WagerTransaction → Option ReferenceSchedule → S → Result AppError S
  pub reschedule_reference : Uuid → (now next_attempt_at : Time) → ℕ → S → Result AppError S
  pub transaction_by_id : Uuid → S → Result AppError (Option WagerTransaction)
  pub lock_transaction : Uuid → S → Result AppError (Option (WagerTransaction × ℕ))
  pub by_provider_and_key : Bytes → Bytes → S → Result AppError (Option WagerTransaction)
  pub by_provider_and_external_id : Bytes → Bytes → S → Result AppError (Option WagerTransaction)
  pub claim_due_references :
      (now : Time) (limit lease : ℕ) → S → Result AppError (List WagerTransaction × S)
  pub insert_entry : WalletLedgerEntry → S → Result AppError S
  pub list_page :
      Uuid
      → (currency : Bytes) → Option LedgerCursor
      → (limit : ℤ) → S
      → Result AppError (List WalletLedgerEntry × Bool)
  pub insert_claim : ReversalClaim → S → Result AppError S
  pub claim_by_reference : Uuid → S → Result AppError (Option ReversalClaim)
  pub insert_event : Envelope → Time → S → Result AppError S
  pub begin_delivery : InboxDelivery → S → Result AppError (Option Bytes × S)
  pub complete_delivery : Bytes → Bytes → Time → S → Result AppError S

-- What a TIMESTAMPTZ column and its driver keep of an instant: PostgreSQL documents a resolution of
-- one microsecond.
pub record TimeColumn : Type 0 where
  pub kept : Time → Time
  pub kept-kept : (t : Time) → kept (kept t) ≡ kept t
  pub kept_zero : kept 0 ≡ 0
  pub kept_ordered : (t u : Time) → t ≤ u → kept t ≤ kept u

-- A transaction with the instants that its columns keep.
abbrev pub as_stored : TimeColumn → WagerTransaction → WagerTransaction
as_stored column t = record t {
  reference_deadline = column.kept t.reference_deadline;
  created_at = column.kept t.created_at;
  updated_at = column.kept t.updated_at;
}

-- What one run of a use case finds around it: the instants of the clock, the identities that it
-- generates, the correlation of the request, the text of a UUID, and what the database answers to the
-- begin and to the commit of the transaction, with whether a commit whose answer is an error has taken
-- effect.
pub record Surroundings : Type 0 where
  pub now : Time
  pub completed_at : Time
  pub wallet_id : Uuid
  pub transaction_id : Uuid
  pub entry_id : Uuid
  pub claim_id : Uuid
  pub first_event_id : Bytes
  pub second_event_id : Bytes
  pub correlation : Bytes
  pub uuid_string : Uuid → Bytes
  pub begin : Result AppError (Unit {0})
  pub commit : Result AppError (Unit {0})
  pub commit_kept : Bool
