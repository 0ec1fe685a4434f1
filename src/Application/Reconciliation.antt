-- ===== src/Application/Reconciliation.antt =====
-- Reconciliation of a wallet with its ledger (internal/application/reconciliation.go).
pub mod Balance
use backend_challenge_go_jun.Prelude.{
  ℕ, ◌≡◌, ◌↔◌, ◌+◌, refl, sym, ap, ◌∙◌, arith, Bool, true, false, not, Option, none, some, List, [],
  ◌∷◌, length, Result, ok, err, ◌>>=◌, ◌>>◌, reject_if, map_err, reject_if-eq-ok, >>=-eq-ok,
  ok-injective, Bool-cases, inl, inr,
}
use backend_challenge_go_jun.Prelude.Bytes.{Bytes}
use backend_challenge_go_jun.Prelude.Int.{
  ℤ, pos, negsuc, ◌+ℤ◌, ◌-ℤ◌, InInt64, eq_ℤ, eq_ℤ_iff, int_laws,
}
use backend_challenge_go_jun.Money.{Money, MoneyError, is_zero, zero_money, add, sub}
use backend_challenge_go_jun.Financial.{Direction, of_money}
use backend_challenge_go_jun.Financial.Identifiers.{Uuid, is_nil}
use backend_challenge_go_jun.Application.{
  AppError, ErrorCode, Sentinel, sentinel, of_financial, contract_error, not_found_error,
  transient_error, wrap_invariant,
}

pub record ReconciliationEntry : Type 0 where
  pub direction : Direction
  pub amount : Money

pub record ReconciliationSnapshot : Type 0 where
  pub balance : Money
  pub entries : List ReconciliationEntry

pub record ReconciliationReport : Type 0 where
  pub wallet_id : Uuid
  pub stored_balance : Money
  pub calculated_balance : Money
  pub difference : Money
  pub consistent : Bool
  pub checked_entries : ℕ

-- The port `ReconcileRead`: an error, no wallet, or a snapshot.
abbrev pub Reconciler : Type 0
Reconciler = Uuid → Result AppError (Option ReconciliationSnapshot)

abbrev pub money_fault : MoneyError → AppError
money_fault e = wrap_invariant (of_financial (of_money e))

-- One round of the loop over the entries.
unfoldable pub apply_entry : Direction → (calculated amount : Money) → Result AppError Money
apply_entry Direction.credit calculated amount = map_err money_fault (add calculated amount)
apply_entry Direction.debit calculated amount = map_err money_fault (sub calculated amount)
apply_entry (Direction.other s) calculated amount = err (sentinel Sentinel.invariant)

unfoldable pub calculate : Money → List ReconciliationEntry → Result AppError Money
unfolding apply_entry
calculate calculated [] = ok calculated
calculate calculated (e ∷ es) = do
  next ← apply_entry e.direction calculated e.amount
  calculate next es

-- The part of ReconcileWallet after the read.
unfoldable pub report_on : Uuid → ReconciliationSnapshot → Result AppError ReconciliationReport
unfolding calculate
report_on wallet_id snapshot = do
  zero ← map_err money_fault (zero_money snapshot.balance.currency)
  calculated ← calculate zero snapshot.entries
  difference ← map_err money_fault (sub snapshot.balance calculated)
  ok (record {
    wallet_id = wallet_id;
    stored_balance = snapshot.balance;
    calculated_balance = calculated;
    difference = difference;
    consistent = is_zero difference;
    checked_entries = length snapshot.entries;
  })

unfoldable pub found_or_error :
    Option ReconciliationSnapshot → Result AppError ReconciliationSnapshot
found_or_error none = err not_found_error
found_or_error (some snapshot) = ok snapshot

abbrev pub reconciler_or_error : Option Reconciler → Result AppError Reconciler
reconciler_or_error none = err transient_error
reconciler_or_error (some read) = ok read

-- A service without a reconciler holds none.
unfoldable pub reconcile_wallet : Option Reconciler → Uuid → Result AppError ReconciliationReport
unfolding report_on found_or_error
reconcile_wallet reconciler wallet_id = do
  reject_if (is_nil wallet_id) (contract_error ErrorCode.invalid_request)
  read ← reconciler_or_error reconciler
  found ← read wallet_id
  snapshot ← found_or_error found
  report_on wallet_id snapshot
