-- ===== src/Application/Service/Queries.antt =====
-- The reads of the service: WalletByID, TransactionByID, TransactionByProviderAndExternalID and
-- LedgerPage (internal/application/service.go).
use backend_challenge_go_jun.Prelude.{
  false, ◌||◌, Option, none, some, List, [], ◌∷◌, if◌then◌else◌, Result, ok, err, ◌>>=◌, ◌>>◌,
  map_err, reject_if,
}
use backend_challenge_go_jun.Prelude.Bytes.{Bytes, is_empty}
use backend_challenge_go_jun.Prelude.Int.{ℤ, pos, ltb_ℤ}
use backend_challenge_go_jun.Financial.Identifiers.{Uuid, UuidText, is_nil}
use backend_challenge_go_jun.Financial.Wallet.{Wallet}
use backend_challenge_go_jun.Financial.Ledger.{WalletLedgerEntry}
use backend_challenge_go_jun.Financial.Wager.{WagerTransaction}
use backend_challenge_go_jun.Application.{AppError, ErrorCode, contract_error, not_found_error}
use backend_challenge_go_jun.Application.Pagination.{
  LedgerCursor, LedgerPage, CursorText, ledger_max_limit, encode_ledger_cursor,
  decode_ledger_cursor,
}
use backend_challenge_go_jun.Application.Ports.{Repositories}
use backend_challenge_go_jun.Application.Service.{WagerResult, result_of}
use backend_challenge_go_jun.Application.Service.Submission.{found}

abbrev pub found_result : Option WagerTransaction → Result AppError WagerResult
found_result none = err not_found_error
found_result (some txn) = ok (result_of txn false)

-- `if rawCursor != ""`
unfoldable pub cursor_after : UuidText → CursorText → Bytes → Result AppError (Option LedgerCursor)
cursor_after text codec raw = if is_empty raw then ok none else (do
  cursor ←
      map_err (λ e. contract_error ErrorCode.invalid_cursor) (decode_ledger_cursor text codec raw)
  ok (some cursor))

-- The cursor behind the last of the entries; none for no entry.
unfoldable pub cursor_behind : UuidText → CursorText → List WalletLedgerEntry → Bytes
cursor_behind text codec [] = []
cursor_behind text codec (e ∷ []) =
    encode_ledger_cursor text codec (record { created_at = e.created_at; id = e.id })
cursor_behind text codec (e ∷ d ∷ es) = cursor_behind text codec (d ∷ es)

module _ {S : Type 0} (repos : Repositories S) where
  -- The view of a wallet has its fields.
  unfoldable pub wallet_by_id : Uuid → S → Result AppError Wallet
  wallet_by_id id s = do
    reject_if (is_nil id) (contract_error ErrorCode.invalid_request)
    wallet ← repos.wallet_by_id id s
    found wallet

  unfoldable pub transaction_by_id : Uuid → S → Result AppError WagerResult
  transaction_by_id id s = do
    reject_if (is_nil id) (contract_error ErrorCode.invalid_request)
    txn ← repos.transaction_by_id id s
    found_result txn

  unfoldable pub transaction_by_provider_and_external_id :
      (provider_id external_id : Bytes) → S → Result AppError WagerResult
  transaction_by_provider_and_external_id provider_id external_id s = do
    reject_if (is_empty provider_id) (contract_error ErrorCode.invalid_request)
    reject_if (is_empty external_id) (contract_error ErrorCode.invalid_request)
    txn ← repos.by_provider_and_external_id provider_id external_id s
    found_result txn

  unfoldable pub ledger_page :
      UuidText
      → CursorText
      → Uuid
      → (raw_cursor : Bytes) → (limit : ℤ) → S
      → Result AppError LedgerPage
  unfolding cursor_after cursor_behind
  ledger_page text codec wallet_id raw_cursor limit s = do
    reject_if (is_nil wallet_id) (contract_error ErrorCode.invalid_request)
    reject_if (ltb_ℤ limit (pos 1) || ltb_ℤ ledger_max_limit limit)
        (contract_error ErrorCode.invalid_limit)
    after ← cursor_after text codec raw_cursor
    wallet ← repos.wallet_by_id wallet_id s
    wallet ← found wallet
    page ← repos.list_page wallet_id wallet.currency after limit s
    ok (record {
      items = page.0;
      next_cursor = if page.1 then cursor_behind text codec page.0 else [];
    })
