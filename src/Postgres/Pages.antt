-- ===== src/Postgres/Pages.antt =====
-- Pages of a ledger (internal/adapters/postgres/ledger.go: ListPage). The rows of the table are a list
-- in any order; the query filters them, sorts them by ("createdAt", "id") and cuts the list.
pub mod Order
pub mod Cuts
pub mod Client
pub mod Walk
use backend_challenge_go_jun.Prelude.{
  ℕ, suc, ◌+◌, Bool, true, false, ◌&&◌, ◌||◌, ◌==◌, ltb, Option, none, some, if◌then◌else◌, List,
  [], ◌∷◌, filter, take, length, Result, ok, err, ◌>>=◌, traverse,
}
use backend_challenge_go_jun.Prelude.Bytes.{Bytes}
use backend_challenge_go_jun.Prelude.Int.{ℤ, pos_part}
use backend_challenge_go_jun.Financial.Identifiers.{Uuid, UuidText}
use backend_challenge_go_jun.Financial.Ledger.{WalletLedgerEntry}
use backend_challenge_go_jun.Application.{AppError}
use backend_challenge_go_jun.Application.Pagination.{LedgerCursor}
use backend_challenge_go_jun.Application.Ports.{Repositories}
use backend_challenge_go_jun.Postgres.{DbError, map_error}
use backend_challenge_go_jun.Postgres.Rows.{LedgerRow, rehydrate_ledger_row}

-- `("createdAt", "id") > ($2, $3)`
abbrev pub is_after : LedgerCursor → LedgerRow → Bool
is_after c r = ltb c.created_at r.created_at || (c.created_at == r.created_at && ltb c.id r.id)

abbrev pub cursor_of : LedgerRow → LedgerCursor
cursor_of r = record { created_at = r.created_at; id = r.id }

-- A row in front of the first one that comes after it.
abbrev pub insert_row : LedgerRow → List LedgerRow → List LedgerRow
insert_row r [] = r ∷ []
insert_row r (x ∷ xs) = if is_after (cursor_of r) x then r ∷ x ∷ xs else x ∷ insert_row r xs

-- `ORDER BY "createdAt", "id"`
unfoldable pub order_by_key : List LedgerRow → List LedgerRow
order_by_key [] = []
order_by_key (r ∷ rows) = insert_row r (order_by_key rows)

abbrev pub of_wallet : Uuid → LedgerRow → Bool
of_wallet wallet_id r = r.wallet_id == wallet_id

abbrev pub behind : Option LedgerCursor → LedgerRow → Bool
behind none r = true
behind (some c) r = is_after c r

unfoldable pub select_page :
    List LedgerRow → Uuid → Option LedgerCursor → (limit : ℕ) → List LedgerRow
unfolding order_by_key
select_page rows wallet_id after limit =
    take limit (order_by_key (filter (λ r. of_wallet wallet_id r && behind after r) rows))

-- The query, or its failure in the words of the ports.
abbrev pub queried : Option DbError → List LedgerRow → Result AppError (List LedgerRow)
queried none rows = ok rows
queried (some e) rows = err (map_error e)

-- ListPage, of a limit that the service has checked to be positive.
unfoldable pub list_page :
    UuidText
    → Option DbError
    → List LedgerRow
    → Uuid
    → (currency : Bytes) → Option LedgerCursor
    → (limit : ℕ) → Result AppError (List WalletLedgerEntry × Bool)
unfolding select_page
list_page text failure rows wallet_id currency after limit = do
  selected ← queried failure (select_page rows wallet_id after (suc limit))
  entries ← traverse (λ r. rehydrate_ledger_row text currency r) selected
  let has_more = ltb limit (length entries)
  ok (if has_more then take limit entries else entries, has_more)

-- Repositories whose ledger pages are read from the rows of the state, by queries that do not fail.
abbrev pub with_ledger :
    {S : Type 0} → UuidText → (S → List LedgerRow) → Repositories S → Repositories S
with_ledger text rows repos = record repos {
  list_page = λ wallet_id currency after limit s.
      list_page text none (rows s) wallet_id currency after (pos_part limit);
}
