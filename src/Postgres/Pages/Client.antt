-- ===== src/Postgres/Pages/Client.antt =====
-- A client that reads a ledger page by page: the cursors it follows and the rows behind them
-- (internal/application/pagination.go, internal/adapters/postgres/ledger.go).
use backend_challenge_go_jun.Prelude.{
  ℕ, zero, suc, ◌<◌, ◌≡◌, ◌∙◌, refl, sym, ap, true, false, some, if◌then◌else◌, List, [], ◌∷◌, ◌++◌,
  Result, ok, err, ◌>>=◌, ◌>>◌, map_err, >>=-eq-ok, ok-injective, map_err-eq-ok,
}
use backend_challenge_go_jun.Prelude.Bytes.{Bytes, is_empty}
use backend_challenge_go_jun.Money.{from_minor_units}
use backend_challenge_go_jun.Financial.{is_zero_time}
use backend_challenge_go_jun.Financial.Identifiers.{Uuid, UuidText, parse_uuid_id}
use backend_challenge_go_jun.Financial.Ledger.{WalletLedgerEntry, validate, new_ledger_entry}
use backend_challenge_go_jun.Application.{AppError, driver}
use backend_challenge_go_jun.Application.Pagination.{
  LedgerPage, CursorText, year_10000, encode_ledger_cursor, decode-encode_ledger_cursor,
  encode_ledger_cursor-is_empty,
}
use backend_challenge_go_jun.Application.Service.Queries.{cursor_after, cursor_behind}
use backend_challenge_go_jun.Postgres.{corrupt_row, corrupt_amount}
use backend_challenge_go_jun.Postgres.Rows.{LedgerRow, rehydrate_ledger_row}
use backend_challenge_go_jun.Postgres.Pages.{cursor_of}

-- A client that follows the cursors, for at most so many pages, from the page of the given number on.
abbrev pub walk :
    ℕ
    → (number : ℕ) → (ℕ → Bytes → Result AppError LedgerPage)
    → Bytes
    → Result AppError (List WalletLedgerEntry)
walk zero number page cursor = err driver
walk (suc n) number page cursor = page number cursor >>= λ p.
    if is_empty p.next_cursor
    then ok p.items
    else (walk n (suc number) page p.next_cursor >>= λ rest. ok (p.items ++ rest))

pub walk_last :
    (n i : ℕ) (page : ℕ → Bytes → Result AppError LedgerPage) (raw : Bytes) (p : LedgerPage)
    → page i raw ≡ ok p
    → is_empty p.next_cursor ≡ true
    → walk (suc n) i page raw ≡ ok p.items
walk_last n i page raw p h e = rw (h, e) refl

pub walk_more :
    (n i : ℕ) (page : ℕ → Bytes → Result AppError LedgerPage) (raw next : Bytes) (p : LedgerPage)
    (rest : List WalletLedgerEntry)
    → page i raw ≡ ok p
    → p.next_cursor ≡ next
    → is_empty next ≡ false
    → walk n (suc i) page next ≡ ok rest
    → walk (suc n) i page raw ≡ ok (p.items ++ rest)
walk_more n i page raw next p rest h c e w = rw (h, c, e, w) refl

pub cursor_after-encode :
    (text : UuidText) (codec : CursorText) (r : LedgerRow)
    → is_zero_time r.created_at ≡ false
    → r.created_at < year_10000
    → cursor_after text codec (encode_ledger_cursor text codec (cursor_of r))
      ≡ ok (some (cursor_of r))
unfolding cursor_after
cursor_after-encode text codec r set early =
    rw
      (
        encode_ledger_cursor-is_empty text codec (cursor_of r),
        decode-encode_ledger_cursor text codec (cursor_of r) set early,
      )
      refl

-- Creation times that a cursor can hold.
abbrev pub Dated : List LedgerRow → Type 0
Dated [] = Unit {0}
Dated (r ∷ rows) = (is_zero_time r.created_at ≡ false) × (r.created_at < year_10000) × Dated rows

pub Dated-middle :
    (front : List LedgerRow) (r : LedgerRow) (back : List LedgerRow)
    → Dated (front ++ (r ∷ back))
    → (is_zero_time r.created_at ≡ false) × (r.created_at < year_10000)
Dated-middle [] r back (z, e, d) = (z, e)
Dated-middle (x ∷ front) r back (z, e, d) = Dated-middle front r back d

pub append_assoc : (xs ys zs : List LedgerRow) → xs ++ (ys ++ zs) ≡ (xs ++ ys) ++ zs
append_assoc [] ys zs = refl
append_assoc (x ∷ xs) ys zs = ap (λ l. x ∷ l) (append_assoc xs ys zs)

pub append_regroup :
    {l : List LedgerRow} (front xs ys tail : List LedgerRow)
    → l ≡ ((front ++ xs) ++ ys) ++ tail
    → l ≡ front ++ ((xs ++ ys) ++ tail)
append_regroup front xs ys tail h =
    h
    ∙ ap (λ z. z ++ tail) (sym (append_assoc front xs ys))
    ∙ sym (append_assoc front (xs ++ ys) tail)

pub append_later :
    {l m : List LedgerRow} (front back added : List LedgerRow)
    → m ≡ l ++ added
    → l ≡ front ++ back
    → m ≡ front ++ (back ++ added)
append_later front back added h g = h ∙ ap (λ z. z ++ added) g ∙ sym (append_assoc front back added)

parse_uuid_id-string :
    (text : UuidText) (id : Uuid) → parse_uuid_id text (text.uuid_string id) ≡ ok id
unfolding parse_uuid_id
parse_uuid_id-string text id = rw (text.parse-string id) refl

new_ledger_entry_same :
    (entry : WalletLedgerEntry) {e : WalletLedgerEntry}
    → map_err corrupt_row (new_ledger_entry entry) ≡ ok e
    → e ≡ entry
unfolding new_ledger_entry
new_ledger_entry_same entry h =
    let made = map_err-eq-ok corrupt_row (validate entry >> ok entry) h in
    let (_, _, done) = >>=-eq-ok (validate entry) _ made in sym (ok-injective done)

-- An entry has the key of its row.
pub rehydrate_ledger_row-key :
    (text : UuidText) (currency : Bytes) (r : LedgerRow) {e : WalletLedgerEntry}
    → rehydrate_ledger_row text currency r ≡ ok e
    → (e.created_at ≡ r.created_at) × (e.id ≡ r.id)
unfolding rehydrate_ledger_row
rehydrate_ledger_row-key text currency r h =
    let (id, a, h) =
      >>=-eq-ok (map_err corrupt_row (parse_uuid_id text (text.uuid_string r.id))) _ h in
    let (wallet, _, h) =
      >>=-eq-ok (map_err corrupt_row (parse_uuid_id text (text.uuid_string r.wallet_id))) _ h in
    let (transaction, _, h) =
      >>=-eq-ok (map_err corrupt_row (parse_uuid_id text (text.uuid_string r.transaction_id))) _
        h in
    let (amount, _, h) =
      >>=-eq-ok (map_err corrupt_amount (from_minor_units r.amount currency)) _ h in
    let (before, _, h) =
      >>=-eq-ok (map_err corrupt_amount (from_minor_units r.balance_before currency)) _ h in
    let (after, _, h) =
      >>=-eq-ok (map_err corrupt_amount (from_minor_units r.balance_after currency)) _ h in
    let same = new_ledger_entry_same _ h in
    let known =
      ok-injective (sym a ∙ ap (λ x. map_err corrupt_row x) (parse_uuid_id-string text r.id)) in
    (ap (λ x. x.created_at) same, ap (λ x. x.id) same ∙ known)

pub cursor_behind-last :
    (text : UuidText) (codec : CursorText) (first : List WalletLedgerEntry) (e : WalletLedgerEntry)
    → cursor_behind text codec (first ++ (e ∷ []))
      ≡ encode_ledger_cursor text codec (record { created_at = e.created_at; id = e.id })
unfolding cursor_behind
cursor_behind-last text codec [] e = refl
cursor_behind-last text codec (x ∷ []) e = refl
cursor_behind-last text codec (x ∷ y ∷ first) e = cursor_behind-last text codec (y ∷ first) e
