-- ===== src/Postgres/Pages/Walk.antt =====
-- Following the cursors through a ledger (internal/application/service.go: LedgerPage over
-- internal/adapters/postgres/ledger.go: ListPage).
use backend_challenge_go_jun.Prelude.{
  ◌+◌, length-append, ℕ, zero, suc, ◌<◌, ◌≤◌, ◌≡◌, ◌∙◌, refl, ap, arith, false, ◌&&◌, ◌||◌, ltb,
  Option, none, some, if◌then◌else◌, List, [], ◌∷◌, ◌++◌, take, length, filter, Result, ok,
  traverse, Bool-cases, inl, inr, ltb→lt,
}
use backend_challenge_go_jun.Prelude.Bytes.{Bytes}
use backend_challenge_go_jun.Prelude.Int.{pos, ltb_ℤ}
use backend_challenge_go_jun.Financial.Identifiers.{Uuid, UuidText, is_nil}
use backend_challenge_go_jun.Financial.Wallet.{Wallet}
use backend_challenge_go_jun.Financial.Ledger.{WalletLedgerEntry}
use backend_challenge_go_jun.Application.{AppError}
use backend_challenge_go_jun.Application.Pagination.{
  LedgerCursor, LedgerPage, CursorText, ledger_max_limit, encode_ledger_cursor,
  encode_ledger_cursor-is_empty,
}
use backend_challenge_go_jun.Application.Ports.{Repositories}
use backend_challenge_go_jun.Application.Service.Queries.{cursor_after, cursor_behind, ledger_page}
use backend_challenge_go_jun.Postgres.Rows.{LedgerRow, rehydrate_ledger_row}
use backend_challenge_go_jun.Postgres.Pages.{
  is_after, cursor_of, order_by_key, of_wallet, behind, select_page, list_page, with_ledger,
}
use backend_challenge_go_jun.Postgres.Pages.Order.{
  Keyed, order_by_key-Ascending, order_by_key-filter, Keyed-filter, filter-behind, filter_both,
  filter-true,
}
use backend_challenge_go_jun.Postgres.Pages.Cuts.{
  traverse-Cut, traverse-take, traverse-append, traverse-back, take-short, ltb-take, page_cut,
}
use backend_challenge_go_jun.Postgres.Pages.Client.{
  walk, walk_last, walk_more, cursor_after-encode, Dated, Dated-middle, append_assoc,
  append_regroup, append_later, rehydrate_ledger_row-key, cursor_behind-last,
}

module _ {S : Type 0} (text : UuidText) (codec : CursorText) (rows : S → List LedgerRow)
    (repos : Repositories S) (currency : Bytes) (wallet_id : Uuid) (k : ℕ) (at : ℕ → S) where
  -- The rows of the wallet, in order, when the page of a number is read.
  abbrev pub ordered : ℕ → List LedgerRow
  ordered i = order_by_key (filter (λ r. of_wallet wallet_id r) (rows (at i)))

  abbrev pub scan : LedgerRow → Result AppError WalletLedgerEntry
  scan r = rehydrate_ledger_row text currency r

  -- The pages of `suc k` entries.
  abbrev pub page_at : ℕ → Bytes → Result AppError LedgerPage
  page_at i raw =
      ledger_page (with_ledger text rows repos) text codec wallet_id raw (pos (suc k)) (at i)

  -- The page of the entries that are left.
  abbrev page_of : List WalletLedgerEntry → LedgerPage
  page_of es = record {
    items = take (suc k) es;
    next_cursor =
        if ltb (suc k) (length es) then cursor_behind text codec (take (suc k) es) else [];
  }

  list_page-rest :
      (i : ℕ) (after : Option LedgerCursor) (left : List LedgerRow) (es : List WalletLedgerEntry)
      → order_by_key (filter (λ r. of_wallet wallet_id r && behind after r) (rows (at i))) ≡ left
      → traverse scan left ≡ ok es
      → list_page text none (rows (at i)) wallet_id currency after (suc k)
        ≡ ok (take (suc k) es, ltb (suc k) (length es))
  unfolding list_page select_page
  list_page-rest i after left es o t =
      let more = ltb-take (suc k) es in
      rw (o, traverse-take scan (suc (suc k)) left es t, more)
        (ap (λ l. ok (l, ltb (suc k) (length es))) (page_cut (suc k) es))

  ledger_page-rest :
      (i : ℕ) (raw : Bytes) (after : Option LedgerCursor) (left : List LedgerRow)
      (es : List WalletLedgerEntry) (w : Wallet)
      → is_nil wallet_id ≡ false
      → suc k ≤ 100
      → repos.wallet_by_id wallet_id (at i) ≡ ok (some w)
      → w.currency ≡ currency
      → cursor_after text codec raw ≡ ok after
      → order_by_key (filter (λ r. of_wallet wallet_id r && behind after r) (rows (at i))) ≡ left
      → traverse scan left ≡ ok es
      → page_at i raw ≡ ok (page_of es)
  unfolding ledger_page
  ledger_page-rest i raw after left es w set small known same c o t =
      let low : (ltb_ℤ (pos (suc k)) (pos 1) || ltb_ℤ ledger_max_limit (pos (suc k))) ≡ false =
        ground arith in
      rw (set, low, c, known, same, list_page-rest i after left es o t) refl

  -- The query behind the cursor of a row finds the rows that follow it.
  left_behind :
      (i : ℕ) (front : List LedgerRow) (r : LedgerRow) (back : List LedgerRow)
      → Keyed (rows (at i))
      → ordered i ≡ front ++ (r ∷ back)
      → order_by_key
          (filter (λ x. of_wallet wallet_id x && behind (some (cursor_of r)) x) (rows (at i)))
        ≡ back
  left_behind i front r back keyed whole =
      let own = λ (x : LedgerRow). of_wallet wallet_id x in
      let later = λ (x : LedgerRow). is_after (cursor_of r) x in
      let own_keyed = Keyed-filter own (rows (at i)) keyed in
      ap order_by_key (filter_both own later (rows (at i)))
      ∙ order_by_key-filter later (filter own (rows (at i))) own_keyed
      ∙ ap (λ l. filter later l) whole
      ∙ filter-behind front r back
          (rw whole at (order_by_key-Ascending (filter own (rows (at i))) own_keyed))

  -- What the walk has reached with its last page, of a number below `pages`: the rows behind `front` in the ledger of that
  -- page, and what these scan to.
  abbrev Reached :
      (pages : ℕ) → (front : List LedgerRow) → Result AppError (List WalletLedgerEntry) → Type 0
  Reached pages front answer =
      (m : ℕ) × (m < pages)
      × (tail : List LedgerRow) × (part : List WalletLedgerEntry) × (ordered m ≡ front ++ tail)
      × (traverse scan tail ≡ ok part)
      × (answer ≡ ok part)

  -- The ledger of the wallet grows behind its last entry.
  abbrev pub Grows : Type 0
  Grows = (j : ℕ) → (more : List LedgerRow) × (ordered (suc j) ≡ ordered j ++ more)

  -- What the requests rely on: the wallet is found with its currency, identities are distinct, every row of the wallet
  -- can be rebuilt, and a cursor can hold its time.
  pub record Readable : Type 0 where
    pub known :
        (j : ℕ)
        → (w : Wallet) × (repos.wallet_by_id wallet_id (at j) ≡ ok (some w))
          × (w.currency ≡ currency)
    pub keyed : (j : ℕ) → Keyed (rows (at j))
    pub dated : (j : ℕ) → Dated (ordered j)
    pub scanned : (j : ℕ) → (es : List WalletLedgerEntry) × (traverse scan (ordered j) ≡ ok es)

  -- Where the walk stands: the rows in front of the ones that are left.
  walk-rest :
      (size n i : ℕ) (raw : Bytes) (after : Option LedgerCursor) (front left : List LedgerRow)
      → is_nil wallet_id ≡ false
      → suc k ≤ 100
      → Readable
      → Grows
      → ((j : ℕ) → length (ordered j) ≤ size)
      → cursor_after text codec raw ≡ ok after
      → order_by_key (filter (λ r. of_wallet wallet_id r && behind after r) (rows (at i))) ≡ left
      → ordered i ≡ front ++ left
      → size < n + length front
      → Reached (i + n) front (walk n i page_at raw)
  walk-rest size zero i raw after front left set small can grows fits c o split fuel =
      let most : length (front ++ left) ≤ size = rw (← split) (fits i) in
      let long = length-append front left in ground arith
  walk-rest size (suc n) i raw after front left set small can grows fits c o split fuel =
      let (_, all) = can.scanned i in
      let (es, t) = traverse-back scan front left (rw split at all) in
      let (w, known, same) = can.known i in
      let page = ledger_page-rest i raw after left es w set small known same c o t in
      elim (Bool-cases (ltb (suc k) (length es))) [
        | inl more ↦
            let d =
              traverse-Cut scan k left es t (omega (arith, ltb→lt (suc k) (length es) more)) in
            let r = d.last in
            let (time, id) = rehydrate_ledger_row-key text currency r d.last_scanned in
            let parts : ordered i ≡ (front ++ d.front) ++ (r ∷ d.back) =
              split ∙ ap (λ l. front ++ l) d.cut ∙ append_assoc front d.front (r ∷ d.back) in
            let (dated_r, early) =
              Dated-middle (front ++ d.front) r d.back (rw parts at (can.dated i)) in
            let (added, grown) = grows i in
            let later : ordered (suc i) ≡ (front ++ d.front) ++ (r ∷ (d.back ++ added)) =
              append_later (front ++ d.front) (r ∷ d.back) added grown parts in
            let one = length-append (front ++ d.front) (r ∷ []) in
            let two = length-append front d.front in
            let (m, early_m, tail, part, at_m, tail_scanned, walked) =
              walk-rest size n (suc i) (encode_ledger_cursor text codec (cursor_of r))
                (some (cursor_of r)) ((front ++ d.front) ++ (r ∷ [])) (d.back ++ added) set small
                can grows fits (cursor_after-encode text codec r dated_r early)
                (left_behind (suc i) (front ++ d.front) r (d.back ++ added) (can.keyed (suc i))
                  later)
                (later ∙ append_assoc (front ++ d.front) (r ∷ []) (d.back ++ added))
                (omega arith) in
            (
              m,
              omega (arith, early_m),
              (d.front ++ (r ∷ [])) ++ tail,
              take (suc k) es ++ part,
              append_regroup {l = ordered m} front d.front (r ∷ []) tail at_m,
              traverse-append scan (d.front ++ (r ∷ [])) tail (take (suc k) es) part d.page_scanned
                  tail_scanned,
              walk_more n i page_at raw (encode_ledger_cursor text codec (cursor_of r)) (page_of es)
                  part page
                  (rw more (
                    ap (λ l. cursor_behind text codec l) d.page
                    ∙ cursor_behind-last text codec d.first d.scanned
                    ∙ ap
                        (λ x.
                          encode_ledger_cursor text codec
                            (record { created_at = x; id = d.scanned.id }))
                        time
                    ∙ ap
                        (λ x.
                          encode_ledger_cursor text codec
                            (record { created_at = r.created_at; id = x }))
                        id))
                  (encode_ledger_cursor-is_empty text codec (cursor_of r)) walked,
            )
        | inr last ↦
            let short : length es ≤ suc k = ground arith in
            (
              i,
              omega arith,
              left,
              es,
              split,
              t,
              walk_last n i page_at raw (page_of es) page (rw last refl)
                  ∙ ap ok (take-short (suc k) es short),
            )
      ]

  -- A client that starts at the first page and follows the cursors, while other sessions write to the
  -- store between its requests, ends after at most one page more than the ledger of the wallet ever
  -- has entries, whatever the size of the pages from 1 to 100. It has then got exactly the entries of
  -- that ledger as it stood at the moment of one of that many requests, each one once, in the order of creation time and
  -- identity: if entries that are appended in between come behind those that are there, as they do
  -- not for a clock that lags; and if the queries do not fail, the wallet is found with
  -- its currency, identities are distinct, every row of the wallet can be rebuilt, and a
  -- cursor can hold its time.
  pub ledger_page-walk :
      (size : ℕ)
      → is_nil wallet_id ≡ false
      → suc k ≤ 100
      → Readable
      → Grows
      → ((j : ℕ) → length (ordered j) ≤ size)
      → (m : ℕ) × (m ≤ size)
        × (es : List WalletLedgerEntry) × (traverse scan (ordered m) ≡ ok es)
        × (walk (suc size) 0 page_at [] ≡ ok es)
  unfolding cursor_after
  ledger_page-walk size set small can grows fits =
      let (m, early, tail, part, at_m, scanned, walked) =
        walk-rest size (suc size) 0 [] none [] (ordered 0) set small can grows fits refl
          (ap order_by_key (filter-true (λ r. of_wallet wallet_id r) (rows (at 0)))) refl
          (omega arith) in
      (m, omega (arith, early), part, ap (λ l. traverse scan l) at_m ∙ scanned, walked)
