-- ===== src/Postgres/Tests.antt =====
-- A ledger of two entries that is read one by one, and a transaction that is stored and read.
use backend_challenge_go_jun.Prelude.{
  ℕ, ◌≤◌, length, zero, suc, ◌≡◌, refl, true, false, some, none, ok, [], ◌∷◌, arith, Option, List,
  traverse, inr,
}
use backend_challenge_go_jun.Prelude.Bytes.{Bytes, codes, bytes_eq, is_empty}
use backend_challenge_go_jun.Prelude.Int.{ℤ, pos, negsuc, ◌+ℤ◌, ◌-ℤ◌, wrap64}
use backend_challenge_go_jun.Money.{Money, currency_pattern, add, sub, neg, equal, from_minor_units}
use backend_challenge_go_jun.Financial.{Time, Origin, Kind, State, Direction, no_failure}
use backend_challenge_go_jun.Financial.Identifiers.{Uuid, UuidText, parse_uuid_id}
use backend_challenge_go_jun.Financial.Wallet.{Wallet}
use backend_challenge_go_jun.Financial.Ledger.{WalletLedgerEntry, new_ledger_entry}
use backend_challenge_go_jun.Financial.Wager.{
  WagerTransaction, check_origin_metadata, rehydrate_transaction,
}
use backend_challenge_go_jun.Application.Pagination.{LedgerCursorPayload, CursorText}
use backend_challenge_go_jun.Application.Service.Memory.{Memory, memory, microseconds}
use backend_challenge_go_jun.Postgres.Rows.{
  LedgerRow, TransactionRow, rehydrate_ledger_row, transaction_row, rehydrate_transaction_row,
  update_row, reschedule_row,
}
use backend_challenge_go_jun.Postgres.Pages.{order_by_key}
use backend_challenge_go_jun.Postgres.Pages.Client.{walk, Dated}
use backend_challenge_go_jun.Postgres.Pages.Order.{Keyed}
use backend_challenge_go_jun.Postgres.Pages.Walk.{page_at, ordered, scan, Grows, ledger_page-walk}
use backend_challenge_go_jun.Postgres.RoundTrip.{rehydrate_transaction_row-transaction_row}
use backend_challenge_go_jun.Outbox.{is_member}
use backend_challenge_go_jun.Postgres.References.{
  due_reference_ids, claim_due_references, write_row,
}
use backend_challenge_go_jun.Postgres.References.Leases.{
  Elsewheres, inserts, updates, claims, done, next, claim_due_references-leased,
}
use backend_challenge_go_jun.Postgres.Updates.{
  Stores, transaction_row-Stores, reschedule_row-Stores, rehydrate_transaction_row-update_row,
}

abbrev parsed : Bytes → Option Uuid
parsed (id ∷ []) = some id
parsed _ = none

abbrev text : UuidText
text = record {
  parse_uuid = λ raw. parsed raw;
  uuid_string = λ id. id ∷ [];
  parse-string = λ id. refl;
}

abbrev written : ℤ → Time → Bytes → Bytes
written (pos n) t id = 0 ∷ n ∷ t ∷ id
written (negsuc n) t id = 1 ∷ n ∷ t ∷ id

abbrev read : Bytes → Option LedgerCursorPayload
read (zero ∷ n ∷ t ∷ id) = some (record { version = pos n; created_at = t; id = id })
read (suc x ∷ n ∷ t ∷ id) = some (record { version = negsuc n; created_at = t; id = id })
read _ = none

read-written :
    (v : ℤ) (t : Time) (id : Bytes)
    → read (written v t id) ≡ some (record { version = v; created_at = t; id = id })
read-written (pos n) t id = refl
read-written (negsuc n) t id = refl

written-is_empty : (v : ℤ) (t : Time) (id : Bytes) → is_empty (written v t id) ≡ false
written-is_empty (pos n) t id = refl
written-is_empty (negsuc n) t id = refl

abbrev codec : CursorText
codec = record {
  marshal = λ p. written p.version p.created_at p.id;
  unmarshal = λ raw. read raw;
  unmarshal-marshal = λ p early. read-written p.version p.created_at p.id;
  marshal-is_empty = λ p. written-is_empty p.version p.created_at p.id;
}

abbrev brl : Bytes
brl = codes "BRL"

abbrev cents : ℤ → Money
cents z = record { minor_units = z; currency = brl }

abbrev opened : Wallet
opened = record {
  id = 7;
  player_id = 8;
  currency = brl;
  balance = cents (pos 750);
  version = pos 2;
  created_at = 100;
  updated_at = 200;
}

abbrev store : Memory
store = record {
  wallets = opened ∷ [];
  transactions = [];
  entries = [];
  claims = [];
  outbox = [];
  inbox = [];
}

abbrev opening_row : LedgerRow
opening_row = record {
  id = 31;
  wallet_id = 7;
  transaction_id = 21;
  direction = Direction.credit;
  amount = pos 1000;
  balance_before = pos 0;
  balance_after = pos 1000;
  created_at = 100;
}

abbrev bet_row : LedgerRow
bet_row = record {
  id = 30;
  wallet_id = 7;
  transaction_id = 22;
  direction = Direction.debit;
  amount = pos 250;
  balance_before = pos 1000;
  balance_after = pos 750;
  created_at = 200;
}

abbrev stranger : LedgerRow
stranger = record bet_row { id = 32; wallet_id = 9 }

abbrev win_row : LedgerRow
win_row = record {
  id = 29;
  wallet_id = 7;
  transaction_id = 23;
  direction = Direction.credit;
  amount = pos 100;
  balance_before = pos 750;
  balance_after = pos 850;
  created_at = 300;
}

-- The table, in no order, before a win and after it.
abbrev table_of : List Wallet → List LedgerRow
table_of (w ∷ []) = bet_row ∷ stranger ∷ opening_row ∷ []
table_of _ = bet_row ∷ stranger ∷ win_row ∷ opening_row ∷ []

abbrev table : Memory → List LedgerRow
table s = table_of s.wallets

-- The win comes in between the first page and the second.
abbrev moment : ℕ → Memory
moment zero = store
moment (suc j) = record store {
  wallets = record opened { balance = cents (pos 850); version = pos 3 } ∷ opened ∷ [];
}

abbrev opening_entry : WalletLedgerEntry
opening_entry = record {
  id = 31;
  wallet_id = 7;
  transaction_id = 21;
  direction = Direction.credit;
  amount = cents (pos 1000);
  balance_before = cents (pos 0);
  balance_after = cents (pos 1000);
  created_at = 100;
}

abbrev bet_entry : WalletLedgerEntry
bet_entry = record {
  id = 30;
  wallet_id = 7;
  transaction_id = 22;
  direction = Direction.debit;
  amount = cents (pos 250);
  balance_before = cents (pos 1000);
  balance_after = cents (pos 750);
  created_at = 200;
}

abbrev win_entry : WalletLedgerEntry
win_entry = record {
  id = 29;
  wallet_id = 7;
  transaction_id = 23;
  direction = Direction.credit;
  amount = cents (pos 100);
  balance_before = cents (pos 750);
  balance_after = cents (pos 850);
  created_at = 300;
}

scanned_at :
    (j : ℕ)
    → (es : List WalletLedgerEntry) × (traverse
          (scan text codec table memory brl 7 0 moment)
          (ordered text codec table memory brl 7 0 moment j)
        ≡ ok es)
unfolding order_by_key rehydrate_ledger_row from_minor_units parse_uuid_id new_ledger_entry add sub
    neg equal ◌+ℤ◌ ◌-ℤ◌ wrap64 bytes_eq
scanned_at zero = (opening_entry ∷ bet_entry ∷ [], refl)
scanned_at (suc j) = (opening_entry ∷ bet_entry ∷ win_entry ∷ [], refl)

known_at :
    (j : ℕ) → (w : Wallet) × (memory.wallet_by_id 7 (moment j) ≡ ok (some w)) × (w.currency ≡ brl)
known_at zero = (opened, refl, refl)
known_at (suc j) = (record opened { balance = cents (pos 850); version = pos 3 }, refl, refl)

moment-Keyed : (j : ℕ) → Keyed (table (moment j))
moment-Keyed zero =
    ((λ e. ground arith, (λ e. ground arith, tt)), ((λ e. ground arith, tt), (tt, tt)))
moment-Keyed (suc j) = (
  (λ e. ground arith, (λ e. ground arith, (λ e. ground arith, tt))),
  ((λ e. ground arith, (λ e. ground arith, tt)), ((λ e. ground arith, tt), (tt, tt))),
)

moment-Dated : (j : ℕ) → Dated (ordered text codec table memory brl 7 0 moment j)
unfolding order_by_key
moment-Dated zero = (refl, omega arith, (refl, omega arith, tt))
moment-Dated (suc j) = (refl, omega arith, (refl, omega arith, (refl, omega arith, tt)))

moment-Grows : Grows text codec table memory brl 7 0 moment
unfolding order_by_key
moment-Grows zero = (win_row ∷ [], refl)
moment-Grows (suc j) = ([], refl)

fitting : (j : ℕ) → length (ordered text codec table memory brl 7 0 moment j) ≤ 3
unfolding order_by_key
fitting zero = omega arith
fitting (suc j) = omega arith

ledger_page-walk_example :
    (m : ℕ) × (m ≤ 3)
    × (es : List WalletLedgerEntry) × (traverse
          (scan text codec table memory brl 7 0 moment)
          (ordered text codec table memory brl 7 0 moment m)
        ≡ ok es)
    × (walk 4 0 (page_at text codec table memory brl 7 0 moment) [] ≡ ok es)
ledger_page-walk_example =
    ledger_page-walk text codec table memory brl 7 0 moment 3 refl (omega arith)
      (record {
        known = known_at;
        keyed = moment-Keyed;
        dated = moment-Dated;
        scanned = scanned_at;
      })
      moment-Grows fitting

abbrev stored : WagerTransaction
stored = record {
  id = 22;
  origin = Origin.external;
  kind = Kind.bet;
  provider_id = codes "acme";
  external_transaction_id = codes "tx-1";
  idempotency_key = codes "key-1";
  digest_version = codes "sha256-jcs-v1";
  digest = codes "00ff";
  wallet_id = 7;
  player_id = 8;
  round_id = codes "round-1";
  game_id = codes "game-1";
  amount = cents (pos 250);
  reference_external_transaction_id = [];
  reference_transaction_id = 0;
  state = State.processed;
  failure_code = no_failure;
  observed_balance = cents (pos 750);
  reference_deadline = 0;
  created_at = 200000;
  updated_at = 200000;
}

accepted : rehydrate_transaction stored ≡ ok stored
unfolding rehydrate_transaction check_origin_metadata
accepted = refl

rehydrate_transaction_row-transaction_row_example :
    rehydrate_transaction_row text (transaction_row microseconds stored) ≡ ok stored
unfolding currency_pattern
rehydrate_transaction_row-transaction_row_example =
    rehydrate_transaction_row-transaction_row text microseconds stored accepted refl
      (inr (refl, refl)) (ground arith)

-- The operation before its reference has come, in its row.
abbrev waiting : WagerTransaction
waiting = record stored {
  state = State.pending_reference;
  observed_balance = record { minor_units = pos 0; currency = [] };
  reference_deadline = 900000;
  updated_at = 200000;
}

waiting-Stores :
    Stores microseconds
      (reschedule_row microseconds (transaction_row microseconds waiting) 250000 400000 3)
      (record waiting { updated_at = 250000 })
waiting-Stores = reschedule_row-Stores 250000 400000 3 (transaction_row-Stores microseconds waiting)

rehydrate_transaction_row-update_row_example :
    rehydrate_transaction_row text (
      update_row microseconds
        (reschedule_row microseconds (transaction_row microseconds waiting) 250000 400000 3)
        stored
        none)
    ≡ ok stored
unfolding currency_pattern
rehydrate_transaction_row-update_row_example =
    rehydrate_transaction_row-update_row text stored none waiting-Stores refl accepted refl
      (inr (refl, refl)) (ground arith)

-- The operation that waits in its row, and a claim of it.
abbrev waiting_rows : List TransactionRow
waiting_rows =
    transaction_row microseconds stored
    ∷ reschedule_row microseconds (transaction_row microseconds (record waiting { id = 23 })) 250000
        400000 3
    ∷ []

due_at_500 :
    is_member 23 (due_reference_ids microseconds (λ id. false) 500000 10 waiting_rows) ≡ true
unfolding due_reference_ids reschedule_row
due_at_500 = refl

-- What the claim leaves.
abbrev claimed_rows : List TransactionRow
claimed_rows = (claim_due_references text microseconds (λ id. false) 500000 10 30000 waiting_rows).0

-- Another transaction is inserted, the stored one is written again, and another worker claims.
abbrev inserted_rows : List TransactionRow
inserted_rows = transaction_row microseconds (record waiting { id = 24 }) ∷ claimed_rows

abbrev written_rows : List TransactionRow
written_rows = write_row 22 (λ r. update_row microseconds r stored none) inserted_rows

elsewhere :
    Elsewheres microseconds 23 530000 claimed_rows
      (claim_due_references text microseconds (λ id. false) 510000 10 30000 written_rows).0
elsewhere = next (inserts (record waiting { id = 24 }) refl) (
    next (updates stored none refl)
      (next (claims text (λ id. false) 510000 10 30000 (omega arith)) done))

claim_due_references-leased_example :
    is_member 23 (
      due_reference_ids microseconds
        (λ id. false)
        520000
        50
        (claim_due_references text microseconds (λ id. false) 510000 10 30000 written_rows).0)
    ≡ false
claim_due_references-leased_example =
    claim_due_references-leased text microseconds (λ id. false) (λ id. false) 500000 520000 10 30000
      50 waiting_rows 23 due_at_500 elsewhere (omega arith)
