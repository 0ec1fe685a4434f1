-- ===== src/Application/Pagination.antt =====
-- Ledger pages and their cursors (internal/application/pagination.go). The text of a cursor, JSON in
-- base64url, is a parameter.
use backend_challenge_go_jun.Prelude.{
  ◌*◌, ◌^◌, ◌<◌, ◌≡◌, refl, false, not, Option, none, some, List, Result, ok, err, ◌>>=◌, ◌>>◌,
  reject_if,
}
use backend_challenge_go_jun.Prelude.Bytes.{Bytes, is_empty}
use backend_challenge_go_jun.Prelude.Int.{ℤ, pos, eq_ℤ}
use backend_challenge_go_jun.Financial.{Time, is_zero_time}
use backend_challenge_go_jun.Financial.Identifiers.{Uuid, UuidText, parse_uuid_id}
use backend_challenge_go_jun.Financial.Ledger.{WalletLedgerEntry}

abbrev pub ledger_default_limit : ℤ
ledger_default_limit = pos 50

abbrev pub ledger_max_limit : ℤ
ledger_max_limit = pos 100

abbrev pub ledger_cursor_version : ℤ
ledger_cursor_version = pos 1

pub record LedgerCursor : Type 0 where
  pub created_at : Time
  pub id : Uuid

pub record LedgerCursorPayload : Type 0 where
  pub version : ℤ
  pub created_at : Time
  pub id : Bytes

pub record LedgerPage : Type 0 where
  pub items : List WalletLedgerEntry
  pub next_cursor : Bytes

-- The first instant that encoding/json cannot write, the start of the year 10000.
abbrev pub year_10000 : Time
year_10000 = 315537897600 * 10 ^ 9

-- What the code relies on in encoding/json and encoding/base64: a payload that was written is read
-- back, and no payload is the empty text. Beyond the year 9999 the code panics in place of `marshal`.
pub record CursorText : Type 0 where
  pub marshal : LedgerCursorPayload → Bytes
  pub unmarshal : Bytes → Option LedgerCursorPayload
  pub unmarshal-marshal :
      (p : LedgerCursorPayload) → p.created_at < year_10000 → unmarshal (marshal p) ≡ some p
  pub marshal-is_empty : (p : LedgerCursorPayload) → is_empty (marshal p) ≡ false

-- The errors of DecodeLedgerCursor differ in their texts only.
pub data CursorError : Type 0 where
  not_a_cursor : CursorError

abbrev payload_of : UuidText → LedgerCursor → LedgerCursorPayload
payload_of text cursor = record {
  version = ledger_cursor_version;
  created_at = cursor.created_at;
  id = text.uuid_string cursor.id;
}

unfoldable pub encode_ledger_cursor : UuidText → CursorText → LedgerCursor → Bytes
encode_ledger_cursor text codec cursor = codec.marshal (payload_of text cursor)

or_not_a_cursor : {A : Type 0} → Option A → Result CursorError A
or_not_a_cursor none = err not_a_cursor
or_not_a_cursor (some a) = ok a

abbrev id_or_not_a_cursor : {E : Type 0} {A : Type 0} → Result E A → Result CursorError A
id_or_not_a_cursor (ok a) = ok a
id_or_not_a_cursor (err e) = err not_a_cursor

unfoldable pub decode_ledger_cursor :
    UuidText → CursorText → Bytes → Result CursorError LedgerCursor
unfolding or_not_a_cursor
decode_ledger_cursor text codec raw = do
  payload ← or_not_a_cursor (codec.unmarshal raw)
  reject_if (not (eq_ℤ payload.version ledger_cursor_version)) not_a_cursor
  reject_if (is_zero_time payload.created_at) not_a_cursor
  id ← id_or_not_a_cursor (parse_uuid_id text payload.id)
  ok (record { created_at = payload.created_at; id = id })

-- A cursor with a creation time that JSON can write is read back from its text.
pub decode-encode_ledger_cursor :
    (text : UuidText) (codec : CursorText) (cursor : LedgerCursor)
    → is_zero_time cursor.created_at ≡ false
    → cursor.created_at < year_10000
    → decode_ledger_cursor text codec (encode_ledger_cursor text codec cursor) ≡ ok cursor
unfolding decode_ledger_cursor encode_ledger_cursor or_not_a_cursor parse_uuid_id
decode-encode_ledger_cursor text codec cursor set early =
    rw (codec.unmarshal-marshal (payload_of text cursor) early, set, text.parse-string cursor.id)
      refl

-- No cursor is the empty text, which stands for the first page.
pub encode_ledger_cursor-is_empty :
    (text : UuidText) (codec : CursorText) (cursor : LedgerCursor)
    → is_empty (encode_ledger_cursor text codec cursor) ≡ false
unfolding encode_ledger_cursor
encode_ledger_cursor-is_empty text codec cursor = codec.marshal-is_empty (payload_of text cursor)
