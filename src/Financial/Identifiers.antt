-- ===== src/Financial/Identifiers.antt =====
-- Identities (internal/domain/financial/identifiers.go). A UUID is its 128-bit value, and the nil
-- UUID is 0; the textual form of a UUID belongs to github.com/google/uuid and is a parameter of
-- the parts that use it. Provider, external and idempotency identities are validated strings.
use backend_challenge_go_jun.Prelude.{
  ℕ, ◌≡◌, Bool, true, false, ◌&&◌, ◌||◌, not, Option, none, some, [], ◌∷◌, leb, ◌==◌, Result, ok,
  err, ◌>>◌, reject_if, length, if◌then◌else◌,
}
use backend_challenge_go_jun.Prelude.Bytes.{Bytes, is_empty, is_digit, is_lower, is_upper}
use backend_challenge_go_jun.Financial.{FinancialError, invalid_input}

-- WalletID, PlayerID, TransactionID, LedgerEntryID, ReversalClaimID
abbrev pub Uuid : Type 0
Uuid = ℕ

-- `IsZero`
abbrev pub is_nil : Uuid → Bool
is_nil id = id == 0

-- What the code relies on in github.com/google/uuid: parsing reads what String writes.
pub record UuidText : Type 0 where
  pub parse_uuid : Bytes → Option Uuid
  pub uuid_string : Uuid → Bytes
  pub parse-string : (id : Uuid) → parse_uuid (uuid_string id) ≡ some id

or_invalid_id : Option Uuid → Result FinancialError Uuid
or_invalid_id none = err invalid_input
or_invalid_id (some id) = ok id

-- `parseUUIDID`, which ParseWalletID and the others instantiate
unfoldable pub parse_uuid_id : UuidText → Bytes → Result FinancialError Uuid
unfolding or_invalid_id
parse_uuid_id text raw = or_invalid_id (text.parse_uuid raw)

unfoldable pub all_match : (ℕ → Bool) → Bytes → Bool
all_match p [] = true
all_match p (c ∷ s) = p c && all_match p s

-- `[a-z0-9._-]`
abbrev pub is_provider_byte : ℕ → Bool
is_provider_byte c = is_lower c || is_digit c || c == b'.' || c == b'_' || c == b'-'

-- `[A-Za-z0-9._:-]`
abbrev pub is_external_byte : ℕ → Bool
is_external_byte c =
    is_upper c || is_lower c || is_digit c || c == b'.' || c == b'_' || c == b':' || c == b'-'

-- `[\x21-\x7E]`
abbrev pub is_visible_byte : ℕ → Bool
is_visible_byte c = leb 0x21 c && leb c 0x7e

-- `^[a-z0-9][a-z0-9._-]{0,63}$`
unfoldable pub provider_id_pattern : Bytes → Bool
unfolding all_match
provider_id_pattern [] = false
provider_id_pattern (c ∷ s) =
    (is_lower c || is_digit c) && (all_match is_provider_byte s && leb (length s) 63)

-- `^[A-Za-z0-9._:-]{1,128}$`
unfoldable pub external_id_pattern : Bytes → Bool
unfolding all_match
external_id_pattern s = leb 1 (length s) && leb (length s) 128 && all_match is_external_byte s

-- `^[\x21-\x7E]{1,255}$`
unfoldable pub idempotency_key_pattern : Bytes → Bool
unfolding all_match
idempotency_key_pattern s = leb 1 (length s) && leb (length s) 255 && all_match is_visible_byte s

unfoldable pub parse_provider_id : Bytes → Result FinancialError Bytes
unfolding provider_id_pattern
parse_provider_id raw = do reject_if (not (provider_id_pattern raw)) invalid_input; ok raw

unfoldable pub parse_external_id : Bytes → Result FinancialError Bytes
unfolding external_id_pattern
parse_external_id raw = do reject_if (not (external_id_pattern raw)) invalid_input; ok raw

unfoldable pub parse_idempotency_key : Bytes → Result FinancialError Bytes
unfolding idempotency_key_pattern
parse_idempotency_key raw = do reject_if (not (idempotency_key_pattern raw)) invalid_input; ok raw

-- An external identity that may be absent, which both ways into the service read so.
unfoldable pub parse_optional_external_id : Bytes → Result FinancialError Bytes
unfolding parse_external_id
parse_optional_external_id raw = if is_empty raw then ok raw else parse_external_id raw
