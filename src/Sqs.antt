-- ===== src/Sqs.antt =====
-- The queue messages that carry wager requests (internal/adapters/sqs/consumer/envelope.go). The
-- JSON decoder, the parser of RFC 3339 times and the text of a UUID are parameters.
pub mod Consumer
pub mod Delivery
pub mod Redelivery
mod Tests
use backend_challenge_go_jun.Prelude.{
  ◌≡◌, Bool, not, Option, none, some, if◌then◌else◌, ltb, length, Result, ok, err, ◌>>=◌, ◌>>◌,
  map_err, reject_if,
}
use backend_challenge_go_jun.Prelude.Bytes.{Bytes, codes, bytes_eq, is_empty}
use backend_challenge_go_jun.Prelude.Int.{ℤ, pos, eq_ℤ}
use backend_challenge_go_jun.Money.Format.{parse}
use backend_challenge_go_jun.Financial.{FinancialError, kind_of_string}
use backend_challenge_go_jun.Financial.Identifiers.{
  UuidText, parse_uuid_id, parse_provider_id, parse_external_id, parse_idempotency_key,
  parse_optional_external_id,
}
use backend_challenge_go_jun.Application.Commands.{SubmitWagerCommand, validate_submit_wager}

pub record MoneyPayload : Type 0 where
  pub amount : Bytes
  pub currency : Bytes

pub record Data : Type 0 where
  pub provider_id : Bytes
  pub external_transaction_id : Bytes
  pub idempotency_key : Bytes
  pub player_id : Bytes
  pub wallet_id : Bytes
  pub round_id : Bytes
  pub game_id : Bytes
  pub kind : Bytes
  pub money : MoneyPayload
  pub reference_external_transaction_id : Bytes

pub record Envelope : Type 0 where
  pub message_id : Bytes
  pub message_type : Bytes
  pub occurred_at : Bytes
  pub correlation_id : Bytes
  pub content : Data

-- Every error of the file wraps ErrInvalidEnvelope.
pub data EnvelopeError : Type 0 where
  invalid_envelope : EnvelopeError

abbrev pub type_wager_transaction_requested : Bytes
type_wager_transaction_requested = codes "WagerTransactionRequested"

abbrev pub invalid {success failure} :
    {A : Type success} {E : Type failure} → Result E A → Result EnvelopeError A
invalid parsed = map_err (λ e. invalid_envelope) parsed

-- What `time.Parse(time.RFC3339, text)` says of a text: none for an error, or the offset of the zone.
abbrev pub ZoneOffset : Type 0
ZoneOffset = Bytes → Option ℤ

unfoldable pub check_offset : Option ℤ → Result EnvelopeError (Unit {0})
check_offset none = err invalid_envelope
check_offset (some offset) = reject_if (not (eq_ℤ offset (pos 0))) invalid_envelope

-- The checks in front of the parsers of the data.
unfoldable pub check_envelope : ZoneOffset → Envelope → Result EnvelopeError (Unit {0})
unfolding check_offset
check_envelope zone_offset e = do
  reject_if (is_empty e.message_id) invalid_envelope
  reject_if (not (bytes_eq e.message_type type_wager_transaction_requested)) invalid_envelope
  reject_if (is_empty e.occurred_at) invalid_envelope
  check_offset (zone_offset e.occurred_at)
  reject_if (is_empty e.content.idempotency_key) invalid_envelope
  reject_if (ltb 255 (length e.content.idempotency_key)) invalid_envelope

abbrev pub correlation_of : Envelope → Bytes
correlation_of e = if is_empty e.correlation_id then e.message_id else e.correlation_id

-- The parsers of the data, in the order of the code.
unfoldable pub parse_content :
    UuidText → Data → (correlation : Bytes) → Result EnvelopeError SubmitWagerCommand
unfolding parse_optional_external_id
parse_content text d correlation = do
  provider_id ← invalid (parse_provider_id d.provider_id)
  external_id ← invalid (parse_external_id d.external_transaction_id)
  idempotency_key ← invalid (parse_idempotency_key d.idempotency_key)
  wallet_id ← invalid (parse_uuid_id text d.wallet_id)
  player_id ← invalid (parse_uuid_id text d.player_id)
  round_id ← invalid (parse_external_id d.round_id)
  game_id ← invalid (parse_external_id d.game_id)
  amount ← invalid (parse d.money.amount d.money.currency)
  reference ← invalid (parse_optional_external_id d.reference_external_transaction_id)
  ok (record {
    provider_id = provider_id;
    external_transaction_id = external_id;
    idempotency_key = idempotency_key;
    wallet_id = wallet_id;
    player_id = player_id;
    round_id = round_id;
    game_id = game_id;
    kind = kind_of_string d.kind;
    amount = amount;
    reference_external_id = reference;
    correlation_id = correlation;
  })

-- `Envelope.Command`
unfoldable pub command_of :
    UuidText → ZoneOffset → Envelope → Result EnvelopeError SubmitWagerCommand
unfolding check_envelope parse_content
command_of text zone_offset e = do
  check_envelope zone_offset e
  command ← parse_content text e.content (correlation_of e)
  invalid (validate_submit_wager command)
  ok command
