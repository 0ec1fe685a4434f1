-- ===== src/Http/Ingress.antt =====
-- The two ways into the service, HTTP and the queue, understand a request alike
-- (internal/adapters/http/handler.go: handleSubmitWager; internal/adapters/sqs/consumer/envelope.go:
-- Command).
use backend_challenge_go_jun.Prelude.{
  ◌≡◌, ◌↔◌, refl, sym, ap, ◌∙◌, Bool, false, not, ◌&&◌, Result, ok, arith, map_err, map_err-eq-ok,
  reject_if-eq-ok, >>=-eq-ok, ok-injective, if◌then◌else◌,
}
use backend_challenge_go_jun.Prelude.Bytes.{Bytes, is_empty, bytes_eq, bytes_eq_refl}
use backend_challenge_go_jun.Money.Format.{parse}
use backend_challenge_go_jun.Financial.{kind_of_string}
use backend_challenge_go_jun.Financial.Identifiers.{
  UuidText, parse_uuid_id, parse_provider_id, parse_external_id, parse_idempotency_key,
  parse_optional_external_id,
}
use backend_challenge_go_jun.Application.Commands.{SubmitWagerCommand, validate_submit_wager}
use backend_challenge_go_jun.Sqs.{
  Data, Envelope, ZoneOffset, invalid_envelope, invalid, correlation_of, check_envelope,
  parse_content, command_of,
}
use backend_challenge_go_jun.Http.{
  Refusal, WagerRequest, parse_input, refusal, of_application, forbidden_refusal, unprocessable,
  bad_request, money_refusal,
}
use backend_challenge_go_jun.Application.{ErrorCode}
use backend_challenge_go_jun.Http.Access.{Principal}
use backend_challenge_go_jun.Http.Handler.{submit_wager_command}

-- The HTTP request with the fields of the data of an envelope; the key travels in a header.
abbrev pub request_of : Data → WagerRequest
request_of d = record {
  provider_id = d.provider_id;
  external_transaction_id = d.external_transaction_id;
  player_id = d.player_id;
  wallet_id = d.wallet_id;
  round_id = d.round_id;
  game_id = d.game_id;
  kind = d.kind;
  money = record { amount = d.money.amount; currency = d.money.currency };
  reference_external_transaction_id = d.reference_external_transaction_id;
}

-- The caller is the provider that the data names.
abbrev pub Owns : Principal → Data → Type 0
Owns principal d = principal.provider_id ≡ d.provider_id

-- Every field of the data parses, into the fields of the command.
record Parsed (text : UuidText) (d : Data) (correlation : Bytes) (c : SubmitWagerCommand)
    : Type 0 where
  provider : parse_provider_id d.provider_id ≡ ok c.provider_id
  external : parse_external_id d.external_transaction_id ≡ ok c.external_transaction_id
  key : parse_idempotency_key d.idempotency_key ≡ ok c.idempotency_key
  wallet : parse_uuid_id text d.wallet_id ≡ ok c.wallet_id
  player : parse_uuid_id text d.player_id ≡ ok c.player_id
  round : parse_external_id d.round_id ≡ ok c.round_id
  game : parse_external_id d.game_id ≡ ok c.game_id
  amount : parse d.money.amount d.money.currency ≡ ok c.amount
  reference :
      parse_optional_external_id d.reference_external_transaction_id ≡ ok c.reference_external_id
  kind : c.kind ≡ kind_of_string d.kind
  correlated : c.correlation_id ≡ correlation

valid : {A E : Type 0} (m : Result E A) {a : A} → invalid m ≡ ok a → m ≡ ok a
valid m h = map_err-eq-ok (λ e. invalid_envelope) m h

-- The refusals of the handler.
abbrev refused : {A E : Type 0} → Result E A → Result Refusal A
refused parsed = map_err (λ e. unprocessable) parsed

abbrev key_refusal : {E : Type 0} → Bytes → E → Refusal
key_refusal raw_key e =
    if is_empty raw_key
    then refusal 400 (of_application ErrorCode.idempotency_key_required)
    else bad_request

accepted : {A E : Type 0} (m : Result E A) {a : A} → refused m ≡ ok a → m ≡ ok a
accepted m h = map_err-eq-ok (λ e. unprocessable) m h

and_false : (b : Bool) → (b && false) ≡ false
and_false b = ground arith

module _ (text : UuidText) (d : Data) (correlation : Bytes) where
  parse_content-Parsed :
      {c : SubmitWagerCommand}
      → parse_content text d correlation ≡ ok c
      → Parsed text d correlation c
  unfolding parse_content
  parse_content-Parsed h =
      let (provider, a, h) = >>=-eq-ok (invalid (parse_provider_id d.provider_id)) _ h in
      let (external, b, h) =
        >>=-eq-ok (invalid (parse_external_id d.external_transaction_id)) _ h in
      let (key, c, h) = >>=-eq-ok (invalid (parse_idempotency_key d.idempotency_key)) _ h in
      let (wallet, e, h) = >>=-eq-ok (invalid (parse_uuid_id text d.wallet_id)) _ h in
      let (player, f, h) = >>=-eq-ok (invalid (parse_uuid_id text d.player_id)) _ h in
      let (round, g, h) = >>=-eq-ok (invalid (parse_external_id d.round_id)) _ h in
      let (game, i, h) = >>=-eq-ok (invalid (parse_external_id d.game_id)) _ h in
      let (amount, j, h) = >>=-eq-ok (invalid (parse d.money.amount d.money.currency)) _ h in
      let (reference, k, h) =
        >>=-eq-ok (invalid (parse_optional_external_id d.reference_external_transaction_id)) _ h in
      rw (← ok-injective h) (record {
        provider = valid (parse_provider_id d.provider_id) a;
        external = valid (parse_external_id d.external_transaction_id) b;
        key = valid (parse_idempotency_key d.idempotency_key) c;
        wallet = valid (parse_uuid_id text d.wallet_id) e;
        player = valid (parse_uuid_id text d.player_id) f;
        round = valid (parse_external_id d.round_id) g;
        game = valid (parse_external_id d.game_id) i;
        amount = valid (parse d.money.amount d.money.currency) j;
        reference = valid (parse_optional_external_id d.reference_external_transaction_id) k;
        kind = refl;
        correlated = refl;
      })

  Parsed-parse_content :
      {c : SubmitWagerCommand}
      → Parsed text d correlation c
      → parse_content text d correlation ≡ ok c
  unfolding parse_content
  Parsed-parse_content p =
      rw
        (
          p.provider,
          p.external,
          p.key,
          p.wallet,
          p.player,
          p.round,
          p.game,
          p.amount,
          p.reference,
          ← p.kind,
          ← p.correlated,
        )
        refl

  module _ (principal : Principal) where
    Parsed-submit_wager_command :
        {c : SubmitWagerCommand}
        → Owns principal d
        → Parsed text d correlation c
        → submit_wager_command text principal (request_of d) d.idempotency_key correlation ≡ ok c
    unfolding submit_wager_command parse_input
    Parsed-submit_wager_command owned p =
        rw
          (
            owned,
            bytes_eq_refl d.provider_id,
            and_false (not (is_empty d.provider_id)),
            p.key,
            p.provider,
            p.external,
            p.wallet,
            p.player,
            p.round,
            p.game,
            p.reference,
            p.amount,
            ← p.kind,
            ← p.correlated,
          )
          refl

    submit_wager_command-Parsed :
        {c : SubmitWagerCommand}
        → Owns principal d
        → submit_wager_command text principal (request_of d) d.idempotency_key correlation ≡ ok c
        → Parsed text d correlation c
    unfolding submit_wager_command parse_input
    submit_wager_command-Parsed owned h =
        let (_, h) =
          reject_if-eq-ok
            (not (is_empty d.provider_id) && not (bytes_eq d.provider_id principal.provider_id))
            forbidden_refusal _ h in
        let (key, c, h) =
          >>=-eq-ok
            (map_err (key_refusal d.idempotency_key) (parse_idempotency_key d.idempotency_key)) _
            h in
        let (provider, a, h) = >>=-eq-ok (refused (parse_provider_id principal.provider_id)) _ h in
        let (external, b, h) =
          >>=-eq-ok (refused (parse_external_id d.external_transaction_id)) _ h in
        let (wallet, e, h) = >>=-eq-ok (refused (parse_uuid_id text d.wallet_id)) _ h in
        let (player, f, h) = >>=-eq-ok (refused (parse_uuid_id text d.player_id)) _ h in
        let (round, g, h) = >>=-eq-ok (refused (parse_external_id d.round_id)) _ h in
        let (game, i, h) = >>=-eq-ok (refused (parse_external_id d.game_id)) _ h in
        let (reference, k, h) =
          >>=-eq-ok (refused (parse_optional_external_id d.reference_external_transaction_id)) _
            h in
        let (amount, j, h) =
          >>=-eq-ok (map_err (λ x. money_refusal) (parse d.money.amount d.money.currency)) _ h in
        rw (← ok-injective h) (record {
          provider =
              ap (λ x. parse_provider_id x) (sym owned)
              ∙ accepted (parse_provider_id principal.provider_id) a;
          external = accepted (parse_external_id d.external_transaction_id) b;
          key =
              map_err-eq-ok (key_refusal d.idempotency_key)
                (parse_idempotency_key d.idempotency_key) c;
          wallet = accepted (parse_uuid_id text d.wallet_id) e;
          player = accepted (parse_uuid_id text d.player_id) f;
          round = accepted (parse_external_id d.round_id) g;
          game = accepted (parse_external_id d.game_id) i;
          amount = map_err-eq-ok (λ x. money_refusal) (parse d.money.amount d.money.currency) j;
          reference = accepted (parse_optional_external_id d.reference_external_transaction_id) k;
          kind = refl;
          correlated = refl;
        })

-- The queue makes a command of an envelope exactly when the envelope itself is in order, HTTP makes
-- the same command of a request with the same data, key and correlation from the provider that the data
-- names, and that command passes its contract checks, which the use case behind HTTP makes as well.
pub command_of-submit_wager_command :
    (text : UuidText) (zone_offset : ZoneOffset) (principal : Principal) (e : Envelope)
    (c : SubmitWagerCommand)
    → Owns principal e.content
    → (command_of text zone_offset e ≡ ok c) ↔ (
        (check_envelope zone_offset e ≡ ok tt)
        × (submit_wager_command text principal
              (request_of e.content)
              e.content.idempotency_key
              (correlation_of e)
            ≡ ok c)
        × (validate_submit_wager c ≡ ok tt))
unfolding command_of
command_of-submit_wager_command text zone_offset principal e c owned = (
  λ h.
      let (_, checked, h) = >>=-eq-ok (check_envelope zone_offset e) _ h in
      let (made, parsed, h) = >>=-eq-ok (parse_content text e.content (correlation_of e)) _ h in
      let (_, valid_command, h) = >>=-eq-ok (invalid (validate_submit_wager made)) _ h in
      rw (← ok-injective h) (
        checked,
        Parsed-submit_wager_command text e.content (correlation_of e) principal owned
            (parse_content-Parsed text e.content (correlation_of e) parsed),
        valid (validate_submit_wager made) valid_command,
      ),
  λ (checked, made, valid_command).
      rw
        (
          checked,
          Parsed-parse_content text e.content (correlation_of e)
              (submit_wager_command-Parsed text e.content (correlation_of e) principal owned made),
          valid_command,
        )
        refl,
)
