-- ===== src/Http/Tests.antt =====
-- Requests over HTTP: of a provider, of the same data over the queue, and of one that is refused.
use backend_challenge_go_jun.Prelude.{◌≡◌, ◌↔◌, refl, false, some, none, ok, err, [], ◌∷◌, Option}
use backend_challenge_go_jun.Prelude.Bytes.{Bytes, codes, bytes_eq}
use backend_challenge_go_jun.Prelude.Int.{pos}
use backend_challenge_go_jun.Money.Format.{parse}
use backend_challenge_go_jun.Financial.{Origin, Kind, State, no_failure, kind_of_string}
use backend_challenge_go_jun.Financial.Identifiers.{
  Uuid, UuidText, parse_uuid_id, parse_provider_id, parse_external_id, parse_idempotency_key,
  parse_optional_external_id,
}
use backend_challenge_go_jun.Application.Commands.{SubmitWagerCommand, validate_submit_wager}
use backend_challenge_go_jun.Application.Ports.{Surroundings}
use backend_challenge_go_jun.Application.Service.{WagerResult}
use backend_challenge_go_jun.Application.Service.Submission.{Attempt, submit_wager_transaction}
use backend_challenge_go_jun.Application.Service.Memory.{Memory, memory}
use backend_challenge_go_jun.Sqs.{Data, Envelope, check_envelope, command_of}
use backend_challenge_go_jun.Http.{
  new_transaction_response, of_application, refusal, application_refusal,
}
use backend_challenge_go_jun.Application.{ErrorCode}
use backend_challenge_go_jun.Http.Access.{
  Principal, Entitled, submit_wager, admit, has_scope, scope_wagering_write,
}
use backend_challenge_go_jun.Http.Access.Guards.{admit-Admitted}
use backend_challenge_go_jun.Http.Handler.{
  submit_wager_command, handle_submit_wager, handle_transaction_by_id, is_internal,
}
use backend_challenge_go_jun.Http.Ingress.{request_of, command_of-submit_wager_command}
use backend_challenge_go_jun.Http.Replies.{handle_transaction_by_id-own}

abbrev parsed : Bytes → Option Uuid
parsed (id ∷ []) = some id
parsed _ = none

abbrev text : UuidText
text = record {
  parse_uuid = λ raw. parsed raw;
  uuid_string = λ id. id ∷ [];
  parse-string = λ id. refl;
}

abbrev caller : Principal
caller = record {
  subject = codes "client";
  provider_id = codes "acme";
  scopes = scope_wagering_write ∷ [];
}

admitted : admit submit_wager (ok caller) ≡ ok (some caller)
unfolding admit has_scope bytes_eq
admitted = refl

admit-Admitted_example : Entitled submit_wager (ok caller) caller
admit-Admitted_example = admit-Admitted submit_wager (ok caller) admitted

abbrev content : Data
content = record {
  provider_id = codes "acme";
  external_transaction_id = codes "tx-1";
  idempotency_key = codes "key-1";
  player_id = 8 ∷ [];
  wallet_id = 7 ∷ [];
  round_id = codes "round-1";
  game_id = codes "game-1";
  kind = codes "BET";
  money = record { amount = codes "2.50"; currency = codes "BRL" };
  reference_external_transaction_id = [];
}

abbrev envelope : Envelope
envelope = record {
  message_id = codes "m-1";
  message_type = codes "WagerTransactionRequested";
  occurred_at = codes "2026-01-01T00:00:00Z";
  correlation_id = [];
  content = content;
}

abbrev command : SubmitWagerCommand
command = record {
  provider_id = codes "acme";
  external_transaction_id = codes "tx-1";
  idempotency_key = codes "key-1";
  wallet_id = 7;
  player_id = 8;
  round_id = codes "round-1";
  game_id = codes "game-1";
  kind = Kind.bet;
  amount = record { minor_units = pos 250; currency = codes "BRL" };
  reference_external_id = [];
  correlation_id = codes "m-1";
}

understood : command_of text (λ raw. some (pos 0)) envelope ≡ ok command
unfolding command_of parse kind_of_string parse_uuid_id parse_provider_id parse_external_id
    parse_idempotency_key parse_optional_external_id validate_submit_wager bytes_eq
understood = refl

command_of-submit_wager_command_example :
    (command_of text (λ raw. some (pos 0)) envelope ≡ ok command) ↔ (
      (check_envelope (λ raw. some (pos 0)) envelope ≡ ok tt)
      × (submit_wager_command text caller (request_of content) (codes "key-1") (codes "m-1")
          ≡ ok command)
      × (validate_submit_wager command ≡ ok tt))
command_of-submit_wager_command_example =
    command_of-submit_wager_command text (λ raw. some (pos 0)) caller envelope command refl

abbrev result : WagerResult
result = record {
  transaction_id = 21;
  origin = Origin.external;
  kind = Kind.bet;
  provider_id = codes "acme";
  external_id = codes "tx-1";
  wallet_id = 7;
  player_id = 8;
  round_id = codes "round-1";
  game_id = codes "game-1";
  amount = record { minor_units = pos 250; currency = codes "BRL" };
  reference_external = [];
  state = State.pending_reference;
  observed_balance = record { minor_units = pos 0; currency = [] };
  failure_code = no_failure;
  reference_deadline = 0;
  idempotent_replay = false;
  created_at = 200;
  updated_at = 200;
}

shown :
    handle_transaction_by_id text (λ id. ok result) (some caller) (21 ∷ [])
    ≡ ok (200, new_transaction_response text.uuid_string result)
unfolding handle_transaction_by_id parse_uuid_id bytes_eq
shown = refl

handle_transaction_by_id-own_example :
    ((new_transaction_response text.uuid_string result).provider_id ≡ codes "acme")
    × (is_internal (new_transaction_response text.uuid_string result).origin ≡ false)
handle_transaction_by_id-own_example =
    handle_transaction_by_id-own text (λ id. ok result) caller (21 ∷ []) refl shown

abbrev store : Memory
store = record {
  wallets = [];
  transactions = [];
  entries = [];
  claims = [];
  outbox = [];
  inbox = [];
}

abbrev around : Surroundings
around = record {
  now = 200;
  completed_at = 201;
  wallet_id = 20;
  transaction_id = 21;
  entry_id = 22;
  claim_id = 23;
  first_event_id = codes "e1";
  second_event_id = codes "e2";
  correlation = codes "c";
  uuid_string = λ id. codes "u";
  begin = ok tt;
  commit = ok tt;
  commit_kept = false;
}

abbrev attempt : Attempt Memory
attempt = record { around = around; others = λ s. s }

-- The wallet of the bet is not in the store.
missed :
    handle_submit_wager text
      (λ c. submit_wager_transaction memory (ok tt) (attempt ∷ []) c (codes "00ff"))
      (some caller)
      (ok (request_of content))
      (codes "key-1")
      (codes "c")
      store
    ≡ (store, err (refusal 404 (of_application ErrorCode.not_found)))
unfolding handle_submit_wager parse kind_of_string parse_uuid_id parse_provider_id parse_external_id
    parse_idempotency_key parse_optional_external_id submit_wager_transaction validate_submit_wager
    application_refusal bytes_eq
missed = refl
