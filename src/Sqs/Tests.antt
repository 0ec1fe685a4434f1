-- ===== src/Sqs/Tests.antt =====
-- A message with a bet, delivered twice.
use backend_challenge_go_jun.Prelude.{◌≡◌, ◌↔◌, refl, true, false, some, none, ok, [], ◌∷◌, Option}
use backend_challenge_go_jun.Prelude.Bytes.{Bytes, codes, bytes_eq}
use backend_challenge_go_jun.Prelude.Int.{pos, ◌+ℤ◌, ◌-ℤ◌, wrap64}
use backend_challenge_go_jun.Money.{add, sub, neg, equal, less_than}
use backend_challenge_go_jun.Money.Format.{parse}
use backend_challenge_go_jun.Financial.{kind_of_string}
use backend_challenge_go_jun.Financial.Identifiers.{
  Uuid, UuidText, parse_uuid_id, parse_provider_id, parse_external_id, parse_idempotency_key,
  parse_optional_external_id,
}
use backend_challenge_go_jun.Financial.Wallet.{Wallet, debit}
use backend_challenge_go_jun.Financial.Ledger.{new_ledger_entry}
use backend_challenge_go_jun.Financial.Wager.{new_external_transaction}
use backend_challenge_go_jun.Financial.Wager.Transitions.{mark_processed}
use backend_challenge_go_jun.Event.{new_envelope}
use backend_challenge_go_jun.Application.Commands.{
  SubmitWagerCommand, validate_submit_wager, validate_inbox_delivery,
}
use backend_challenge_go_jun.Application.Resolve.{plan_operation}
use backend_challenge_go_jun.Application.Ports.{Surroundings}
use backend_challenge_go_jun.Application.Service.{emit_processed, emit_balance_changed}
use backend_challenge_go_jun.Application.Service.Execution.{execute_plan}
use backend_challenge_go_jun.Application.Service.Submission.{Attempt, submit_wager_from_inbox}
use backend_challenge_go_jun.Application.Service.Memory.{Memory, memory}
use backend_challenge_go_jun.Application.Service.MemoryInbox.{memory-KeepsInbox}
use backend_challenge_go_jun.Sqs.{Envelope, command_of}
use backend_challenge_go_jun.Sqs.Consumer.{
  Context, Message, UseCase, finished, process, delete_message, count_duplicate,
}
use backend_challenge_go_jun.Sqs.Delivery.{deletes, Acknowledged, process-deletes}
use backend_challenge_go_jun.Sqs.Redelivery.{inbox_use_case, at_time, process-redelivered}

-- Texts of one byte stand for the identities.
abbrev parsed : Bytes → Option Uuid
parsed (id ∷ []) = some id
parsed _ = none

abbrev text : UuidText
text = record {
  parse_uuid = λ raw. parsed raw;
  uuid_string = λ id. id ∷ [];
  parse-string = λ id. refl;
}

abbrev brl : Bytes
brl = codes "BRL"

abbrev opened : Wallet
opened = record {
  id = 7;
  player_id = 8;
  currency = brl;
  balance = record { minor_units = pos 1000; currency = brl };
  version = pos 1;
  created_at = 100;
  updated_at = 100;
}

abbrev store : Memory
store = record {
  wallets = opened ∷ [];
  transactions = [];
  entries = [];
  claims = [];
  outbox = [];
  inbox = [];
}

abbrev around : Surroundings
around = record {
  now = 200;
  completed_at = 201;
  wallet_id = 20;
  transaction_id = 21;
  entry_id = 22;
  claim_id = 23;
  first_event_id = codes "e1";
  second_event_id = codes "e2";
  correlation = codes "c";
  uuid_string = λ id. codes "u";
  begin = ok tt;
  commit = ok tt;
  commit_kept = false;
}

abbrev envelope : Envelope
envelope = record {
  message_id = codes "m-1";
  message_type = codes "WagerTransactionRequested";
  occurred_at = codes "2026-01-01T00:00:00Z";
  correlation_id = [];
  content = record {
    provider_id = codes "acme";
    external_transaction_id = codes "tx-1";
    idempotency_key = codes "key-1";
    player_id = 8 ∷ [];
    wallet_id = 7 ∷ [];
    round_id = codes "round-1";
    game_id = codes "game-1";
    kind = codes "BET";
    money = record { amount = codes "2.50"; currency = brl };
    reference_external_transaction_id = [];
  };
}

abbrev context : Context
context = record {
  text = text;
  zone_offset = λ raw. some (pos 0);
  unmarshal = λ raw. some envelope;
  digest = λ body. codes "00112233445566778899aabbccddeeff00112233445566778899aabbccddeeff";
  provider_for_sender = λ sender. some (codes "acme");
  consumer_name = codes "wagers";
  started = 200;
  canceled = false;
  deleted = true;
}

abbrev message : Message
message = record {
  receipt_handle = codes "h";
  body = codes "{}";
  sender_id = codes "s";
  approximate_receive_count = codes "1";
}

abbrev attempt : Attempt Memory
attempt = record { around = around; others = λ s. s }

abbrev project : SubmitWagerCommand → Bytes
project c = codes "00ff"

abbrev use_case : UseCase Memory
use_case = inbox_use_case memory project (attempt ∷ [])

deleted_first : deletes (process context use_case finished message store).1 ≡ true
unfolding process command_of parse kind_of_string parse_uuid_id parse_provider_id parse_external_id
    parse_idempotency_key parse_optional_external_id submit_wager_from_inbox validate_submit_wager
    validate_inbox_delivery new_external_transaction plan_operation execute_plan debit less_than sub
    neg add mark_processed new_ledger_entry new_envelope emit_processed emit_balance_changed equal
    ◌+ℤ◌ ◌-ℤ◌ wrap64 bytes_eq
deleted_first = refl

process-deletes_example :
    (deletes (process context use_case finished message store).1 ≡ true)
    ↔ Acknowledged context use_case finished message store
        (process context use_case finished message store).0
process-deletes_example = process-deletes context use_case message store finished

process-redelivered_example :
    process
      (at_time context 300 true true)
      use_case
      finished
      message
      (process context use_case finished message store).0
    ≡ (
      (process context use_case finished message store).0,
      delete_message (codes "h") ∷ count_duplicate ∷ [],
    )
process-redelivered_example =
    process-redelivered memory project memory-KeepsInbox context message (attempt ∷ []) [] around
      finished store 300 true deleted_first refl refl refl
