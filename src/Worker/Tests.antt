-- ===== src/Worker/Tests.antt =====
-- A pass over two references, of which the first cannot be recovered.
use backend_challenge_go_jun.Prelude.{◌+◌, ◌≡◌, refl, false, ok, arith, [], ◌∷◌}
use backend_challenge_go_jun.Prelude.Bytes.{codes}
use backend_challenge_go_jun.Prelude.Int.{pos}
use backend_challenge_go_jun.Financial.{Origin, Kind, State, no_failure}
use backend_challenge_go_jun.Financial.Wallet.{Wallet}
use backend_challenge_go_jun.Financial.Wager.{WagerTransaction}
use backend_challenge_go_jun.Application.Commands.{validate_resolve_pending_reference}
use backend_challenge_go_jun.Application.Ports.{Surroundings}
use backend_challenge_go_jun.Application.Service.Recovery.{
  resolve_within_tx, resolve_pending_reference,
}
use backend_challenge_go_jun.Application.Service.Memory.{Memory, memory}
use backend_challenge_go_jun.Worker.{Round, resolve_claimed}
use backend_challenge_go_jun.Worker.Deadlines.{failures, resolve_claimed-Expired}

abbrev opened : Wallet
opened = record {
  id = 7;
  player_id = 8;
  currency = codes "BRL";
  balance = record { minor_units = pos 1000; currency = codes "BRL" };
  version = pos 1;
  created_at = 100;
  updated_at = 100;
}

-- A refund whose bet has not come.
abbrev waiting : WagerTransaction
waiting = record {
  id = 21;
  origin = Origin.external;
  kind = Kind.refund;
  provider_id = codes "acme";
  external_transaction_id = codes "tx-1";
  idempotency_key = codes "key-1";
  digest_version = codes "sha256-jcs-v1";
  digest = codes "00ff";
  wallet_id = 7;
  player_id = 8;
  round_id = codes "round-1";
  game_id = codes "game-1";
  amount = record { minor_units = pos 250; currency = codes "BRL" };
  reference_external_transaction_id = codes "tx-0";
  reference_transaction_id = 0;
  state = State.pending_reference;
  failure_code = no_failure;
  observed_balance = record { minor_units = pos 0; currency = [] };
  reference_deadline = 250;
  created_at = 100;
  updated_at = 100;
}

-- Another one, of a wallet that is missing.
abbrev stray : WagerTransaction
stray = record waiting { id = 22; wallet_id = 99 }

abbrev store : Memory
store = record {
  wallets = opened ∷ [];
  transactions = waiting ∷ stray ∷ [];
  entries = [];
  claims = [];
  outbox = [];
  inbox = [];
}

abbrev around : Surroundings
around = record {
  now = 300;
  completed_at = 301;
  wallet_id = 30;
  transaction_id = 31;
  entry_id = 32;
  claim_id = 33;
  first_event_id = codes "e1";
  second_event_id = codes "e2";
  correlation = codes "c";
  uuid_string = λ id. codes "u";
  begin = ok tt;
  commit = ok tt;
  commit_kept = false;
}

abbrev round : Round Memory
round = record { canceled = false; around = around; others = λ s. s }

resolve_claimed-Expired_example :
    (resolve_claimed memory ((round, stray) ∷ (round, waiting) ∷ []) store).1
      + failures memory ((round, stray) ∷ (round, waiting) ∷ []) store
    ≡ 2
unfolding resolve_pending_reference resolve_within_tx validate_resolve_pending_reference
resolve_claimed-Expired_example =
    resolve_claimed-Expired memory ((round, stray) ∷ (round, waiting) ∷ []) store
      (refl, (stray, 0, refl, omega arith), (refl, (waiting, 0, refl, omega arith), tt))
