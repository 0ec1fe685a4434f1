-- ===== src/Application/Service/Tests.antt =====
-- A bet on a wallet of a store in memory, submitted twice.
use backend_challenge_go_jun.Prelude.{◌≡◌, false, refl, ok, err, Result, arith, [], ◌∷◌}
use backend_challenge_go_jun.Prelude.Bytes.{Bytes, codes, bytes_eq}
use backend_challenge_go_jun.Prelude.Int.{ℤ, pos, ◌+ℤ◌, ◌-ℤ◌, wrap64}
use backend_challenge_go_jun.Money.{Money, add, sub, neg, equal, less_than}
use backend_challenge_go_jun.Financial.{Kind, Direction, State}
use backend_challenge_go_jun.Financial.Wallet.{Wallet, debit}
use backend_challenge_go_jun.Financial.Wallet.Movement.{IsValid, Movable}
use backend_challenge_go_jun.Financial.Ledger.{new_ledger_entry}
use backend_challenge_go_jun.Financial.Wager.{WagerTransaction, new_external_transaction}
use backend_challenge_go_jun.Financial.Wager.Transitions.{mark_processed, mark_rejected}
use backend_challenge_go_jun.Event.{new_envelope}
use backend_challenge_go_jun.Application.{AppError}
use backend_challenge_go_jun.Application.Commands.{SubmitWagerCommand}
use backend_challenge_go_jun.Application.Resolve.{
  Movement, OperationPlan, movement_plan, plan_operation,
}
use backend_challenge_go_jun.Application.Ports.{Surroundings}
use backend_challenge_go_jun.Application.Service.{
  WagerResult, emit_processed, emit_rejected, emit_balance_changed, result_of,
}
use backend_challenge_go_jun.Application.Service.Execution.{apply_movement, execute_plan, reject}
use backend_challenge_go_jun.Application.Service.Submission.{submit_within_tx, load_reference}
use backend_challenge_go_jun.Application.Service.Recovery.{resolve_within_tx}
use backend_challenge_go_jun.Application.Service.Deadlines.{Ended, resolve_within_tx-Ended}
use backend_challenge_go_jun.Application.Service.Memory.{Memory, memory}
use backend_challenge_go_jun.Application.Service.Replay.{submitted}
use backend_challenge_go_jun.Application.Service.Movements.{Booked, apply_movement-Booked}

abbrev brl : Bytes
brl = codes "BRL"

abbrev cents : ℤ → Money
cents z = record { minor_units = z; currency = brl }

abbrev opened : Wallet
opened = record {
  id = 7;
  player_id = 8;
  currency = brl;
  balance = cents (pos 1000);
  version = pos 1;
  created_at = 100000;
  updated_at = 100000;
}

abbrev store : Memory
store = record {
  wallets = opened ∷ [];
  transactions = [];
  entries = [];
  claims = [];
  outbox = [];
  inbox = [];
}

abbrev bet : SubmitWagerCommand
bet = record {
  provider_id = codes "acme";
  external_transaction_id = codes "tx-1";
  idempotency_key = codes "key-1";
  wallet_id = 7;
  player_id = 8;
  round_id = codes "round-1";
  game_id = codes "game-1";
  kind = Kind.bet;
  amount = cents (pos 250);
  reference_external_id = [];
  correlation_id = codes "c";
}

abbrev around : Surroundings
around = record {
  now = 200000;
  completed_at = 201000;
  wallet_id = 20;
  transaction_id = 21;
  entry_id = 22;
  claim_id = 23;
  first_event_id = codes "e1";
  second_event_id = codes "e2";
  correlation = codes "c";
  uuid_string = λ id. codes "u";
  begin = ok tt;
  commit = ok tt;
  commit_kept = false;
}

abbrev later : Surroundings
later = record around { now = 300000; transaction_id = 31; entry_id = 32 }

abbrev answer_of : Result AppError (WagerResult × Memory) → WagerResult × Memory
answer_of (ok answer) = answer
answer_of (err e) = (result_of (submitted around bet []) false, store)

abbrev first_answer : WagerResult × Memory
first_answer = answer_of (submit_within_tx memory around bet (codes "00ff") store)

charged : first_answer.0.observed_balance ≡ cents (pos 750)
unfolding submit_within_tx new_external_transaction plan_operation execute_plan debit less_than sub
    neg add mark_processed new_ledger_entry new_envelope emit_processed emit_balance_changed equal
    ◌+ℤ◌ ◌-ℤ◌ wrap64 bytes_eq
charged = refl

-- The store after another wallet was opened.
abbrev now : Memory
now = record first_answer.1 {
  wallets = record opened { id = 9; player_id = 10 } ∷ first_answer.1.wallets;
}

abbrev pending_bet : WagerTransaction
pending_bet = submitted around bet (codes "00ff")

abbrev move : Movement
move = record { direction = Direction.debit; amount = cents (pos 250) }

abbrev plan : OperationPlan
plan = movement_plan Direction.debit (cents (pos 250))

abbrev moved_answer : WagerResult × Memory
moved_answer = answer_of (apply_movement memory around opened pending_bet plan move store)

moved : apply_movement memory around opened pending_bet plan move store ≡ ok moved_answer
unfolding apply_movement debit less_than sub neg add mark_processed new_ledger_entry new_envelope
    emit_processed emit_balance_changed equal ◌+ℤ◌ ◌-ℤ◌ wrap64 bytes_eq
moved = refl

opened-IsValid : IsValid opened
opened-IsValid = record {
  identified = ground arith;
  owned = ground arith;
  initialized = refl;
  same_currency = refl;
  nonnegative = ground arith;
  balance_range = ground arith;
  versioned = ground arith;
  version_range = ground arith;
  created = ground arith;
  ordered = ground arith;
}

movable : Movable opened (cents (pos 250)) 200000
movable = record {
  same_currency = refl;
  positive = ground arith;
  range = ground arith;
  timed = ground arith;
}

apply_movement-Booked_example : Booked memory around opened pending_bet plan move store moved_answer
apply_movement-Booked_example =
    apply_movement-Booked memory around opened pending_bet plan move store opened-IsValid movable
      moved

-- A refund whose bet has not come until the deadline.
abbrev waiting : WagerTransaction
waiting = record pending_bet {
  kind = Kind.refund;
  reference_external_transaction_id = codes "tx-0";
  state = State.pending_reference;
  reference_deadline = 250000;
}

abbrev waiting_store : Memory
waiting_store = record store { transactions = waiting ∷ [] }

abbrev expired_answer : WagerResult × Memory
expired_answer = answer_of (resolve_within_tx memory later 21 waiting_store)

expired : resolve_within_tx memory later 21 waiting_store ≡ ok expired_answer
unfolding resolve_within_tx plan_operation mark_rejected new_envelope emit_rejected load_reference
    reject bytes_eq
expired = refl

resolve_within_tx-Ended_example : Ended expired_answer
resolve_within_tx-Ended_example =
    resolve_within_tx-Ended memory later 21 waiting 0 waiting_store refl (omega arith) expired
