-- ===== src/Financial/Wager/Tests.antt =====
-- A wager transaction from its submission to its end.
use backend_challenge_go_jun.Prelude.{◌≡◌, ◌≤◌, ◌+◌, true, refl, ok, err, arith, []}
use backend_challenge_go_jun.Prelude.Bytes.{codes}
use backend_challenge_go_jun.Prelude.Int.{ℤ, pos}
use backend_challenge_go_jun.Money.{Money}
use backend_challenge_go_jun.Financial.{Origin, Kind, State, is_terminal, invalid_transition}
use backend_challenge_go_jun.Financial.Wager.{
  WagerTransaction, NewExternalTransactionParams, new_external_transaction, external_transaction,
  InternalOpeningParams, new_internal_opening, rehydrate_transaction, check_origin_metadata,
}
use backend_challenge_go_jun.Financial.Wager.Transitions.{mark_pending_reference, mark_processed}
use backend_challenge_go_jun.Financial.Wager.States.{as_pending_reference, as_processed}
use backend_challenge_go_jun.Financial.Wager.Lifecycle.{
  Step, waits, processes, Reach, here, next, HasSnapshot, operation_of, steps, rank,
  Reach_lifecycle, Step-updated_at,
}
use backend_challenge_go_jun.Financial.Wager.Rehydration.{rehydrate-Step, rehydrate-new_external}

abbrev cents : ℤ → Money
cents z = record { minor_units = z; currency = codes "BRL" }

abbrev bet_params : NewExternalTransactionParams
bet_params = record {
  id = 9;
  provider_id = codes "acme";
  external_transaction_id = codes "tx-1";
  idempotency_key = codes "key-1";
  digest_version = codes "sha256-jcs-v1";
  digest = codes "00ff";
  wallet_id = 7;
  player_id = 8;
  round_id = codes "round-1";
  game_id = codes "game-1";
  kind = Kind.bet;
  amount = cents (pos 250);
  reference_external_id = [];
  now = 100;
}

abbrev pending_bet : WagerTransaction
pending_bet = external_transaction bet_params

abbrev waiting_bet : WagerTransaction
waiting_bet = as_pending_reference pending_bet 1000 200

abbrev processed_bet : WagerTransaction
processed_bet = as_processed waiting_bet 5 (cents (pos 750))

abbrev opening_params : InternalOpeningParams
opening_params = record {
  id = 9;
  wallet_id = 7;
  player_id = 8;
  amount = cents (pos 250);
  now = 100;
}

submitted : new_external_transaction bet_params ≡ ok pending_bet
unfolding new_external_transaction
submitted = refl

abbrev opening : WagerTransaction
opening =
    record (external_transaction (record {
      id = 9;
      provider_id = [];
      external_transaction_id = [];
      idempotency_key = [];
      digest_version = [];
      digest = [];
      wallet_id = 7;
      player_id = 8;
      round_id = [];
      game_id = [];
      kind = Kind.opening;
      amount = cents (pos 250);
      reference_external_id = [];
      now = 100;
    })) { origin = Origin.internal }

opened : new_internal_opening opening_params ≡ ok opening
unfolding new_internal_opening
opened = refl

waited : Step pending_bet waiting_bet
unfolding mark_pending_reference
waited = waits 1000 200 refl

processed : Step waiting_bet processed_bet
unfolding mark_processed
processed = processes 5 (cents (pos 750)) 300 refl

abbrev lifecycle : Reach pending_bet processed_bet
lifecycle = next (next here waited) processed

rejected_twice :
    mark_processed processed_bet 5 (cents (pos 750)) 400
    ≡ err (invalid_transition State.processed State.processed)
unfolding mark_processed
rejected_twice = refl

Reach_lifecycle_example :
    HasSnapshot processed_bet
    × (operation_of processed_bet ≡ operation_of pending_bet)
    × (steps lifecycle + rank State.processed ≤ rank State.pending)
    × (is_terminal State.pending ≡ true → processed_bet ≡ pending_bet)
Reach_lifecycle_example = Reach_lifecycle lifecycle (refl, refl)

Step-updated_at_example : processed_bet.updated_at ≡ waiting_bet.updated_at
Step-updated_at_example = Step-updated_at processed refl

read_back : rehydrate_transaction waiting_bet ≡ ok waiting_bet
unfolding rehydrate_transaction check_origin_metadata
read_back = refl

rehydrate-Step_example : rehydrate_transaction processed_bet ≡ ok processed_bet
rehydrate-Step_example = rehydrate-Step read_back processed (ground arith)

rehydrate-new_external_example : rehydrate_transaction pending_bet ≡ ok pending_bet
rehydrate-new_external_example = rehydrate-new_external bet_params submitted
