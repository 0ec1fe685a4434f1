-- ===== src/Application/Tests.antt =====
-- A rollback of a bet, a reconciliation and the retry delays on concrete inputs.
use backend_challenge_go_jun.Prelude.{
  ◌≡◌, ◌≤◌, ◌+◌, ◌*◌, ◌/◌, ◌^◌, ◌↔◌, true, false, refl, some, ok, arith, [], ◌∷◌, length,
}
use backend_challenge_go_jun.Prelude.Bytes.{codes, bytes_eq}
use backend_challenge_go_jun.Prelude.Int.{ℤ, pos, ◌+ℤ◌, ◌-ℤ◌, wrap64}
use backend_challenge_go_jun.Money.{Money, no_money, equal, add, sub, neg, zero_money}
use backend_challenge_go_jun.Financial.{FailureCode, Origin, Kind, State, Direction, no_failure}
use backend_challenge_go_jun.Financial.Wager.{WagerTransaction, new_external_transaction}
use backend_challenge_go_jun.Application.Commands.{
  SubmitWagerCommand, validate_submit_wager, external_params, validate_submit_wager-accepted,
}
use backend_challenge_go_jun.Application.Resolve.{classify, is_claiming_kind}
use backend_challenge_go_jun.Application.Resolve.Claims.{plan_operation-unmoved}
use backend_challenge_go_jun.Application.Resolve.{
  OperationPlan, failure_plan, is_none, plan_operation,
}
use backend_challenge_go_jun.Application.Resolve.Outcome.{IsCoherent, classify-IsCoherent}
use backend_challenge_go_jun.Application.Resolve.Reversals.{
  IsReversible, reversal_plan, classify-reverses, reversible-classify,
}
use backend_challenge_go_jun.Application.Backoff.{second, reference_backoff, reference_backoff_cap}
use backend_challenge_go_jun.Application.Backoff.Bounds.{min, reference_backoff_bounds}
use backend_challenge_go_jun.Application.Reconciliation.{
  ReconciliationSnapshot, ReconciliationReport, report_on,
}
use backend_challenge_go_jun.Application.Reconciliation.Balance.{ledger_sum, report_on_lem}

abbrev cents : ℤ → Money
cents z = record { minor_units = z; currency = codes "BRL" }

abbrev rollback : SubmitWagerCommand
rollback = record {
  provider_id = codes "acme";
  external_transaction_id = codes "tx-2";
  idempotency_key = codes "key-2";
  wallet_id = 7;
  player_id = 8;
  round_id = codes "round-1";
  game_id = codes "game-1";
  kind = Kind.rollback;
  amount = cents (pos 250);
  reference_external_id = codes "tx-1";
  correlation_id = [];
}

valid : validate_submit_wager rollback ≡ ok tt
unfolding validate_submit_wager
valid = refl

validate_submit_wager-accepted_example :
    (t : WagerTransaction) × (new_external_transaction
        (external_params rollback 10 (codes "v1") (codes "00ff") 300)
      ≡ ok t)
    × (t.state ≡ State.pending)
    × (t.kind ≡ Kind.rollback)
    × (t.amount ≡ cents (pos 250))
    × (t.wallet_id ≡ 7)
validate_submit_wager-accepted_example =
    validate_submit_wager-accepted rollback 10 (codes "v1") (codes "00ff") 300 valid refl refl refl
      refl

abbrev reversal : WagerTransaction
reversal = record {
  id = 10;
  origin = Origin.external;
  kind = Kind.rollback;
  provider_id = codes "acme";
  external_transaction_id = codes "tx-2";
  idempotency_key = codes "key-2";
  digest_version = codes "v1";
  digest = codes "00ff";
  wallet_id = 7;
  player_id = 8;
  round_id = codes "round-1";
  game_id = codes "game-1";
  amount = cents (pos 250);
  reference_external_transaction_id = codes "tx-1";
  reference_transaction_id = 0;
  state = State.pending;
  failure_code = no_failure;
  observed_balance = no_money;
  reference_deadline = 0;
  created_at = 300;
  updated_at = 300;
}

abbrev bet : WagerTransaction
bet = record reversal {
  id = 9;
  kind = Kind.bet;
  external_transaction_id = codes "tx-1";
  reference_external_transaction_id = [];
  state = State.processed;
  observed_balance = cents (pos 750);
}

planned : classify reversal (some bet) false ≡ ok (reversal_plan reversal bet)
unfolding classify equal bytes_eq
planned = refl

classify-IsCoherent_example : IsCoherent Kind.rollback (reversal_plan reversal bet)
classify-IsCoherent_example = classify-IsCoherent reversal (some bet) false planned

classify-reverses_example :
    (r : WagerTransaction) × (some bet ≡ some r)
    × (is_claiming_kind Kind.rollback ≡ true)
    × IsReversible reversal r
    × (false ≡ false)
    × (reversal_plan reversal bet ≡ reversal_plan reversal r)
classify-reverses_example = classify-reverses reversal (some bet) false planned refl

reversible-classify_example : classify reversal (some bet) false ≡ ok (reversal_plan reversal bet)
reversible-classify_example = reversible-classify reversal bet refl refl (record {
  kinds = refl;
  corresponds = record { wallet = refl; player = refl; round = refl; currency = refl };
  amounts = refl;
  processed = refl;
})

reference_backoff_bounds_example :
    let delay = min (second * 2 ^ 3) reference_backoff_cap in
    (delay ≤ reference_backoff (pos 3) (codes "tx"))
    × (reference_backoff (pos 3) (codes "tx") ≤ delay + delay / 10)
reference_backoff_bounds_example = reference_backoff_bounds (pos 3) (codes "tx")

abbrev snapshot : ReconciliationSnapshot
snapshot = record {
  balance = cents (pos 750);
  entries =
      record { direction = Direction.credit; amount = cents (pos 1000) }
      ∷ record { direction = Direction.debit; amount = cents (pos 250) }
      ∷ [];
}

abbrev consistent_report : ReconciliationReport
consistent_report = record {
  wallet_id = 7;
  stored_balance = cents (pos 750);
  calculated_balance = cents (pos 750);
  difference = cents (pos 0);
  consistent = true;
  checked_entries = 2;
}

reported : report_on 7 snapshot ≡ ok consistent_report
unfolding report_on zero_money add sub neg ◌+ℤ◌ ◌-ℤ◌ wrap64 bytes_eq
reported = refl

report_on_lem_example :
    (pos 750 ≡ ledger_sum snapshot.entries)
    × (pos 0 ≡ pos 750 -ℤ ledger_sum snapshot.entries)
    × ((true ≡ true) ↔ (pos 750 ≡ ledger_sum snapshot.entries))
    × (2 ≡ length snapshot.entries)
report_on_lem_example =
    report_on_lem 7 snapshot (ground arith) (ground arith, (ground arith, tt)) reported

abbrev reversed : OperationPlan
reversed = record (failure_plan FailureCode.already_reversed) { reference_id = 9 }

planned_again : plan_operation (λ id. ok true) reversal (some bet) ≡ ok reversed
unfolding plan_operation equal bytes_eq
planned_again = refl

plan_operation-unmoved_example : is_none reversed.movement ≡ true
plan_operation-unmoved_example =
    plan_operation-unmoved (λ id. ok true) reversal bet refl refl refl planned_again
