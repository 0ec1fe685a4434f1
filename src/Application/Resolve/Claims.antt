-- ===== src/Application/Resolve/Claims.antt =====
-- A reference is reversed at most once (internal/application/resolve.go, planOperation of
-- service.go).
use backend_challenge_go_jun.Prelude.{
  ◌≡◌, ◌∙◌, sym, ap, refl, Bool, true, arith, Option, none, some, Result, ok, map_err, >>=-eq-ok,
  ok-injective, map_err-eq-ok,
}
use backend_challenge_go_jun.Financial.{Kind, State}
use backend_challenge_go_jun.Financial.Identifiers.{Uuid}
use backend_challenge_go_jun.Financial.Wager.{WagerTransaction}
use backend_challenge_go_jun.Application.{AppError, Sentinel, wrapped}
use backend_challenge_go_jun.Application.Resolve.{
  OperationPlan, reverse_in_state, reverse_amount, classify_reversal, classify_kind, classify,
  is_claiming_kind, is_none, claim_exists, keep_reference, plan_operation,
}

reverse_in_state-unmoved :
    (s : State) (t r : WagerTransaction) {p : OperationPlan}
    → reverse_in_state s t r true ≡ ok p
    → is_none p.movement ≡ true
unfolding reverse_in_state
reverse_in_state-unmoved State.pending t r h = ground arith
reverse_in_state-unmoved State.pending_reference t r h = ground arith
reverse_in_state-unmoved State.rejected t r h = ground arith
reverse_in_state-unmoved State.failed t r h = ground arith
reverse_in_state-unmoved State.processed t r h = ground arith
reverse_in_state-unmoved (State.other s) t r h = cc

reverse_amount-unmoved :
    (t r : WagerTransaction) {p : OperationPlan}
    → reverse_amount t r true ≡ ok p
    → is_none p.movement ≡ true
unfolding reverse_amount
reverse_amount-unmoved t r h = ground (arith, reverse_in_state-unmoved r.state t r)

classify_reversal-unmoved :
    (t r : WagerTransaction) {p : OperationPlan}
    → classify_reversal t (some r) true ≡ ok p
    → is_none p.movement ≡ true
unfolding classify_reversal
classify_reversal-unmoved t r h = ground (arith, reverse_amount-unmoved t r)

classify_kind-unmoved :
    (k : Kind) (t r : WagerTransaction) {p : OperationPlan}
    → is_claiming_kind k ≡ true
    → classify_kind k t (some r) true ≡ ok p
    → is_none p.movement ≡ true
unfolding classify_kind
classify_kind-unmoved Kind.opening t r k h = cc
classify_kind-unmoved Kind.bet t r k h = cc
classify_kind-unmoved Kind.win t r k h = cc
classify_kind-unmoved Kind.loss t r k h = cc
classify_kind-unmoved Kind.refund t r k h = classify_reversal-unmoved t r h
classify_kind-unmoved Kind.rollback t r k h = classify_reversal-unmoved t r h
classify_kind-unmoved (Kind.other s) t r k h = cc

classify-unmoved :
    (t r : WagerTransaction) {p : OperationPlan}
    → is_claiming_kind t.kind ≡ true
    → classify t (some r) true ≡ ok p
    → is_none p.movement ≡ true
unfolding classify
classify-unmoved t r k h = classify_kind-unmoved t.kind t r k h

keep_reference-movement :
    (p : OperationPlan) (ref : Option WagerTransaction)
    → (keep_reference p ref).movement ≡ p.movement
keep_reference-movement p none = refl
keep_reference-movement p (some r) = ground arith

looked_up :
    (by_reference : Uuid → Result AppError Bool) (t r : WagerTransaction)
    → is_claiming_kind t.kind ≡ true
    → r.state ≡ State.processed
    → by_reference r.id ≡ ok true
    → claim_exists by_reference t (some r) ≡ ok true
unfolding claim_exists
looked_up by_reference t r k s h = rw (k, s, h) refl

-- Once a claim on a processed reference is stored, no refund or rollback of it moves money, with
-- whatever identities, amount and kind it comes: the plan has no movement.
pub plan_operation-unmoved :
    (by_reference : Uuid → Result AppError Bool) (t r : WagerTransaction) {p : OperationPlan}
    → is_claiming_kind t.kind ≡ true
    → r.state ≡ State.processed
    → by_reference r.id ≡ ok true
    → plan_operation by_reference t (some r) ≡ ok p
    → is_none p.movement ≡ true
unfolding plan_operation
plan_operation-unmoved by_reference t r k s h e =
    let (exists, c, e) = >>=-eq-ok (claim_exists by_reference t (some r)) _ e in
    let known = ok-injective (sym c ∙ looked_up by_reference t r k s h) in
    let (plan, d, e) =
      >>=-eq-ok (map_err (wrapped Sentinel.invariant) (classify t (some r) exists)) _ e in
    let d = map_err-eq-ok (wrapped Sentinel.invariant) (classify t (some r) exists) d in
    let unmoved = classify-unmoved t r k (ap (λ b. classify t (some r) b) (sym known) ∙ d) in
    ap (λ q. is_none q.movement) (sym (ok-injective e))
    ∙ ap is_none (keep_reference-movement plan (some r))
    ∙ unmoved
