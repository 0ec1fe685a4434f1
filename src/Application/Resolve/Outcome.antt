-- ===== src/Application/Resolve/Outcome.antt =====
-- What a decision is (internal/application/resolve.go): exactly one outcome.
use backend_challenge_go_jun.Prelude.{
  ℕ, ◌≡◌, ◌⊎◌, ◌+◌, Bool, true, false, not, arith, Option, none, some, ok,
}
use backend_challenge_go_jun.Financial.{
  Kind, State, failure_valid, is_no_failure, is_permanent, no_failure,
}
use backend_challenge_go_jun.Financial.Wager.{WagerTransaction}
use backend_challenge_go_jun.Application.Resolve.{
  OperationPlan, reverse_in_state, reverse_amount, classify_reversal, win_in_state, classify_win,
  classify_kind, classify, is_none,
}

abbrev pub bit : Bool → ℕ
bit true = 1
bit false = 0

-- How many of the three outcomes a plan has.
abbrev pub outcomes : OperationPlan → ℕ
outcomes p = bit p.pending + bit (not (is_no_failure p.failure)) + bit (not (is_none p.movement))

-- The parts of a plan agree.
pub record IsCoherent (kind : Kind) (p : OperationPlan) : Type 0 where
  pub single : (outcomes p ≡ 1) ⊎ ((outcomes p ≡ 0) × (kind ≡ Kind.loss))
  pub coded :
      (p.failure ≡ no_failure)
      ⊎ ((failure_valid p.failure ≡ true) × (is_permanent p.failure ≡ false))
  pub claimed : p.claim ≡ true → is_none p.movement ≡ false

reverse_in_state-IsCoherent :
    (s : State) (t r : WagerTransaction) (c : Bool) {p : OperationPlan}
    → reverse_in_state s t r c ≡ ok p
    → (k : Kind) → IsCoherent k p
unfolding reverse_in_state
reverse_in_state-IsCoherent State.pending t r c h k = ground arith
reverse_in_state-IsCoherent State.pending_reference t r c h k = ground arith
reverse_in_state-IsCoherent State.rejected t r c h k = ground arith
reverse_in_state-IsCoherent State.failed t r c h k = ground arith
reverse_in_state-IsCoherent State.processed t r true h k = ground arith
reverse_in_state-IsCoherent State.processed t r false h k = ground arith
reverse_in_state-IsCoherent (State.other s) t r c h k = cc

reverse_amount-IsCoherent :
    (t r : WagerTransaction) (c : Bool) {p : OperationPlan}
    → reverse_amount t r c ≡ ok p
    → (k : Kind) → IsCoherent k p
unfolding reverse_amount
reverse_amount-IsCoherent t r c h k = ground (arith, reverse_in_state-IsCoherent r.state t r c)

classify_reversal-IsCoherent :
    (t : WagerTransaction) (ref : Option WagerTransaction) (c : Bool) {p : OperationPlan}
    → classify_reversal t ref c ≡ ok p
    → (k : Kind) → IsCoherent k p
unfolding classify_reversal
classify_reversal-IsCoherent t none c h k = ground arith
classify_reversal-IsCoherent t (some r) c h k = ground (arith, reverse_amount-IsCoherent t r c)

classify_win-IsCoherent :
    (t : WagerTransaction) (ref : Option WagerTransaction) {p : OperationPlan}
    → classify_win t ref ≡ ok p
    → (k : Kind) → IsCoherent k p
unfolding classify_win win_in_state
classify_win-IsCoherent t none h k = ground arith
classify_win-IsCoherent t (some r) h k = ground arith

classify_kind-IsCoherent :
    (k : Kind) (t : WagerTransaction) (ref : Option WagerTransaction) (c : Bool) {p : OperationPlan}
    → classify_kind k t ref c ≡ ok p
    → IsCoherent k p
unfolding classify_kind
classify_kind-IsCoherent Kind.opening t ref c h = cc
classify_kind-IsCoherent Kind.bet t ref c h = ground arith
classify_kind-IsCoherent Kind.win t ref c h = classify_win-IsCoherent t ref h Kind.win
classify_kind-IsCoherent Kind.loss t ref c h = ground arith
classify_kind-IsCoherent Kind.refund t ref c h = classify_reversal-IsCoherent t ref c h Kind.refund
classify_kind-IsCoherent Kind.rollback t ref c h =
    classify_reversal-IsCoherent t ref c h Kind.rollback
classify_kind-IsCoherent (Kind.other s) t ref c h = cc

-- Every plan that `classify` returns has exactly one of pending, a failure and a movement, or
-- none of them for a LOSS. Its failure is a documented rejection and never the permanent one,
-- and it claims a reversal only together with a movement.
pub classify-IsCoherent :
    (t : WagerTransaction) (ref : Option WagerTransaction) (claim_exists : Bool) {p : OperationPlan}
    → classify t ref claim_exists ≡ ok p
    → IsCoherent t.kind p
unfolding classify
classify-IsCoherent t ref c h = ground (arith, classify_kind-IsCoherent t.kind t ref c)
