-- ===== src/Financial/Wager/States.antt =====
-- The lifecycle of a transaction: which transitions there are, and what every reachable
-- transaction looks like (internal/domain/financial/wager.go).
use backend_challenge_go_jun.Prelude.{
  ◌<◌, ◌≡◌, sym, refl, ◌≢◌, ◌⊎◌, inl, inr, true, false, not, ◌||◌, arith, ltb, Bool, ok, reject_if,
  >>=-eq-ok, ok-injective,
}
use backend_challenge_go_jun.Prelude.Int.{pos, ◌≤ℤ◌}
use backend_challenge_go_jun.Money.{Money, is_initialized}
use backend_challenge_go_jun.Financial.{
  Time, is_zero_time, is_pending, is_permanent, State, FailureCode, failure_valid, invalid_input,
  invalid_transition, uninitialized,
}
use backend_challenge_go_jun.Financial.Identifiers.{Uuid}
use backend_challenge_go_jun.Financial.Wager.{WagerTransaction}
use backend_challenge_go_jun.Financial.Wager.Transitions.{
  check_transaction, check_source_state, transition, validate_observation, mark_pending_reference,
  mark_processed, mark_rejected, mark_failed,
}

-- A state from which a terminal state may be reached.
abbrev pub IsOpen : State → Type 0
IsOpen s = (s ≡ State.pending) ⊎ (s ≡ State.pending_reference)

check_source_state-IsOpen : (s next : State) → check_source_state s next ≡ ok tt → IsOpen s
unfolding check_source_state
check_source_state-IsOpen State.pending next h = inl refl
check_source_state-IsOpen State.pending_reference next h = inr refl
check_source_state-IsOpen State.processed next h = cc
check_source_state-IsOpen State.rejected next h = cc
check_source_state-IsOpen State.failed next h = cc
check_source_state-IsOpen (State.other s) next h = cc

pending_of :
    (s : State)
    → reject_if (not (is_pending s)) (invalid_transition s State.pending_reference) ≡ ok tt
    → s ≡ State.pending
pending_of s h = ground arith

business_of :
    (valid permanent : Bool)
    → reject_if (not valid || permanent) invalid_input ≡ ok tt
    → (valid ≡ true) × (permanent ≡ false)
business_of valid permanent h = ground arith

-- What a successful `transition` has checked.
transition_inv :
    (t : WagerTransaction) (next : State) (now : Time)
    → transition t next now ≡ ok tt
    → IsOpen t.state × (now ≢ 0) × (check_transaction t ≡ ok tt)
unfolding transition
transition_inv t next now h =
    let (_, whole, rest) = >>=-eq-ok (check_transaction t) _ h in
    let (_, timed, moved) = >>=-eq-ok (reject_if (is_zero_time now) invalid_input) _ rest in
    (check_source_state-IsOpen t.state next moved, ground arith, whole)

observation_inv :
    (r : Uuid) (b : Money)
    → validate_observation r b ≡ ok tt
    → (is_initialized b ≡ true) × (pos 0 ≤ℤ b.minor_units)
unfolding validate_observation
observation_inv r b h = ground arith

abbrev pub as_pending_reference : WagerTransaction → Time → Time → WagerTransaction
as_pending_reference t deadline now = record t {
  state = State.pending_reference;
  reference_deadline = deadline;
  updated_at = now;
}

abbrev pub as_processed : WagerTransaction → Uuid → Money → WagerTransaction
as_processed t r b = record t {
  state = State.processed;
  reference_transaction_id = r;
  observed_balance = b;
}

abbrev pub as_rejected : WagerTransaction → Uuid → FailureCode → Money → WagerTransaction
as_rejected t r code b = record t {
  state = State.rejected;
  reference_transaction_id = r;
  failure_code = code;
  observed_balance = b;
}

abbrev pub as_failed : WagerTransaction → Money → WagerTransaction
as_failed t b = record t {
  state = State.failed;
  failure_code = FailureCode.permanent_infrastructure;
  observed_balance = b;
}

-- The outcome of each successful transition, and what it requires.
pub mark_pending_reference_inv :
    (t : WagerTransaction) (deadline now : Time) {u : WagerTransaction}
    → mark_pending_reference t deadline now ≡ ok u
    → (t.state ≡ State.pending) × (now < deadline) × (u ≡ as_pending_reference t deadline now)
unfolding mark_pending_reference
mark_pending_reference_inv t deadline now h =
    let (_, whole, rest) = >>=-eq-ok (check_transaction t) _ h in
    let (_, first, rest') =
      >>=-eq-ok
        (reject_if (not (is_pending t.state)) (invalid_transition t.state State.pending_reference))
        _ rest in
    let (_, timed, rest'') =
      >>=-eq-ok (reject_if (is_zero_time deadline || is_zero_time now) invalid_input) _ rest' in
    let (_, later, done) = >>=-eq-ok (reject_if (not (ltb now deadline)) invalid_input) _ rest'' in
    (pending_of (t.state) first, ground arith, sym (ok-injective done))

pub mark_processed_inv :
    (t : WagerTransaction) (r : Uuid) (b : Money) (now : Time) {u : WagerTransaction}
    → mark_processed t r b now ≡ ok u
    → IsOpen t.state
      × (is_initialized b ≡ true)
      × (pos 0 ≤ℤ b.minor_units)
      × (u ≡ as_processed t r b)
unfolding mark_processed
mark_processed_inv t r b now h =
    let (_, moved, rest) = >>=-eq-ok (transition t State.processed now) _ h in
    let (_, seen, done) = >>=-eq-ok (validate_observation r b) _ rest in
    let (set, nonneg) = observation_inv r b seen in
    ((transition_inv t State.processed now moved).0, set, nonneg, sym (ok-injective done))

pub mark_rejected_inv :
    (t : WagerTransaction) (r : Uuid) (code : FailureCode) (b : Money) (now : Time)
    {u : WagerTransaction}
    → mark_rejected t r code b now ≡ ok u
    → IsOpen t.state
      × (failure_valid code ≡ true)
      × (is_permanent code ≡ false)
      × (is_initialized b ≡ true)
      × (pos 0 ≤ℤ b.minor_units)
      × (u ≡ as_rejected t r code b)
unfolding mark_rejected
mark_rejected_inv t r code b now h =
    let (_, moved, rest) = >>=-eq-ok (transition t State.rejected now) _ h in
    let (_, coded, rest') =
      >>=-eq-ok (reject_if (not (failure_valid code) || is_permanent code) invalid_input) _ rest in
    let (_, seen, done) = >>=-eq-ok (validate_observation r b) _ rest' in
    let (set, nonneg) = observation_inv r b seen in
    let (valid, business) = business_of (failure_valid code) (is_permanent code) coded in
    (
      (transition_inv t State.rejected now moved).0,
      valid,
      business,
      set,
      nonneg,
      sym (ok-injective done),
    )

pub mark_failed_inv :
    (t : WagerTransaction) (b : Money) (now : Time) {u : WagerTransaction}
    → mark_failed t b now ≡ ok u
    → IsOpen t.state × (is_initialized b ≡ true) × (u ≡ as_failed t b)
unfolding mark_failed
mark_failed_inv t b now h =
    let (_, moved, rest) = >>=-eq-ok (transition t State.failed now) _ h in
    let (_, set, done) = >>=-eq-ok (reject_if (not (is_initialized b)) uninitialized) _ rest in
    ((transition_inv t State.failed now moved).0, ground arith, sym (ok-injective done))
