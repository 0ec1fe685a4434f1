-- ===== src/Financial/Wager/Rehydration.antt =====
-- Stored transactions can be read back (internal/domain/financial/wager.go).
use backend_challenge_go_jun.Prelude.{
  ◌≤◌, ◌≡◌, ◌∙◌, sym, refl, ◌↔◌, true, false, not, ◌&&◌, ◌||◌, arith, ltb, ok, >>=-eq-ok,
  reject_if-eq-ok, ok-injective,
}
use backend_challenge_go_jun.Prelude.Bytes.{is_empty}
use backend_challenge_go_jun.Money.{Money, is_initialized}
use backend_challenge_go_jun.Financial.{
  FailureCode, Time, is_zero_time, origin_valid, kind_valid, State, state_valid, is_no_failure,
  failure_valid, invalid_input, uninitialized, is_external,
}
use backend_challenge_go_jun.Financial.Identifiers.{Uuid, is_nil}
use backend_challenge_go_jun.Financial.Wager.{
  WagerTransaction, NewExternalTransactionParams, new_external_transaction, InternalOpeningParams,
  new_internal_opening, check_kind_amount, check_kind_reference, check_origin_metadata,
  rehydrate_transaction,
}
use backend_challenge_go_jun.Financial.Wager.States.{
  as_pending_reference, mark_pending_reference_inv, mark_processed_inv, mark_rejected_inv,
  mark_failed_inv,
}
use backend_challenge_go_jun.Financial.Wager.Lifecycle.{Step, waits, processes, rejects, fails}

-- The tests of RehydrateTransaction, all passed.
pub record IsRehydratable (t : WagerTransaction) : Type 0 where
  pub identified : (is_nil t.id || is_nil t.wallet_id || is_nil t.player_id) ≡ false
  pub documented :
      (not (origin_valid t.origin) || not (kind_valid t.kind) || not (state_valid t.state)) ≡ false
  pub amount_set : is_initialized t.amount ≡ true
  pub timed : (is_zero_time t.created_at || is_zero_time t.updated_at) ≡ false
  pub ordered : ltb t.updated_at t.created_at ≡ false
  pub coded : (not (is_no_failure t.failure_code) && not (failure_valid t.failure_code)) ≡ false
  pub metadata : check_origin_metadata t ≡ ok tt

-- RehydrateTransaction accepts exactly the records that pass its tests, and returns them unchanged.
pub rehydrate_iff : (t : WagerTransaction) → (rehydrate_transaction t ≡ ok t) ↔ IsRehydratable t
unfolding rehydrate_transaction
rehydrate_iff t = (
  λ h.
      let (a, h1) =
        reject_if-eq-ok (is_nil t.id || is_nil t.wallet_id || is_nil t.player_id) invalid_input _
          h in
      let (b, h2) =
        reject_if-eq-ok
          (not (origin_valid t.origin) || not (kind_valid t.kind) || not (state_valid t.state))
          invalid_input _ h1 in
      let (c, h3) = reject_if-eq-ok (not (is_initialized t.amount)) uninitialized _ h2 in
      let (d, h4) =
        reject_if-eq-ok (is_zero_time t.created_at || is_zero_time t.updated_at) invalid_input _
          h3 in
      let (e, h5) = reject_if-eq-ok (ltb t.updated_at t.created_at) invalid_input _ h4 in
      let (f, h6) =
        reject_if-eq-ok (not (is_no_failure t.failure_code) && not (failure_valid t.failure_code))
          invalid_input _ h5 in
      let (_, g, _) = >>=-eq-ok (check_origin_metadata t) _ h6 in
      record {
        identified = a;
        documented = b;
        amount_set = ground arith;
        timed = d;
        ordered = e;
        coded = f;
        metadata = g;
      },
  λ r. rw (r.identified, r.documented, r.amount_set, r.timed, r.ordered, r.coded, r.metadata) refl,
)

-- The constants that a transition sets are documented states.
redocumented :
    (t : WagerTransaction)
    → IsRehydratable t
    → (not (origin_valid t.origin) || not (kind_valid t.kind) || false) ≡ false
redocumented t h = let d = h.documented in ground arith

-- The metadata of the origin are no part of the lifecycle.
check_origin_metadata-lifecycle :
    (t : WagerTransaction) (s : State) (r : Uuid) (c : FailureCode) (b : Money) (d now : Time)
    → check_origin_metadata (record t {
      state = s;
      reference_transaction_id = r;
      failure_code = c;
      observed_balance = b;
      reference_deadline = d;
      updated_at = now;
    })
      ≡ check_origin_metadata t
unfolding check_origin_metadata
check_origin_metadata-lifecycle t s r c b d now = refl

waiting :
    (t : WagerTransaction) (deadline now : Time)
    → IsRehydratable t
    → t.created_at ≤ now
    → IsRehydratable (as_pending_reference t deadline now)
waiting t deadline now h later = record {
  identified = h.identified;
  documented = redocumented t h;
  amount_set = h.amount_set;
  timed = let z = h.timed in ground arith;
  ordered = ground arith;
  coded = h.coded;
  metadata = check_origin_metadata-lifecycle t _ _ _ _ _ _ ∙ h.metadata;
}

-- A transition keeps a transaction readable, if its instant is not before the creation.
Step-IsRehydratable :
    {t u : WagerTransaction}
    → IsRehydratable t
    → Step t u
    → t.created_at ≤ u.updated_at
    → IsRehydratable u
Step-IsRehydratable {t} h (waits deadline now e) later =
    let w = (mark_pending_reference_inv t deadline now e).2 in
    rw w (waiting t deadline now h (rw w at later))
Step-IsRehydratable {t} h (processes r b now e) later =
    rw (mark_processed_inv t r b now e).3 (record {
      identified = h.identified;
      documented = redocumented t h;
      amount_set = h.amount_set;
      timed = h.timed;
      ordered = h.ordered;
      coded = h.coded;
      metadata = check_origin_metadata-lifecycle t _ _ _ _ _ _ ∙ h.metadata;
    })
Step-IsRehydratable {t} h (rejects r code b now e) later =
    let (_, valid, _, _, _, w) = mark_rejected_inv t r code b now e in
    rw w (record {
      identified = h.identified;
      documented = redocumented t h;
      amount_set = h.amount_set;
      timed = h.timed;
      ordered = h.ordered;
      coded = ground arith;
      metadata = check_origin_metadata-lifecycle t _ _ _ _ _ _ ∙ h.metadata;
    })
Step-IsRehydratable {t} h (fails b now e) later = rw (mark_failed_inv t b now e).2 (record {
  identified = h.identified;
  documented = redocumented t h;
  amount_set = h.amount_set;
  timed = h.timed;
  ordered = h.ordered;
  coded = refl;
  metadata = check_origin_metadata-lifecycle t _ _ _ _ _ _ ∙ h.metadata;
})

-- After any transition at an instant not before the creation, a transaction that could be read
-- back can be read back again, unchanged.
pub rehydrate-Step :
    {t u : WagerTransaction}
    → rehydrate_transaction t ≡ ok t
    → Step t u
    → t.created_at ≤ u.updated_at
    → rehydrate_transaction u ≡ ok u
rehydrate-Step {t} {u} h s later =
    (rehydrate_iff u).1 (Step-IsRehydratable ((rehydrate_iff t).0 h) s later)

-- Every new external transaction can be read back unchanged.
pub rehydrate-new_external :
    (p : NewExternalTransactionParams) {t : WagerTransaction}
    → new_external_transaction p ≡ ok t
    → rehydrate_transaction t ≡ ok t
unfolding new_external_transaction check_origin_metadata
rehydrate-new_external p {t} h =
    let (a, h1) =
      reject_if-eq-ok (is_nil p.id || is_nil p.wallet_id || is_nil p.player_id) invalid_input _ h in
    let (b, h2) =
      reject_if-eq-ok
        (is_empty p.provider_id
          || is_empty p.external_transaction_id
          || is_empty p.round_id
          || is_empty p.game_id)
        invalid_input _ h1 in
    let (c, h3) =
      reject_if-eq-ok (is_empty p.idempotency_key || is_empty p.digest_version || is_empty p.digest)
        invalid_input _ h2 in
    let (d, h4) =
      reject_if-eq-ok (not (kind_valid p.kind) || not (is_external p.kind)) invalid_input _ h3 in
    let (e, h5) = reject_if-eq-ok (not (is_initialized p.amount)) uninitialized _ h4 in
    let (f, h6) = reject_if-eq-ok (is_zero_time p.now) invalid_input _ h5 in
    let (_, _, h7) = >>=-eq-ok (check_kind_amount p.kind p.amount p.reference_external_id) _ h6 in
    let (_, _, h8) = >>=-eq-ok (check_kind_reference p.kind p.reference_external_id) _ h7 in
    let read : IsRehydratable _ = record {
      identified = a;
      documented = ground arith;
      amount_set = ground arith;
      timed = rw f refl;
      ordered = ground arith;
      coded = refl;
      metadata = ground arith;
    } in
    rw (sym (ok-injective h8)) ((rehydrate_iff _).1 read)

-- Every new opening can be read back unchanged.
rehydrate-new_opening :
    (p : InternalOpeningParams) {t : WagerTransaction}
    → new_internal_opening p ≡ ok t
    → rehydrate_transaction t ≡ ok t
unfolding new_internal_opening rehydrate_transaction check_origin_metadata
rehydrate-new_opening p h = ground arith
