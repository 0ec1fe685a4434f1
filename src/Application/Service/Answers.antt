-- ===== src/Application/Service/Answers.antt =====
-- What a transaction of the store leaves under the key of a command
-- (internal/application/service.go with the ports of internal/application/ports.go).
use backend_challenge_go_jun.Prelude.{
  ◌+◌, Bool, true, false, not, Option, none, some, Result, ok, err, ◌≡◌, ◌∙◌, sym, ap, refl,
  map_err, >>=-eq-ok, if-eq-ok, map_err-eq-ok, ok-injective,
}
use backend_challenge_go_jun.Prelude.Bytes.{Bytes}
use backend_challenge_go_jun.Financial.{
  Time, FailureCode, FinancialError, is_no_failure, insufficient_funds,
}
use backend_challenge_go_jun.Financial.Identifiers.{Uuid}
use backend_challenge_go_jun.Financial.Wallet.{Wallet}
use backend_challenge_go_jun.Financial.Ledger.{WalletLedgerEntry, new_ledger_entry}
use backend_challenge_go_jun.Financial.Reversal.{ReversalClaim, new_reversal_claim}
use backend_challenge_go_jun.Financial.Wager.{WagerTransaction}
use backend_challenge_go_jun.Financial.Wager.Transitions.{
  mark_pending_reference, mark_processed, mark_rejected,
}
use backend_challenge_go_jun.Financial.Wager.Lifecycle.{
  waits, processes, rejects, operation_of, Step-operation_of,
}
use backend_challenge_go_jun.Event.{Envelope, Data, new_envelope}
use backend_challenge_go_jun.Application.Resolve.{Movement, OperationPlan}
use backend_challenge_go_jun.Application.Backoff.{reference_ttl}
use backend_challenge_go_jun.Application.Ports.{
  Repositories, ReferenceSchedule, TimeColumn, as_stored, Surroundings,
}
use backend_challenge_go_jun.Application.Service.{
  WagerResult, result_of, fault, event_fault, metadata_of, emit, emit_processed, emit_rejected,
  emit_pending_reference, emit_balance_changed,
}
use backend_challenge_go_jun.Application.Service.Execution.{
  moved, reject, store_pending, store_unmoved, store_claim, store_movement, settle, apply_movement,
  execute_movement, execute_plan,
}

-- What the lookup by the key relies on: a stored transaction is found under its provider and key,
-- an update replaces it, and the other writes leave the lookup as it was. Instants come back as their
-- columns keep them.
pub record KeepsKeys {S : Type 0} (repos : Repositories S) (column : TimeColumn) : Type 0 where
  pub inserted :
      (t : WagerTransaction) (s s' : S)
      → repos.insert_transaction t s ≡ ok s'
      → repos.by_provider_and_key t.provider_id t.idempotency_key s'
        ≡ ok (some (as_stored column t))
  pub updated :
      (t u : WagerTransaction) (schedule : Option ReferenceSchedule) (s s' : S)
      → repos.by_provider_and_key t.provider_id t.idempotency_key s ≡ ok (some (as_stored column t))
      → t.id ≡ u.id
      → t.provider_id ≡ u.provider_id
      → t.idempotency_key ≡ u.idempotency_key
      → repos.update_transaction u schedule s ≡ ok s'
      → repos.by_provider_and_key u.provider_id u.idempotency_key s'
        ≡ ok (some (as_stored column u))
  pub key_read :
      (p k : Bytes) (s : S) (t : WagerTransaction)
      → repos.by_provider_and_key p k s ≡ ok (some t)
      → as_stored column t ≡ t
  pub external_id_read :
      (p x : Bytes) (s : S) (t : WagerTransaction)
      → repos.by_provider_and_external_id p x s ≡ ok (some t)
      → as_stored column t ≡ t
  pub balance_kept :
      (w : Wallet) (s s' : S) (p k : Bytes)
      → repos.save_balance w s ≡ ok s'
      → repos.by_provider_and_key p k s' ≡ repos.by_provider_and_key p k s
  pub entry_kept :
      (e : WalletLedgerEntry) (s s' : S) (p k : Bytes)
      → repos.insert_entry e s ≡ ok s'
      → repos.by_provider_and_key p k s' ≡ repos.by_provider_and_key p k s
  pub claim_kept :
      (c : ReversalClaim) (s s' : S) (p k : Bytes)
      → repos.insert_claim c s ≡ ok s'
      → repos.by_provider_and_key p k s' ≡ repos.by_provider_and_key p k s
  pub event_kept :
      (e : Envelope) (now : Time) (s s' : S) (p k : Bytes)
      → repos.insert_event e now s ≡ ok s'
      → repos.by_provider_and_key p k s' ≡ repos.by_provider_and_key p k s

-- The transaction that is found under its own key, as its columns keep it.
abbrev pub Holds : {S : Type 0} → Repositories S → TimeColumn → S → WagerTransaction → Type 0
Holds repos column s t =
    repos.by_provider_and_key t.provider_id t.idempotency_key s ≡ ok (some (as_stored column t))

-- A run that answers for `t` leaves a successor of `t` that the answer describes.
pub record Answered {S : Type 0} (repos : Repositories S) (column : TimeColumn)
    (t : WagerTransaction) (answer : WagerResult × S) : Type 0 where
  pub final : WagerTransaction
  pub held : Holds repos column answer.1 final
  pub same_operation : operation_of final ≡ operation_of t
  pub described : answer.0 ≡ result_of final false

module _ {S : Type 0} (repos : Repositories S) (around : Surroundings) {column : TimeColumn}
    (laws : KeepsKeys repos column) where
  emit-Holds :
      (event_id : Bytes) (aggregate : Uuid) (content : Data) (s s' : S) (t : WagerTransaction)
      → emit repos around event_id aggregate content s ≡ ok s'
      → Holds repos column s t
      → Holds repos column s' t
  unfolding emit
  emit-Holds event_id aggregate content s s' t e h =
      let (envelope, _, e) =
        >>=-eq-ok
          (map_err event_fault
            (new_envelope (metadata_of around event_id (around.uuid_string aggregate)) content))
          _ e in
      laws.event_kept envelope around.now s s' _ _ e ∙ h

  pub update-Holds :
      (t u : WagerTransaction) (schedule : Option ReferenceSchedule) (s s' : S)
      → Holds repos column s t
      → operation_of u ≡ operation_of t
      → repos.update_transaction u schedule s ≡ ok s'
      → Holds repos column s' u
  update-Holds t u schedule s s' h o e =
      let o = sym o in
      laws.updated t u schedule s s' h (ap (λ x. x.id) o) (ap (λ x. x.provider_id) o)
        (ap (λ x. x.idempotency_key) o) e

  reject-Answered :
      (wall : Wallet) (t : WagerTransaction) (r : Uuid) (code : FailureCode) (s : S)
      {answer : WagerResult × S}
      → reject repos around wall t r code s ≡ ok answer
      → Holds repos column s t
      → Answered repos column t answer
  unfolding reject emit_rejected
  reject-Answered wall t r code s e h =
      let (u, m, e) =
        >>=-eq-ok (map_err fault (mark_rejected t r code wall.balance around.now)) _ e in
      let (s1, w, e) = >>=-eq-ok (repos.update_transaction u none s) _ e in
      let (s2, v, e) = >>=-eq-ok (emit_rejected repos around wall u s1) _ e in
      let o = Step-operation_of (
        rejects r code wall.balance around.now
          (map_err-eq-ok fault (mark_rejected t r code wall.balance around.now) m)) in
      let k = emit-Holds _ _ _ s1 s2 u v (update-Holds t u none s s1 h o w) in
      rw (← ok-injective e) (record { final = u; held = k; same_operation = o; described = refl })

  store_pending-Answered :
      (t : WagerTransaction) (s : S) {answer : WagerResult × S}
      → store_pending repos around t s ≡ ok answer
      → Holds repos column s t
      → Answered repos column t answer
  unfolding store_pending emit_pending_reference
  store_pending-Answered t s e h =
      let deadline = around.now + reference_ttl in
      let (u, m, e) =
        >>=-eq-ok (map_err fault (mark_pending_reference t deadline around.now)) _ e in
      let (s1, w, e) = >>=-eq-ok (repos.update_transaction u _ s) _ e in
      let (s2, v, e) = >>=-eq-ok (emit_pending_reference repos around u s1) _ e in
      let o = Step-operation_of (
        waits deadline around.now
          (map_err-eq-ok fault (mark_pending_reference t deadline around.now) m)) in
      let k = emit-Holds _ _ _ s1 s2 u v (update-Holds t u _ s s1 h o w) in
      rw (← ok-injective e) (record { final = u; held = k; same_operation = o; described = refl })

  store_unmoved-Answered :
      (wall : Wallet) (t : WagerTransaction) (r : Uuid) (s : S) {answer : WagerResult × S}
      → store_unmoved repos around wall t r s ≡ ok answer
      → Holds repos column s t
      → Answered repos column t answer
  unfolding store_unmoved emit_processed
  store_unmoved-Answered wall t r s e h =
      let (u, m, e) = >>=-eq-ok (map_err fault (mark_processed t r wall.balance around.now)) _ e in
      let (s1, w, e) = >>=-eq-ok (repos.update_transaction u none s) _ e in
      let (s2, v, e) = >>=-eq-ok (emit_processed repos around wall u wall.balance s1) _ e in
      let o = Step-operation_of (
        processes r wall.balance around.now
          (map_err-eq-ok fault (mark_processed t r wall.balance around.now) m)) in
      let k = emit-Holds _ _ _ s1 s2 u v (update-Holds t u none s s1 h o w) in
      rw (← ok-injective e) (record { final = u; held = k; same_operation = o; described = refl })

  store_claim-Holds :
      (claim : Bool) (r i : Uuid) (s s' : S) (t : WagerTransaction)
      → store_claim repos around claim r i s ≡ ok s'
      → Holds repos column s t
      → Holds repos column s' t
  unfolding store_claim
  store_claim-Holds false r i s s' t e h = rw (← ok-injective e) h
  store_claim-Holds true r i s s' t e h =
      let (c, _, e) =
        >>=-eq-ok (map_err fault (new_reversal_claim around.claim_id r i around.now)) _ e in
      laws.claim_kept c s s' _ _ e ∙ h

  store_movement-Answered :
      (wall updated : Wallet) (t : WagerTransaction) (plan : OperationPlan) (move : Movement)
      (s : S) {answer : WagerResult × S}
      → store_movement repos around wall updated t plan move s ≡ ok answer
      → Holds repos column s t
      → Answered repos column t answer
  unfolding store_movement emit_processed emit_balance_changed
  store_movement-Answered wall updated t plan move s e h =
      let (entry, _, e) = >>=-eq-ok (map_err fault (new_ledger_entry _)) _ e in
      let (u, m, e) =
        >>=-eq-ok (map_err fault (mark_processed t plan.reference_id updated.balance around.now)) _
          e in
      let (s1, a, e) = >>=-eq-ok (repos.save_balance updated s) _ e in
      let (s2, b, e) = >>=-eq-ok (repos.insert_entry entry s1) _ e in
      let (s3, c, e) =
        >>=-eq-ok (store_claim repos around plan.claim plan.reference_id t.id s2) _ e in
      let (s4, w, e) = >>=-eq-ok (repos.update_transaction u none s3) _ e in
      let (s5, v, e) = >>=-eq-ok (emit_processed repos around updated u updated.balance s4) _ e in
      let (s6, x, e) =
        >>=-eq-ok (emit_balance_changed repos around updated u move wall.balance updated.balance s5)
          _ e in
      let o = Step-operation_of (
        processes plan.reference_id updated.balance around.now (
          map_err-eq-ok fault (mark_processed t plan.reference_id updated.balance around.now) m)) in
      let h1 : Holds repos column s1 t = laws.balance_kept updated s s1 _ _ a ∙ h in
      let h2 : Holds repos column s2 t = laws.entry_kept entry s1 s2 _ _ b ∙ h1 in
      let h3 = store_claim-Holds plan.claim plan.reference_id t.id s2 s3 t c h2 in
      let h4 = update-Holds t u none s3 s4 h3 o w in
      let h6 = emit-Holds _ _ _ s5 s6 u x (emit-Holds _ _ _ s4 s5 u v h4) in
      rw (← ok-injective e) (record { final = u; held = h6; same_operation = o; described = refl })

  settle-Answered :
      (outcome : Result FinancialError Wallet) (wall : Wallet) (t : WagerTransaction)
      (plan : OperationPlan) (move : Movement) (s : S) {answer : WagerResult × S}
      → settle repos around outcome wall t plan move s ≡ ok answer
      → Holds repos column s t
      → Answered repos column t answer
  unfolding settle
  settle-Answered (ok updated) wall t plan move s e h =
      store_movement-Answered wall updated t plan move s e h
  settle-Answered (err insufficient_funds) wall t plan move s e h =
      reject-Answered wall t plan.reference_id _ s e h
  settle-Answered (err FinancialError.invalid_input) wall t plan move s e h = cc
  settle-Answered (err FinancialError.uninitialized) wall t plan move s e h = cc
  settle-Answered (err FinancialError.compensation_consumed) wall t plan move s e h = cc
  settle-Answered (err (FinancialError.invalid_transition a b)) wall t plan move s e h = cc
  settle-Answered (err (FinancialError.of_money a)) wall t plan move s e h = cc

  execute_movement-Answered :
      (move : Option Movement) (wall : Wallet) (t : WagerTransaction) (plan : OperationPlan) (s : S)
      {answer : WagerResult × S}
      → execute_movement repos around move wall t plan s ≡ ok answer
      → Holds repos column s t
      → Answered repos column t answer
  unfolding execute_movement apply_movement
  execute_movement-Answered none wall t plan s e h =
      store_unmoved-Answered wall t plan.reference_id s e h
  execute_movement-Answered (some move) wall t plan s e h =
      let (outcome, _, e) = >>=-eq-ok (moved move.direction wall move.amount around.now) _ e in
      settle-Answered outcome wall t plan move s e h

  -- Storing any plan answers for the transaction.
  pub execute_plan-Answered :
      (wall : Wallet) (t : WagerTransaction) (plan : OperationPlan) (s : S)
      {answer : WagerResult × S}
      → execute_plan repos around wall t plan s ≡ ok answer
      → Holds repos column s t
      → Answered repos column t answer
  unfolding execute_plan
  execute_plan-Answered wall t plan s e h =
      if-eq-ok plan.pending _ _ e (λ _ e. store_pending-Answered t s e h)
        (λ _ e.
          if-eq-ok (not (is_no_failure plan.failure)) _ _ e
            (λ _ e. reject-Answered wall t plan.reference_id plan.failure s e h)
            (λ _ e. execute_movement-Answered plan.movement wall t plan s e h))
