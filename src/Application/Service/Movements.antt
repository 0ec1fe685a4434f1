-- ===== src/Application/Service/Movements.antt =====
-- A movement is stored as a balance and a posting that agree
-- (internal/application/service.go: applyMovement).
use backend_challenge_go_jun.Prelude.{
  false, none, ok, ◌≡◌, ◌⊎◌, ◌∙◌, inl, inr, sym, ap, refl, map_err, >>=-eq-ok, map_err-eq-ok,
  ok-injective,
}
use backend_challenge_go_jun.Prelude.Int.{◌<ℤ◌}
use backend_challenge_go_jun.Money.{Money}
use backend_challenge_go_jun.Financial.{Direction, State, FailureCode}
use backend_challenge_go_jun.Financial.Identifiers.{Uuid}
use backend_challenge_go_jun.Financial.Wallet.{Wallet, with_balance, credit, debit}
use backend_challenge_go_jun.Financial.Wallet.Movement.{IsValid, Movable, credit_cases, debit_cases}
use backend_challenge_go_jun.Financial.Ledger.{WalletLedgerEntry, new_ledger_entry, validate}
use backend_challenge_go_jun.Financial.Ledger.Postings.{Balances}
use backend_challenge_go_jun.Financial.Wager.{WagerTransaction}
use backend_challenge_go_jun.Financial.Wager.Transitions.{mark_processed, mark_rejected}
use backend_challenge_go_jun.Financial.Wager.States.{mark_processed_inv, mark_rejected_inv}
use backend_challenge_go_jun.Application.Resolve.{Movement, OperationPlan}
use backend_challenge_go_jun.Application.Ports.{Repositories, Surroundings}
use backend_challenge_go_jun.Application.Service.{
  WagerResult, result_of, fault, emit_rejected, emit_processed, emit_balance_changed,
}
use backend_challenge_go_jun.Application.Service.Execution.{
  reject, store_claim, store_movement, settle, apply_movement,
}

-- The posting of a movement of `wall` to `updated`.
abbrev pub posting :
    Surroundings → (wall updated : Wallet) → WagerTransaction → Movement → WalletLedgerEntry
posting around wall updated t move = record {
  id = around.entry_id;
  wallet_id = updated.id;
  transaction_id = t.id;
  direction = move.direction;
  amount = move.amount;
  balance_before = wall.balance;
  balance_after = updated.balance;
  created_at = around.now;
}

-- What a stored movement wrote, from the state it found to the one it leaves: the new balance, the
-- posting of it, the claim of the plan, the processed transaction and its two events.
pub record IsStored {S : Type 0} (repos : Repositories S) (around : Surroundings)
    (wall updated : Wallet) (t : WagerTransaction) (plan : OperationPlan) (move : Movement) (s : S)
    (answer : WagerResult × S) : Type 0 where
  pub after_balance : S
  pub after_entry : S
  pub after_claim : S
  pub after_update : S
  pub after_event : S
  pub final : WagerTransaction
  pub balance_saved : repos.save_balance updated s ≡ ok after_balance
  pub entry_inserted :
      repos.insert_entry (posting around wall updated t move) after_balance ≡ ok after_entry
  pub claim_stored :
      store_claim repos around plan.claim plan.reference_id t.id after_entry ≡ ok after_claim
  pub transaction_updated : repos.update_transaction final none after_claim ≡ ok after_update
  pub announced :
      emit_processed repos around updated final updated.balance after_update ≡ ok after_event
  pub left :
      emit_balance_changed repos around updated final move wall.balance updated.balance after_event
      ≡ ok answer.1
  pub accepted :
      new_ledger_entry (posting around wall updated t move)
      ≡ ok (posting around wall updated t move)
  pub marked : mark_processed t plan.reference_id updated.balance around.now ≡ ok final
  pub described : answer.0 ≡ result_of final false
  pub observed : answer.0.observed_balance ≡ updated.balance
  pub processed : answer.0.state ≡ State.processed

new_ledger_entry-same :
    (e : WalletLedgerEntry) {f : WalletLedgerEntry} → new_ledger_entry e ≡ ok f → f ≡ e
unfolding new_ledger_entry
new_ledger_entry-same e h = let (_, _, h) = >>=-eq-ok (validate e) _ h in sym (ok-injective h)

module _ {S : Type 0} (repos : Repositories S) (around : Surroundings) where
  store_movement-IsStored :
      (wall updated : Wallet) (t : WagerTransaction) (plan : OperationPlan) (move : Movement)
      (s : S) {answer : WagerResult × S}
      → store_movement repos around wall updated t plan move s ≡ ok answer
      → IsStored repos around wall updated t plan move s answer
  unfolding store_movement
  store_movement-IsStored wall updated t plan move s e =
      let posted = posting around wall updated t move in
      let (entry, n, e) = >>=-eq-ok (map_err fault (new_ledger_entry posted)) _ e in
      let made = map_err-eq-ok fault (new_ledger_entry posted) n in
      let own = new_ledger_entry-same posted made in
      let (u, m, e) =
        >>=-eq-ok (map_err fault (mark_processed t plan.reference_id updated.balance around.now)) _
          e in
      let (s1, a, e) = >>=-eq-ok (repos.save_balance updated s) _ e in
      let (s2, b, e) = >>=-eq-ok (repos.insert_entry entry s1) _ e in
      let (s3, c, e) =
        >>=-eq-ok (store_claim repos around plan.claim plan.reference_id t.id s2) _ e in
      let (s4, d, e) = >>=-eq-ok (repos.update_transaction u none s3) _ e in
      let (s5, f, e) = >>=-eq-ok (emit_processed repos around updated u updated.balance s4) _ e in
      let (s6, g, e) =
        >>=-eq-ok (emit_balance_changed repos around updated u move wall.balance updated.balance s5)
          _ e in
      let w =
        (mark_processed_inv t plan.reference_id updated.balance around.now (
          map_err-eq-ok fault (mark_processed t plan.reference_id updated.balance around.now)
            m)).3 in
      record {
        after_balance = s1;
        after_entry = s2;
        after_claim = s3;
        after_update = s4;
        after_event = s5;
        final = u;
        balance_saved = a;
        claim_stored = c;
        transaction_updated = d;
        announced = f;
        left = g ∙ ap (λ x. ok x.1) (ok-injective e);
        marked =
            map_err-eq-ok fault (mark_processed t plan.reference_id updated.balance around.now) m;
        described = ap (λ x. x.0) (sym (ok-injective e));
        entry_inserted = ap (λ x. repos.insert_entry x s1) (sym own) ∙ b;
        accepted = made ∙ ap ok own;
        observed =
            ap (λ x. x.0.observed_balance) (sym (ok-injective e)) ∙ ap (λ x. x.observed_balance) w;
        processed = ap (λ x. x.0.state) (sym (ok-injective e)) ∙ ap (λ x. x.state) w;
      }

  reject-answer :
      (wall : Wallet) (t : WagerTransaction) (r : Uuid) (code : FailureCode) (s : S)
      {answer : WagerResult × S}
      → reject repos around wall t r code s ≡ ok answer
      → (answer.0.state ≡ State.rejected) × (answer.0.observed_balance ≡ wall.balance)
  unfolding reject
  reject-answer wall t r code s e =
      let (u, m, e) =
        >>=-eq-ok (map_err fault (mark_rejected t r code wall.balance around.now)) _ e in
      let (s1, _, e) = >>=-eq-ok (repos.update_transaction u none s) _ e in
      let (s2, _, e) = >>=-eq-ok (emit_rejected repos around wall u s1) _ e in
      let (_, _, _, _, _, w) =
        mark_rejected_inv t r code wall.balance around.now
          (map_err-eq-ok fault (mark_rejected t r code wall.balance around.now) m) in
      let d = sym (ok-injective e) in
      (
        ap (λ x. x.0.state) d ∙ ap (λ x. x.state) w,
        ap (λ x. x.0.observed_balance) d ∙ ap (λ x. x.observed_balance) w,
      )

  -- Either a debit is not covered and the operation is rejected at the balance it found, or the
  -- movement is stored, with a balance that differs by exactly its amount.
  abbrev pub Booked :
      Wallet → WagerTransaction → OperationPlan → Movement → S → WagerResult × S → Type 0
  Booked wall t plan move s answer =
      ((move.direction ≡ Direction.debit)
        × (wall.balance.minor_units <ℤ move.amount.minor_units)
        × (answer.0.state ≡ State.rejected)
        × (answer.0.observed_balance ≡ wall.balance))
      ⊎ ((updated : Wallet) × IsStored repos around wall updated t plan move s answer
          × Balances move.direction move.amount.minor_units wall.balance.minor_units
              updated.balance.minor_units
          × (updated.id ≡ wall.id))

  book_credit :
      (wall : Wallet) (t : WagerTransaction) (plan : OperationPlan) (amount : Money) (s : S)
      {answer : WagerResult × S}
      → IsValid wall
      → Movable wall amount around.now
      → settle repos around
          (credit wall amount around.now)
          wall
          t
          plan
          (record { direction = Direction.credit; amount = amount })
          s
        ≡ ok answer
      → Booked wall t plan (record { direction = Direction.credit; amount = amount }) s answer
  unfolding settle with_balance
  book_credit wall t plan amount s v a e =
      let move : Movement = record { direction = Direction.credit; amount = amount } in
      elim (credit_cases v a) [
        | inl (range, c) ↦
            inr (_, store_movement-IsStored wall _ t plan move s (rw c at e), refl, refl)
        | inr (range, c) ↦ let f = rw c at e in cc
      ]

  book_debit :
      (wall : Wallet) (t : WagerTransaction) (plan : OperationPlan) (amount : Money) (s : S)
      {answer : WagerResult × S}
      → IsValid wall
      → Movable wall amount around.now
      → settle repos around
          (debit wall amount around.now)
          wall
          t
          plan
          (record { direction = Direction.debit; amount = amount })
          s
        ≡ ok answer
      → Booked wall t plan (record { direction = Direction.debit; amount = amount }) s answer
  unfolding settle with_balance
  book_debit wall t plan amount s v a e =
      let move : Movement = record { direction = Direction.debit; amount = amount } in
      elim (debit_cases v a) [
        | inl (short, c) ↦
            let (state, observed) = reject-answer wall t plan.reference_id _ s (rw c at e) in
            inl (refl, short, state, observed)
        | inr (enough, c) ↦
            inr (_, store_movement-IsStored wall _ t plan move s (rw c at e), refl, refl)
      ]

  apply_movement_books :
      (d : Direction) (wall : Wallet) (t : WagerTransaction) (plan : OperationPlan) (amount : Money)
      (s : S) {answer : WagerResult × S}
      → IsValid wall
      → Movable wall amount around.now
      → apply_movement repos around wall t plan (record { direction = d; amount = amount }) s
        ≡ ok answer
      → Booked wall t plan (record { direction = d; amount = amount }) s answer
  unfolding apply_movement
  apply_movement_books Direction.credit wall t plan amount s v a e =
      book_credit wall t plan amount s v a e
  apply_movement_books Direction.debit wall t plan amount s v a e =
      book_debit wall t plan amount s v a e
  apply_movement_books (Direction.other x) wall t plan amount s v a e = cc

-- A movement of a movable amount on a valid wallet that is answered is either rejected, when it is
-- a debit above the balance, which the answer then reports unchanged, or stored. Then the state that
-- is left is what these writes make of the state that was found, one after the other: the wallet
-- with a balance that differs by exactly the amount, a posting that the ledger accepts with the
-- balances before and after, the claim of the plan, the processed transaction, and the events of
-- the processing and of the change of the balance. The answer is the one of that transaction,
-- processed at the new balance.
pub apply_movement-Booked :
    {S : Type 0} (repos : Repositories S) (around : Surroundings) (wall : Wallet)
    (t : WagerTransaction) (plan : OperationPlan) (move : Movement) (s : S)
    {answer : WagerResult × S}
    → IsValid wall
    → Movable wall move.amount around.now
    → apply_movement repos around wall t plan move s ≡ ok answer
    → Booked repos around wall t plan move s answer
apply_movement-Booked repos around wall t plan move s v a e =
    apply_movement_books repos around move.direction wall t plan move.amount s v a e
