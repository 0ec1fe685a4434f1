-- ===== src/Application/Resolve/Reversals.antt =====
-- When a reversal moves money (internal/application/resolve.go).
use backend_challenge_go_jun.Prelude.{
  ◌≡◌, ◌↔◌, refl, sym, Bool, true, false, arith, Option, none, some, Result, ok, ok-injective,
}
use backend_challenge_go_jun.Prelude.Bytes.{bytes_eq_iff, bytes_eq_refl}
use backend_challenge_go_jun.Money.{
  Money, is_initialized, equal, cmp, check_compatible, check_initialized,
}
use backend_challenge_go_jun.Financial.{Kind, State, Direction}
use backend_challenge_go_jun.Financial.Wager.{WagerTransaction}
use backend_challenge_go_jun.Application.{AppError}
use backend_challenge_go_jun.Application.Resolve.{
  OperationPlan, identity_matches, reverse_in_state, reverse_amount, classify_reversal,
  win_in_state, classify_win, classify_kind, classify, allowed_reference, movement_plan,
  reversal_direction, is_claiming_kind,
}

-- The direction of the movement that an operation of a kind makes by itself.
abbrev pub own_direction : Kind → Direction
own_direction Kind.bet = Direction.debit
own_direction _ = Direction.credit

abbrev pub opposite : Direction → Direction
opposite Direction.debit = Direction.credit
opposite Direction.credit = Direction.debit
opposite (Direction.other s) = Direction.other s

-- Two operations of the same wallet, player, round and money.
pub record Corresponds (t r : WagerTransaction) : Type 0 where
  pub wallet : t.wallet_id ≡ r.wallet_id
  pub player : t.player_id ≡ r.player_id
  pub round : t.round_id ≡ r.round_id
  pub currency : t.amount.currency ≡ r.amount.currency

identity_matches_iff : (t r : WagerTransaction) → (identity_matches t r ≡ true) ↔ Corresponds t r
unfolding identity_matches
identity_matches_iff t r =
    ground
      (arith, bytes_eq_iff t.round_id r.round_id, bytes_eq_iff t.amount.currency r.amount.currency)

equal-ok : (a b : Money) → equal a b ≡ ok true → a ≡ b
unfolding equal cmp check_compatible check_initialized
equal-ok a b h = ground (arith, bytes_eq_iff a.currency b.currency)

equal_refl : (a : Money) → is_initialized a ≡ true → equal a a ≡ ok true
unfolding equal cmp check_compatible check_initialized
equal_refl a h = rw (h, bytes_eq_refl a.currency) (ground arith)

-- When a refund or a rollback `t` may reverse `r`.
pub record IsReversible (t r : WagerTransaction) : Type 0 where
  pub kinds : allowed_reference t.kind r.kind ≡ true
  pub corresponds : Corresponds t r
  pub amounts : t.amount ≡ r.amount
  pub processed : r.state ≡ State.processed

-- The plan that undoes `r`: the same money moves the other way, and `r` is claimed.
abbrev pub reversal_plan : WagerTransaction → WagerTransaction → OperationPlan
reversal_plan t r = record (movement_plan (opposite (own_direction r.kind)) t.amount) {
  claim = true;
  reference_id = r.id;
}

reversal_direction-opposite :
    (k l : Kind)
    → allowed_reference k l ≡ true
    → reversal_direction k l ≡ opposite (own_direction l)
reversal_direction-opposite Kind.opening l h = cc
reversal_direction-opposite Kind.bet l h = cc
reversal_direction-opposite Kind.win l h = cc
reversal_direction-opposite Kind.loss l h = cc
reversal_direction-opposite Kind.refund l h = ground arith
reversal_direction-opposite Kind.rollback l h = ground arith
reversal_direction-opposite (Kind.other s) l h = cc

reverse_in_state_claims :
    (s : State) (t r : WagerTransaction) (c : Bool) {p : OperationPlan}
    → reverse_in_state s t r c ≡ ok p
    → p.claim ≡ true
    → (s ≡ State.processed)
      × (c ≡ false)
      × (p ≡ record (movement_plan (reversal_direction t.kind r.kind) r.amount) {
        claim = true;
        reference_id = r.id;
      })
unfolding reverse_in_state
reverse_in_state_claims State.pending t r c h k = ground arith
reverse_in_state_claims State.pending_reference t r c h k = ground arith
reverse_in_state_claims State.rejected t r c h k = ground arith
reverse_in_state_claims State.failed t r c h k = ground arith
reverse_in_state_claims State.processed t r true h k = ground arith
reverse_in_state_claims State.processed t r false h k = (refl, refl, sym (ok-injective h))
reverse_in_state_claims (State.other s) t r c h k = cc

reverse_amount_claims :
    (t r : WagerTransaction) (c : Bool) {p : OperationPlan}
    → reverse_amount t r c ≡ ok p
    → p.claim ≡ true
    → (equal t.amount r.amount ≡ ok true) × (reverse_in_state r.state t r c ≡ ok p)
unfolding reverse_amount
reverse_amount_claims t r c h k = ground arith

classify_reversal_claims :
    (t r : WagerTransaction) (c : Bool) {p : OperationPlan}
    → classify_reversal t (some r) c ≡ ok p
    → p.claim ≡ true
    → (allowed_reference t.kind r.kind ≡ true)
      × (identity_matches t r ≡ true)
      × (reverse_amount t r c ≡ ok p)
unfolding classify_reversal
classify_reversal_claims t r c h k = ground arith

reversal :
    (t r : WagerTransaction) (c : Bool) {p : OperationPlan}
    → classify_reversal t (some r) c ≡ ok p
    → p.claim ≡ true
    → IsReversible t r × (c ≡ false) × (p ≡ reversal_plan t r)
reversal t r c h k =
    let (allowed, matches, h) = classify_reversal_claims t r c h k in
    let (same, h) = reverse_amount_claims t r c h k in
    let (done, fresh, e) = reverse_in_state_claims r.state t r c h k in
    let amounts = equal-ok t.amount r.amount same in
    (
      record {
        kinds = allowed;
        corresponds = (identity_matches_iff t r).0 matches;
        amounts = amounts;
        processed = done;
      },
      fresh,
      rw (e, amounts, reversal_direction-opposite t.kind r.kind allowed) refl,
    )

classify_win_claims :
    (t : WagerTransaction) (ref : Option WagerTransaction) {p : OperationPlan}
    → classify_win t ref ≡ ok p
    → p.claim ≡ false
unfolding classify_win win_in_state
classify_win_claims t none h = ground arith
classify_win_claims t (some r) h = ground arith

classify_kind_claims :
    (k : Kind) (t : WagerTransaction) (ref : Option WagerTransaction) (c : Bool) {p : OperationPlan}
    → classify_kind k t ref c ≡ ok p
    → p.claim ≡ true
    → (is_claiming_kind k ≡ true) × (classify_reversal t ref c ≡ ok p)
unfolding classify_kind
classify_kind_claims Kind.opening t ref c h k = cc
classify_kind_claims Kind.bet t ref c h k = ground arith
classify_kind_claims Kind.win t ref c h k = let n = classify_win_claims t ref h in cc
classify_kind_claims Kind.loss t ref c h k = ground arith
classify_kind_claims Kind.refund t ref c h k = (refl, h)
classify_kind_claims Kind.rollback t ref c h k = (refl, h)
classify_kind_claims (Kind.other s) t ref c h k = cc

classify_claims :
    (t : WagerTransaction) (ref : Option WagerTransaction) (c : Bool) {p : OperationPlan}
    → classify t ref c ≡ ok p
    → p.claim ≡ true
    → (is_claiming_kind t.kind ≡ true) × (classify_reversal t ref c ≡ ok p)
unfolding classify
classify_claims t ref c h k = ground (arith, classify_kind_claims t.kind t ref c)

unclaimed :
    (t : WagerTransaction) (c : Bool) {p : OperationPlan}
    → classify_reversal t none c ≡ ok p
    → p.claim ≡ false
unfolding classify_reversal
unclaimed t c h = ground arith

-- A plan that claims a reversal is one of a refund or a rollback whose reference is known,
-- reversible and not yet claimed, and it undoes that reference: the same money moves in the
-- opposite direction, and the reference is what is claimed.
pub classify-reverses :
    (t : WagerTransaction) (ref : Option WagerTransaction) (claim_exists : Bool) {p : OperationPlan}
    → classify t ref claim_exists ≡ ok p
    → p.claim ≡ true
    → (r : WagerTransaction) × (ref ≡ some r)
      × (is_claiming_kind t.kind ≡ true)
      × IsReversible t r
      × (claim_exists ≡ false)
      × (p ≡ reversal_plan t r)
classify-reverses t none c h k =
    let (_, h) = classify_claims t none c h k in let n = unclaimed t c h in cc
classify-reverses t (some r) c h k =
    let (claiming, h) = classify_claims t (some r) c h k in
    let (reversible, fresh, e) = reversal t r c h k in (r, refl, claiming, reversible, fresh, e)

by_kind :
    (k : Kind) (t : WagerTransaction) (ref : Option WagerTransaction) (c : Bool)
    {x : Result AppError OperationPlan}
    → is_claiming_kind k ≡ true
    → classify_reversal t ref c ≡ x
    → classify_kind k t ref c ≡ x
unfolding classify_kind
by_kind Kind.opening t ref c h e = cc
by_kind Kind.bet t ref c h e = cc
by_kind Kind.win t ref c h e = cc
by_kind Kind.loss t ref c h e = cc
by_kind Kind.refund t ref c h e = e
by_kind Kind.rollback t ref c h e = e
by_kind (Kind.other s) t ref c h e = cc

-- A refund or a rollback whose reference is reversible and not yet claimed is planned as the
-- reversal of it: what `classify-reverses` finds is also enough.
pub reversible-classify :
    (t r : WagerTransaction)
    → is_claiming_kind t.kind ≡ true
    → is_initialized t.amount ≡ true
    → IsReversible t r
    → classify t (some r) false ≡ ok (reversal_plan t r)
unfolding classify classify_reversal reverse_amount reverse_in_state
reversible-classify t r claiming set h =
    let m = (identity_matches_iff t r).1 h.corresponds in
    let e = equal_refl t.amount set in
    let d = reversal_direction-opposite t.kind r.kind h.kinds in
    let planned : classify_reversal t (some r) false ≡ ok (reversal_plan t r) =
      rw (h.kinds, m, sym h.amounts, e, h.processed, d) refl in
    by_kind t.kind t (some r) false claiming planned
