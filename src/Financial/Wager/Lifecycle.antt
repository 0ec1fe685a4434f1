-- ===== src/Financial/Wager/Lifecycle.antt =====
-- The lifecycle as a step relation: a step is a successful call of one of the transition methods
-- (internal/domain/financial/wager.go).
use backend_challenge_go_jun.Prelude.{
  ℕ, ◌+◌, ◌<◌, ◌≤◌, ◌≡◌, ◌∙◌, ap, refl, ◌⊎◌, inl, inr, true, false, arith, ok,
}
use backend_challenge_go_jun.Prelude.Bytes.{Bytes}
use backend_challenge_go_jun.Money.{Money, no_money, is_initialized}
use backend_challenge_go_jun.Financial.{
  Time, Origin, Kind, is_terminal, is_permanent, State, FailureCode, failure_valid, no_failure,
}
use backend_challenge_go_jun.Financial.Identifiers.{Uuid}
use backend_challenge_go_jun.Financial.Wager.{WagerTransaction}
use backend_challenge_go_jun.Financial.Wager.Transitions.{
  mark_pending_reference, mark_processed, mark_rejected, mark_failed,
}
use backend_challenge_go_jun.Financial.Wager.States.{
  IsOpen, as_pending_reference, as_processed, as_rejected, as_failed, mark_pending_reference_inv,
  mark_processed_inv, mark_rejected_inv, mark_failed_inv,
}

pub data Step (t u : WagerTransaction) : Type 0 where
  waits : (deadline now : Time) → mark_pending_reference t deadline now ≡ ok u → Step t u
  processes : (r : Uuid) (b : Money) (now : Time) → mark_processed t r b now ≡ ok u → Step t u
  rejects :
      (r : Uuid) (code : FailureCode) (b : Money) (now : Time)
      → mark_rejected t r code b now ≡ ok u
      → Step t u
  fails : (b : Money) (now : Time) → mark_failed t b now ≡ ok u → Step t u

pub data Reach (t : WagerTransaction) : WagerTransaction → Type 0 where
  here : Reach t t
  next : {u v : WagerTransaction} → Reach t u → Step u v → Reach t v

-- What a state says of the failure code and the observed balance: the constraint
-- `wager_transactions_terminal_snapshot` of the schema.
abbrev pub Snapshot : State → FailureCode → Money → Type 0
Snapshot State.pending code b = (code ≡ no_failure) × (b ≡ no_money)
Snapshot State.pending_reference code b = (code ≡ no_failure) × (b ≡ no_money)
Snapshot State.processed code b = (code ≡ no_failure) × (is_initialized b ≡ true)
Snapshot State.rejected code b =
    (failure_valid code ≡ true) × (is_permanent code ≡ false) × (is_initialized b ≡ true)
Snapshot State.failed code b =
    (code ≡ FailureCode.permanent_infrastructure) × (is_initialized b ≡ true)
Snapshot (State.other s) code b = ⊥

abbrev pub HasSnapshot : WagerTransaction → Type 0
HasSnapshot t = Snapshot t.state t.failure_code t.observed_balance

no_failure_of_open :
    (s : State) (code : FailureCode) (b : Money) → IsOpen s → Snapshot s code b → code ≡ no_failure
no_failure_of_open State.pending code b o h = h.0
no_failure_of_open State.pending_reference code b o h = h.0
no_failure_of_open State.processed code b o h = ground arith
no_failure_of_open State.rejected code b o h = ground arith
no_failure_of_open State.failed code b o h = ground arith
no_failure_of_open (State.other s) code b o h = absurd h

Snapshot-of_pending :
    (s : State) (code : FailureCode) (b : Money)
    → s ≡ State.pending
    → Snapshot s code b
    → (code ≡ no_failure) × (b ≡ no_money)
Snapshot-of_pending s code b e h = rw e at h

-- Every step keeps the agreement of state, failure code and observed balance.
pub Step-HasSnapshot : {t u : WagerTransaction} → HasSnapshot t → Step t u → HasSnapshot u
Step-HasSnapshot {t} h (waits deadline now e) =
    let (first, later, w) = mark_pending_reference_inv t deadline now e in
    rw w (Snapshot-of_pending t.state t.failure_code t.observed_balance first h)
Step-HasSnapshot {t} h (processes r b now e) =
    let (open_state, set, nonneg, w) = mark_processed_inv t r b now e in
    rw w (no_failure_of_open t.state t.failure_code t.observed_balance open_state h, set)
Step-HasSnapshot {t} h (rejects r code b now e) =
    let (open_state, valid, business, set, nonneg, w) = mark_rejected_inv t r code b now e in
    rw w (valid, business, set)
Step-HasSnapshot {t} h (fails b now e) =
    let (open_state, set, w) = mark_failed_inv t b now e in rw w (refl, set)

pub Reach-HasSnapshot : {t u : WagerTransaction} → HasSnapshot t → Reach t u → HasSnapshot u
Reach-HasSnapshot h here = h
Reach-HasSnapshot h (next r s) = Step-HasSnapshot (Reach-HasSnapshot h r) s

closed_of_terminal : (s : State) → is_terminal s ≡ true → ¬ IsOpen s
closed_of_terminal s h o = ground arith

-- No step leaves a terminal state.
pub Step-not_terminal : {t u : WagerTransaction} → Step t u → is_terminal t.state ≡ true → ⊥
Step-not_terminal {t} (waits deadline now e) h =
    closed_of_terminal t.state h (inl (mark_pending_reference_inv t deadline now e).0)
Step-not_terminal {t} (processes r b now e) h =
    closed_of_terminal t.state h (mark_processed_inv t r b now e).0
Step-not_terminal {t} (rejects r code b now e) h =
    closed_of_terminal t.state h (mark_rejected_inv t r code b now e).0
Step-not_terminal {t} (fails b now e) h = closed_of_terminal t.state h (mark_failed_inv t b now e).0

-- The steps that a state still allows at most.
abbrev pub rank : State → ℕ
rank State.pending = 2
rank State.pending_reference = 1
rank _ = 0

rank_of_open : (s : State) → IsOpen s → 1 ≤ rank s
rank_of_open s o = ground arith

-- Every step lowers the rank, so there are at most two.
pub Step-rank : {t u : WagerTransaction} → Step t u → rank u.state < rank t.state
Step-rank {t} (waits deadline now e) =
    let (first, later, w) = mark_pending_reference_inv t deadline now e in
    rw (w, first) (omega arith)
Step-rank {t} (processes r b now e) =
    let (open_state, set, nonneg, w) = mark_processed_inv t r b now e in
    rw w (rank_of_open t.state open_state)
Step-rank {t} (rejects r code b now e) =
    let (open_state, valid, business, set, nonneg, w) = mark_rejected_inv t r code b now e in
    rw w (rank_of_open t.state open_state)
Step-rank {t} (fails b now e) =
    let (open_state, set, w) = mark_failed_inv t b now e in rw w (rank_of_open t.state open_state)

pub steps : {t u : WagerTransaction} → Reach t u → ℕ
steps here = 0
steps (next r s) = steps r + 1

steps_bound : {t u : WagerTransaction} (r : Reach t u) → steps r + rank u.state ≤ rank t.state
unfolding steps
steps_bound here = omega arith
steps_bound (next r s) = omega (arith, steps_bound r, Step-rank s)

-- What identifies an operation and its business content.
pub record Operation : Type 0 where
  pub id : Uuid
  pub origin : Origin
  pub kind : Kind
  pub provider_id : Bytes
  pub external_transaction_id : Bytes
  pub idempotency_key : Bytes
  pub digest_version : Bytes
  pub digest : Bytes
  pub wallet_id : Uuid
  pub player_id : Uuid
  pub round_id : Bytes
  pub game_id : Bytes
  pub amount : Money
  pub reference_external_transaction_id : Bytes
  pub created_at : Time

abbrev pub operation_of : WagerTransaction → Operation
operation_of t = record {
  id = t.id;
  origin = t.origin;
  kind = t.kind;
  provider_id = t.provider_id;
  external_transaction_id = t.external_transaction_id;
  idempotency_key = t.idempotency_key;
  digest_version = t.digest_version;
  digest = t.digest;
  wallet_id = t.wallet_id;
  player_id = t.player_id;
  round_id = t.round_id;
  game_id = t.game_id;
  amount = t.amount;
  reference_external_transaction_id = t.reference_external_transaction_id;
  created_at = t.created_at;
}

-- The four outcomes change only the fields of the lifecycle.
Step-cases :
    {t u : WagerTransaction}
    → Step t u
    → ((deadline : Time) × (now : Time) × (u ≡ as_pending_reference t deadline now))
      ⊎ ((r : Uuid) × (b : Money) × (u ≡ as_processed t r b))
      ⊎ ((r : Uuid) × (code : FailureCode) × (b : Money) × (u ≡ as_rejected t r code b))
      ⊎ ((b : Money) × (u ≡ as_failed t b))
Step-cases {t} (waits deadline now e) =
    inl (deadline, now, (mark_pending_reference_inv t deadline now e).2)
Step-cases {t} (processes r b now e) = inr (inl (r, b, (mark_processed_inv t r b now e).3))
Step-cases {t} (rejects r code b now e) =
    inr (inr (inl (r, code, b, (mark_rejected_inv t r code b now e).5)))
Step-cases {t} (fails b now e) = inr (inr (inr (b, (mark_failed_inv t b now e).2)))

pub Step-operation_of : {t u : WagerTransaction} → Step t u → operation_of u ≡ operation_of t
Step-operation_of {t} {u} s = go (Step-cases s)
  where
    go :
        ((deadline : Time) × (now : Time) × (u ≡ as_pending_reference t deadline now))
          ⊎ ((r : Uuid) × (b : Money) × (u ≡ as_processed t r b))
          ⊎ ((r : Uuid) × (code : FailureCode) × (b : Money) × (u ≡ as_rejected t r code b))
          ⊎ ((b : Money) × (u ≡ as_failed t b))
        → operation_of u ≡ operation_of t
    go (inl (deadline, now, w)) = ap operation_of w
    go (inr (inl (r, b, w))) = ap operation_of w
    go (inr (inr (inl (r, code, b, w)))) = ap operation_of w
    go (inr (inr (inr (b, w)))) = ap operation_of w

-- No sequence of transitions changes what the operation is.
pub Reach-operation_of : {t u : WagerTransaction} → Reach t u → operation_of u ≡ operation_of t
Reach-operation_of here = refl
Reach-operation_of (next r s) = Step-operation_of s ∙ Reach-operation_of r

-- A terminal transaction reaches only itself.
pub Reach_terminal : {t u : WagerTransaction} → is_terminal t.state ≡ true → Reach t u → u ≡ t
Reach_terminal h here = refl
Reach_terminal h (next r s) = absurd (Step-not_terminal s (rw (← Reach_terminal h r) at h))

-- A step to a terminal state leaves `updatedAt` as it was.
pub Step-updated_at :
    {t u : WagerTransaction} → Step t u → is_terminal u.state ≡ true → u.updated_at ≡ t.updated_at
Step-updated_at {t} (waits deadline now e) h =
    let w = (mark_pending_reference_inv t deadline now e).2 in let f = rw w at h in cc
Step-updated_at {t} (processes r b now e) h =
    ap (λ (x : WagerTransaction). x.updated_at) (mark_processed_inv t r b now e).3
Step-updated_at {t} (rejects r code b now e) h =
    ap (λ (x : WagerTransaction). x.updated_at) (mark_rejected_inv t r code b now e).5
Step-updated_at {t} (fails b now e) h =
    ap (λ (x : WagerTransaction). x.updated_at) (mark_failed_inv t b now e).2

-- Along the lifecycle of a transaction, from a snapshot that agrees with its state: the snapshot
-- keeps agreeing with the state, the operation stays what it was, the path has at most two steps,
-- and a path out of a terminal state is empty.
pub Reach_lifecycle :
    {t u : WagerTransaction} (r : Reach t u)
    → HasSnapshot t
    → HasSnapshot u
      × (operation_of u ≡ operation_of t)
      × (steps r + rank u.state ≤ rank t.state)
      × (is_terminal t.state ≡ true → u ≡ t)
Reach_lifecycle r h =
    (Reach-HasSnapshot h r, Reach-operation_of r, steps_bound r, λ e. Reach_terminal e r)
