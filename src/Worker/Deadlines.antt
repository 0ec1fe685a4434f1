-- ===== src/Worker/Deadlines.antt =====
-- What a pass of the worker does with references whose deadline has passed
-- (internal/adapters/worker/reference.go).
use backend_challenge_go_jun.Prelude.{
  Bool, ap, ℕ, ◌+◌, ◌≤◌, ◌≡◌, refl, arith, true, false, some, List, [], ◌∷◌, length, Result, ok,
  ok-injective, err, Bool-cases, inl, inr,
}
use backend_challenge_go_jun.Financial.{is_terminal}
use backend_challenge_go_jun.Financial.Identifiers.{Uuid, is_nil}
use backend_challenge_go_jun.Financial.Wager.{WagerTransaction}
use backend_challenge_go_jun.Application.{AppError}
use backend_challenge_go_jun.Application.Commands.{validate_resolve_pending_reference}
use backend_challenge_go_jun.Application.Ports.{Repositories, Surroundings}
use backend_challenge_go_jun.Application.Service.{WagerResult}
use backend_challenge_go_jun.Application.Service.Submission.{in_tx, committed, finish, guarded}
use backend_challenge_go_jun.Application.Service.Recovery.{
  resolve_within_tx, resolve_pending_reference,
}
use backend_challenge_go_jun.Application.Service.Deadlines.{resolve_within_tx-Ended}
use backend_challenge_go_jun.Worker.{Round, counted, correlated, resolve_claimed}

-- What a failed use case adds to the count of failures.
abbrev pub failed : Result AppError WagerResult → ℕ
failed (ok result) = 0
failed (err e) = 1

module _ {S : Type 0} (repos : Repositories S) where
  -- The recovery of one claimed transaction, in the state that its round finds.
  abbrev pub resolution : Round S → WagerTransaction → S → S × Result AppError WagerResult
  resolution round t s =
      resolve_pending_reference repos (correlated round.around t) t.id (round.others s)

  -- The recoveries of a pass that fail.
  abbrev pub failures : List (Round S × WagerTransaction) → S → ℕ
  failures [] s = 0
  failures ((round, t) ∷ claimed) s =
      let done = resolution round t s in failed done.1 + failures claimed done.0

  -- In each round the context is not canceled, and the store holds the claimed transaction with a
  -- deadline that has passed.
  abbrev pub Expired : List (Round S × WagerTransaction) → S → Type 0
  Expired [] s = Unit {0}
  Expired ((round, t) ∷ claimed) s =
      (round.canceled ≡ false)
      × ((u : WagerTransaction) × (attempts : ℕ) × (repos.lock_transaction t.id (round.others s)
            ≡ ok (some (u, attempts)))
          × (u.reference_deadline ≤ round.around.now))
      × Expired claimed (resolution round t s).0

committed_ok :
    {A S : Type 0} (commit : Result AppError (Unit {0})) (kept : Bool) (s written : S) (b : A)
    {a : A}
    → (committed commit kept s written b).1 ≡ ok a
    → b ≡ a
committed_ok (ok done) kept s written b h = ok-injective h
committed_ok (err e) kept s written b h = cc

finish_ok :
    {A S : Type 0} (around : Surroundings) (s : S) (m : Result AppError (A × S)) {a : A}
    → (finish around s m).1 ≡ ok a
    → (written : S) × (m ≡ ok (a, written))
finish_ok around s (ok (b, written)) h = (
  written,
  ap (λ x. ok (x, written)) (committed_ok around.commit around.commit_kept s written b h),
)
finish_ok around s (err e) h = cc

begun_ok :
    {A S : Type 0} (begin : Result AppError (Unit {0})) (s : S) (run : S × Result AppError A)
    {a : A}
    → (guarded begin s run).1 ≡ ok a
    → run.1 ≡ ok a
begun_ok (ok done) s run h = h
begun_ok (err e) s run h = cc

-- A transaction that is answered has run its body.
in_tx_ok :
    {A S : Type 0} (around : Surroundings) (body : S → Result AppError (A × S)) (s : S) {a : A}
    → (in_tx around body s).1 ≡ ok a
    → (written : S) × (body s ≡ ok (a, written))
in_tx_ok around body s h =
    finish_ok around s (body s) (begun_ok around.begin s (finish around s (body s)) h)

counted_or_failed :
    (outcome : Result AppError WagerResult)
    → ((result : WagerResult) → outcome ≡ ok result → is_terminal result.state ≡ true)
    → counted outcome + failed outcome ≡ 1
counted_or_failed (ok result) ended = rw (ended result refl) refl
counted_or_failed (err e) ended = refl

resolve_pending_reference-Ended :
    {S : Type 0} (repos : Repositories S) (around : Surroundings) (id : Uuid) (u : WagerTransaction)
    (attempts : ℕ) (s : S)
    → repos.lock_transaction id s ≡ ok (some (u, attempts))
    → u.reference_deadline ≤ around.now
    → (result : WagerResult) → (resolve_pending_reference repos around id s).1 ≡ ok result
    → is_terminal result.state ≡ true
unfolding resolve_pending_reference validate_resolve_pending_reference
resolve_pending_reference-Ended repos around id u attempts s locked late result h =
    elim (Bool-cases (is_nil id)) [
      | inl missing ↦ let g = (rw (resolve_pending_reference, missing) at h) in cc
      | inr given ↦
          let (_, e) =
            in_tx_ok around (resolve_within_tx repos around id) s
              (rw (resolve_pending_reference, given) at h) in
          resolve_within_tx-Ended repos around id u attempts s locked late e
    ]

-- If no round is canceled and the deadline of every claimed transaction has passed when its turn
-- comes, the pass counts each of them as resolved, with a terminal state, unless its use case fails.
pub resolve_claimed-Expired :
    {S : Type 0} (repos : Repositories S) (claimed : List (Round S × WagerTransaction)) (s : S)
    → Expired repos claimed s
    → (resolve_claimed repos claimed s).1 + failures repos claimed s ≡ length claimed
unfolding resolve_claimed
resolve_claimed-Expired repos [] s expired = refl
resolve_claimed-Expired repos ((round, t) ∷ claimed) s (runs, (u, attempts, locked, late), others) =
    let done = resolution repos round t s in
    let one = counted_or_failed done.1 (
      resolve_pending_reference-Ended repos (correlated round.around t) t.id u attempts
        (round.others s) locked late) in
    let rest = resolve_claimed-Expired repos claimed done.0 others in
    rw runs (omega (arith, one, rest))
