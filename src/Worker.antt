-- ===== src/Worker.antt =====
-- One pass of the worker over the references that wait (internal/adapters/worker/reference.go:
-- ResolveOnce). The store is reached through the ports; metrics and logs are left out.
pub mod Deadlines
mod Tests
use backend_challenge_go_jun.Prelude.{
  ℕ, zero, suc, ◌+◌, ◌*◌, ◌≤◌, ◌≡◌, refl, arith, Bool, true, false, Option, none, some,
  if◌then◌else◌, List, [], ◌∷◌, length, Result, ok, err, Bool-cases, inl, inr,
}
use backend_challenge_go_jun.Financial.{Time, is_terminal}
use backend_challenge_go_jun.Financial.Wager.{WagerTransaction}
use backend_challenge_go_jun.Application.{AppError}
use backend_challenge_go_jun.Application.Backoff.{second}
use backend_challenge_go_jun.Application.Ports.{Repositories, Surroundings}
use backend_challenge_go_jun.Application.Service.{WagerResult}
use backend_challenge_go_jun.Application.Service.Recovery.{resolve_pending_reference}

abbrev pub claim_batch : ℕ
claim_batch = 50

abbrev pub claim_lease : ℕ
claim_lease = 30 * second

-- What a pass meets in front of one claimed transaction: whether the context is canceled, what
-- surrounds the use case, and what other sessions have done to the store.
pub record Round (S : Type 0) : Type 0 where
  pub canceled : Bool
  pub around : Surroundings
  pub others : S → S

-- What a result adds to the count of the pass.
abbrev pub counted : Result AppError WagerResult → ℕ
counted (ok result) = if is_terminal result.state then 1 else 0
counted (err e) = 0

-- The identity of the transaction is the correlation of its recovery.
abbrev pub correlated : Surroundings → WagerTransaction → Surroundings
correlated around t = record around { correlation = around.uuid_string t.id }

module _ {S : Type 0} (repos : Repositories S) where
  -- The loop over the claimed transactions, each with its round; a failed one is passed over.
  unfoldable pub resolve_claimed : List (Round S × WagerTransaction) → S → S × ℕ
  resolve_claimed [] s = (s, 0)
  resolve_claimed ((round, t) ∷ claimed) s =
      let done =
        resolve_pending_reference repos (correlated round.around t) t.id (round.others s) in
      let rest = resolve_claimed claimed done.0 in
      if round.canceled then (s, 0) else (rest.0, counted done.1 + rest.1)

  abbrev pub with_rounds :
      (ℕ → Round S) → ℕ → List WagerTransaction → List (Round S × WagerTransaction)
  with_rounds rounds n [] = []
  with_rounds rounds n (t ∷ claimed) = (rounds n, t) ∷ with_rounds rounds (suc n) claimed

  abbrev pub after_claim :
      Result AppError (List WagerTransaction × S) → (ℕ → Round S) → S → S × Result AppError ℕ
  after_claim (err e) rounds s = (s, err e)
  after_claim (ok (claimed, written)) rounds s =
      let done = resolve_claimed (with_rounds rounds 0 claimed) written in (done.0, ok done.1)

  unfoldable pub resolve_once : Time → (ℕ → Round S) → S → S × Result AppError ℕ
  unfolding resolve_claimed
  resolve_once now rounds s =
      after_claim (repos.claim_due_references now claim_batch claim_lease s) rounds s
