-- ===== src/Application/Service/Inbox.antt =====
-- A delivery that was handled is on record (internal/application/service.go: SubmitWagerFromInbox,
-- with the port InboxRepository of internal/application/ports.go).
use backend_challenge_go_jun.Prelude.{
  Bool, true, Option, none, some, List, [], ◌∷◌, take, Result, ok, err, ◌≡◌, ap, refl, >>=-eq-ok,
  if-eq-ok, ok-injective, ◌>>◌, Bool-cases, inl, inr,
}
use backend_challenge_go_jun.Prelude.Bytes.{Bytes, bytes_eq, bytes_eq_iff, bytes_eq_refl}
use backend_challenge_go_jun.Financial.{Time}
use backend_challenge_go_jun.Application.{AppError, Sentinel, is}
use backend_challenge_go_jun.Application.Commands.{
  SubmitWagerCommand, InboxDelivery, validate_submit_wager, validate_inbox_delivery,
}
use backend_challenge_go_jun.Application.Ports.{Repositories, Surroundings}
use backend_challenge_go_jun.Application.Service.{WagerResult}
use backend_challenge_go_jun.Application.Service.Submission.{
  Attempt, submit_within_tx, deliver_new, deliver_within_tx, in_tx, finish, committed, next_of,
  with_retries, guarded, max_concurrent_write_retries, submit_wager_from_inbox,
}
use backend_challenge_go_jun.Application.Service.Frames.{Stable}
use backend_challenge_go_jun.Application.Service.Frames.Submission.{submit_within_tx-Kept}

-- To begin a delivery of the message finds this digest, and writes nothing.
abbrev pub Recorded : {S : Type 0} → Repositories S → (consumer message digest : Bytes) → S → Type 0
Recorded repos consumer message digest s =
    (d : InboxDelivery)
    → d.consumer_name ≡ consumer
    → d.message_id ≡ message
    → repos.begin_delivery d s ≡ ok (some digest, s)

abbrev pub digest_of : InboxDelivery → Option Bytes → Bytes
digest_of d none = d.digest
digest_of d (some digest) = digest

-- What the inbox relies on: to begin a delivery leaves it on record under its digest or under the
-- one that was there, and neither its completion nor the other writes remove the record.
pub record KeepsInbox {S : Type 0} (repos : Repositories S) : Type 0 where
  pub begun :
      (d : InboxDelivery) (stored : Option Bytes) (s s' : S)
      → repos.begin_delivery d s ≡ ok (stored, s')
      → Recorded repos d.consumer_name d.message_id (digest_of d stored) s'
  pub completed :
      (consumer message : Bytes) (now : Time) (c m digest : Bytes) (s s' : S)
      → repos.complete_delivery consumer message now s ≡ ok s'
      → Recorded repos c m digest s
      → Recorded repos c m digest s'
  pub written : (c m digest : Bytes) → Stable repos (Recorded repos c m digest)

module _ {S : Type 0} (repos : Repositories S) (laws : KeepsInbox repos) where
  deliver_new-Recorded :
      (around : Surroundings) (stored : Option Bytes) (cmd : SubmitWagerCommand) (d : InboxDelivery)
      (digest : Bytes) (s : S) {answer : Option WagerResult × S}
      → Recorded repos d.consumer_name d.message_id (digest_of d stored) s
      → deliver_new repos around stored cmd d digest s ≡ ok answer
      → Recorded repos d.consumer_name d.message_id d.digest answer.1
  unfolding deliver_new
  deliver_new-Recorded around none cmd d digest s k e =
      let (submitted, b, e) = >>=-eq-ok (submit_within_tx repos around cmd digest s) _ e in
      let kept =
        submit_within_tx-Kept repos around (laws.written d.consumer_name d.message_id d.digest) cmd
          digest s b k in
      let (s1, c, e) =
        >>=-eq-ok
          (repos.complete_delivery d.consumer_name d.message_id around.completed_at submitted.1) _
          e in
      rw (← ok-injective e) (
        laws.completed d.consumer_name d.message_id around.completed_at _ _ _ submitted.1 s1 c kept)
  deliver_new-Recorded around (some stored) cmd d digest s k e =
      if-eq-ok (bytes_eq stored d.digest) _ _ e
        (λ h e.
          let same = (bytes_eq_iff stored d.digest).0 h in rw (← ok-injective e) (rw (← same) k))
        (λ _ e. cc)

  pub deliver_within_tx-Recorded :
      (around : Surroundings) (cmd : SubmitWagerCommand) (d : InboxDelivery) (digest : Bytes)
      (s : S) {answer : Option WagerResult × S}
      → deliver_within_tx repos around cmd d digest s ≡ ok answer
      → Recorded repos d.consumer_name d.message_id d.digest answer.1
  unfolding deliver_within_tx
  deliver_within_tx-Recorded around cmd d digest s e =
      let (begun, b, e) = >>=-eq-ok (repos.begin_delivery d s) _ e in
      deliver_new-Recorded around begun.0 cmd d digest begun.1 (laws.begun d begun.0 s begun.1 b) e

-- A successful retry loop ran its body with success.
abbrev Ran :
    {A : Type 0} {S : Type 0} → (Surroundings → S → Result AppError (A × S)) → A → S → Type 0
Ran {A} {S} body a left = (around : Surroundings) × (s : S) × (body around s ≡ ok (a, left))

guarded-eq-ok :
    {A : Type 0} {S : Type 0} (check : Result AppError (Unit {0})) (s : S)
    (run : S × Result AppError A) {a : A} {left : S}
    → guarded check s run ≡ (left, ok a)
    → (check ≡ ok tt) × (run ≡ (left, ok a))
guarded-eq-ok (ok valid) s run h = (refl, h)
guarded-eq-ok (err e) s run h = let g = ap (λ x. x.1) h in cc

committed-Ran :
    {A S : Type 0} (commit : Result AppError (Unit {0})) (kept : Bool) (s written : S) (b a : A)
    (left : S)
    → committed commit kept s written b ≡ (left, ok a)
    → ◌≡◌ {A = Result AppError (A × S)} (ok (b, written)) (ok (a, left))
committed-Ran (ok done) kept s written b a left h =
    rw (← ok-injective (ap (λ x. x.1) h), ← ap (λ x. x.0) h) refl
committed-Ran (err e) kept s written b a left h = let g = ap (λ x. x.1) h in cc

module _ {A : Type 0} {S : Type 0} (body : Surroundings → S → Result AppError (A × S)) where
  finish-Ran :
      (around : Surroundings) (s : S) (m : Result AppError (A × S)) (a : A) (left : S)
      → finish around s m ≡ (left, ok a)
      → m ≡ ok (a, left)
  finish-Ran around s (err e) a left h = let g = ap (λ x. x.1) h in cc
  finish-Ran around s (ok (b, written)) a left h =
      committed-Ran around.commit around.commit_kept s written b a left h

  next_of-Ran :
      (done : S × Result AppError A) (retry : Option AppError → S → S × Result AppError A) (a : A)
      (left : S)
      → (done ≡ (left, ok a) → Ran body a left)
      → ((o : Option AppError) (s : S) → retry o s ≡ (left, ok a) → Ran body a left)
      → next_of done retry ≡ (left, ok a)
      → Ran body a left
  next_of-Ran (s, ok b) retry a left now later h = now h
  next_of-Ran (s, err e) retry a left now later h =
      elim (Bool-cases (is e Sentinel.concurrent_write)) [
        | inl c ↦ later (some e) s (rw c at h)
        | inr c ↦ let g = (ap (λ x. x.1) (rw c at h)) in cc
      ]

  with_retries-Ran :
      (attempts : List (Attempt S)) (last : Option AppError) (s : S) {a : A} {left : S}
      → with_retries body attempts last s ≡ (left, ok a)
      → Ran body a left
  unfolding with_retries
  with_retries-Ran [] none s h = let g = ap (λ x. x.1) h in cc
  with_retries-Ran [] (some e) s h = let g = ap (λ x. x.1) h in cc
  with_retries-Ran (attempt ∷ attempts) last s {a} {left} h =
      let s0 = attempt.others s in
      next_of-Ran (in_tx attempt.around (body attempt.around) s0) (with_retries body attempts) a
        left
        (λ e.
          let m = body attempt.around s0 in
          let (_, f) = guarded-eq-ok attempt.around.begin s0 (finish attempt.around s0 m) e in
          (attempt.around, s0, finish-Ran attempt.around s0 m a left f))
        (λ o s e. with_retries-Ran attempts o s e) h

validated :
    (cmd : SubmitWagerCommand) (d later : InboxDelivery)
    → (validate_submit_wager cmd >> validate_inbox_delivery d) ≡ ok tt
    → validate_inbox_delivery later ≡ ok tt
    → (validate_submit_wager cmd >> validate_inbox_delivery later) ≡ ok tt
validated cmd d later h v =
    let (_, c, _) = >>=-eq-ok (validate_submit_wager cmd) _ h in rw (c, v) refl

-- A delivery that is answered with success is well formed.
pub submit_wager_from_inbox-valid :
    {S : Type 0} (repos : Repositories S) (attempts : List (Attempt S)) (cmd : SubmitWagerCommand)
    (d : InboxDelivery) (digest : Bytes) (s : S) {answer : Option WagerResult} {left : S}
    → submit_wager_from_inbox repos attempts cmd d digest s ≡ (left, ok answer)
    → validate_inbox_delivery d ≡ ok tt
unfolding submit_wager_from_inbox
submit_wager_from_inbox-valid repos attempts cmd d digest s h =
    let (g, _) =
      guarded-eq-ok (validate_submit_wager cmd >> validate_inbox_delivery d) s
        (with_retries (λ a. deliver_within_tx repos a cmd d digest)
          (take max_concurrent_write_retries attempts) none s)
        h in
    (>>=-eq-ok (validate_submit_wager cmd) _ g).2

module _ {S : Type 0} (repos : Repositories S) (laws : KeepsInbox repos) where
  -- A delivery that is answered with success is on record afterwards, under its own digest.
  pub submit_wager_from_inbox-Recorded :
      (attempts : List (Attempt S)) (cmd : SubmitWagerCommand) (d : InboxDelivery) (digest : Bytes)
      (s : S) {answer : Option WagerResult} {left : S}
      → submit_wager_from_inbox repos attempts cmd d digest s ≡ (left, ok answer)
      → Recorded repos d.consumer_name d.message_id d.digest left
  unfolding submit_wager_from_inbox
  submit_wager_from_inbox-Recorded attempts cmd d digest s h =
      let body : Surroundings → S → Result AppError (Option WagerResult × S) =
        λ around. deliver_within_tx repos around cmd d digest in
      let (_, r) =
        guarded-eq-ok (validate_submit_wager cmd >> validate_inbox_delivery d) s
          (with_retries body (take max_concurrent_write_retries attempts) none s) h in
      let (around, s0, done) =
        with_retries-Ran body (take max_concurrent_write_retries attempts) none s r in
      deliver_within_tx-Recorded repos laws around cmd d digest s0 done

  -- A message that was handled once is answered as a duplicate when it is delivered again with the
  -- same body, and the store is left as it is: if the later delivery is well formed, and in its
  -- first attempt no other transaction comes in between and the database begins and commits.
  pub submit_wager_from_inbox-duplicate :
      (attempts : List (Attempt S)) (around : Surroundings) (rest : List (Attempt S))
      (cmd : SubmitWagerCommand) (d later : InboxDelivery) (digest : Bytes) (s : S)
      {answer : Option WagerResult} {left : S}
      → submit_wager_from_inbox repos attempts cmd d digest s ≡ (left, ok answer)
      → later.consumer_name ≡ d.consumer_name
      → later.message_id ≡ d.message_id
      → later.digest ≡ d.digest
      → validate_inbox_delivery later ≡ ok tt
      → around.begin ≡ ok tt
      → around.commit ≡ ok tt
      → submit_wager_from_inbox repos
          (record { around = around; others = λ x. x } ∷ rest)
          cmd
          later
          digest
          left
        ≡ (left, ok none)
  unfolding submit_wager_from_inbox with_retries deliver_within_tx deliver_new
  submit_wager_from_inbox-duplicate attempts around rest cmd d later digest s {answer} {left} h c m
        x v b k =
      let r = submit_wager_from_inbox-Recorded attempts cmd d digest s h in
      let (g, _) =
        guarded-eq-ok (validate_submit_wager cmd >> validate_inbox_delivery d) s
          (with_retries (λ a. deliver_within_tx repos a cmd d digest)
            (take max_concurrent_write_retries attempts) none s)
          h in
      let same : bytes_eq d.digest later.digest ≡ true = rw x (bytes_eq_refl d.digest) in
      rw (validated cmd d later g v, b, r later c m, same, k) refl
