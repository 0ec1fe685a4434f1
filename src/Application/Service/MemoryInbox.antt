-- ===== src/Application/Service/MemoryInbox.antt =====
-- The inbox of the store in memory keeps its records.
use backend_challenge_go_jun.Prelude.{
  ◌≡◌, ◌∙◌, refl, sym, ap, Option, none, some, List, [], ◌∷◌, ok-injective,
}
use backend_challenge_go_jun.Prelude.Bytes.{Bytes, bytes_eq_refl}
use backend_challenge_go_jun.Application.Commands.{InboxDelivery}
use backend_challenge_go_jun.Application.Service.Frames.{Stable}
use backend_challenge_go_jun.Application.Service.Inbox.{Recorded, digest_of, KeepsInbox}
use backend_challenge_go_jun.Application.Service.Memory.{Memory, memory, delivered, begun}

-- The record of a message, as the list of deliveries has it.
abbrev Listed : (consumer message digest : Bytes) → List InboxDelivery → Type 0
Listed consumer message digest inbox =
    (d : InboxDelivery)
    → d.consumer_name ≡ consumer
    → d.message_id ≡ message
    → delivered d inbox ≡ some digest

begun-some :
    (d : InboxDelivery) (o : Option Bytes) (digest : Bytes) (s s' : Memory)
    → begun d o s ≡ (some digest, s')
    → o ≡ some digest
begun-some d none digest s s' h = let g = ap (λ x. x.0) h in cc
begun-some d (some stored) digest s s' h = ap (λ x. x.0) h

Listed-Recorded :
    (c m digest : Bytes) (s : Memory) → Listed c m digest s.inbox → Recorded memory c m digest s
Listed-Recorded c m digest s l d e f = rw (l d e f) refl

Recorded-Listed :
    (c m digest : Bytes) (s : Memory) → Recorded memory c m digest s → Listed c m digest s.inbox
Recorded-Listed c m digest s r d e f =
    begun-some d (delivered d s.inbox) digest s s (ok-injective (r d e f))

-- A write that leaves the inbox as it is.
kept :
    (c m digest : Bytes) (s s' : Memory)
    → s'.inbox ≡ s.inbox
    → Recorded memory c m digest s
    → Recorded memory c m digest s'
kept c m digest s s' same r =
    let l = Recorded-Listed c m digest s r in
    Listed-Recorded c m digest s' (λ d e f. ap (λ x. delivered d x) same ∙ l d e f)

same_message :
    (d later : InboxDelivery) (inbox : List InboxDelivery)
    → later.consumer_name ≡ d.consumer_name
    → later.message_id ≡ d.message_id
    → delivered later inbox ≡ delivered d inbox
same_message d later [] c m = refl
same_message d later (x ∷ xs) c m = rw (c, m, same_message d later xs c m) refl

begun-Recorded :
    (d : InboxDelivery) (o stored : Option Bytes) (s s' : Memory)
    → delivered d s.inbox ≡ o
    → begun d o s ≡ (stored, s')
    → Recorded memory d.consumer_name d.message_id (digest_of d stored) s'
begun-Recorded d none stored s s' h e =
    rw (← ap (λ x. x.0) e, ← ap (λ x. x.1) e)
      (Listed-Recorded d.consumer_name d.message_id d.digest _
        (λ later c m. rw (c, m, bytes_eq_refl d.consumer_name, bytes_eq_refl d.message_id) refl))
begun-Recorded d (some digest) stored s s' h e =
    rw (← ap (λ x. x.0) e, ← ap (λ x. x.1) e)
      (Listed-Recorded d.consumer_name d.message_id digest s
        (λ later c m. same_message d later s.inbox c m ∙ h))

memory-Stable : (c m digest : Bytes) → Stable memory (Recorded memory c m digest)
memory-Stable c m digest = record {
  saved = λ w {s} {s'} e. kept c m digest s s' (ap (λ x. x.inbox) (sym (ok-injective e)));
  inserted = λ t {s} {s'} e. kept c m digest s s' (ap (λ x. x.inbox) (sym (ok-injective e)));
  updated = λ t o {s} {s'} e. kept c m digest s s' (ap (λ x. x.inbox) (sym (ok-injective e)));
  entered = λ t {s} {s'} e. kept c m digest s s' (ap (λ x. x.inbox) (sym (ok-injective e)));
  claimed = λ t {s} {s'} e. kept c m digest s s' (ap (λ x. x.inbox) (sym (ok-injective e)));
  emitted = λ t now {s} {s'} e. kept c m digest s s' (ap (λ x. x.inbox) (sym (ok-injective e)));
}

pub memory-KeepsInbox : KeepsInbox memory
memory-KeepsInbox = record {
  begun =
      λ d stored s s' e. begun-Recorded d (delivered d s.inbox) stored s s' refl (ok-injective e);
  completed = λ consumer message now c m digest s s' e.
      kept c m digest s s' (ap (λ x. x.inbox) (sym (ok-injective e)));
  written = memory-Stable;
}
