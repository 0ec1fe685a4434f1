-- ===== src/Outbox/Leases.antt =====
-- Leases of outbox events over any interleaving of sessions
-- (internal/adapters/postgres/outbox_publisher.go).
use backend_challenge_go_jun.Prelude.{
  some_injective, ℕ, suc, ◌+◌, ◌≤◌, ◌<◌, ◌≡◌, ◌∙◌, refl, sym, ap, arith, Bool, true, false, ◌==◌,
  Option, none, some, if◌then◌else◌, List, ◌∷◌, map, find-map, find-accepted, ==_iff, ok, err,
  Bool-cases, inl, inr, ok-injective,
}
use backend_challenge_go_jun.Financial.{Time}
use backend_challenge_go_jun.Financial.Identifiers.{Uuid}
use backend_challenge_go_jun.Application.{Sentinel, sentinel}
use backend_challenge_go_jun.Outbox.{
  OutboxRow, due_ids, is_member, lease_row, claim_due_events, row_of, holds_lease, update_leased,
  confirm_event, reschedule_event,
}

-- What a session may commit: the rows of a transaction's events, a claim, or the end of a lease.
pub data Step : List OutboxRow → List OutboxRow → Type 0 where
  inserts :
      {rows : List OutboxRow} (r : OutboxRow) → row_of r.event_id rows ≡ none → Step rows (r ∷ rows)
  claims :
      {rows : List OutboxRow} (locked : Uuid → Bool) (now : Time) (limit lease : ℕ)
      → Step rows (claim_due_events locked now limit lease rows).0
  confirms :
      {rows written : List OutboxRow} (id : Uuid) (now : Time) (attempts : ℕ)
      → confirm_event id now attempts rows ≡ ok written
      → Step rows written
  reschedules :
      {rows written : List OutboxRow} (id : Uuid) (next : Time) (attempts : ℕ)
      → reschedule_event id next attempts rows ≡ ok written
      → Step rows written

pub data Steps : List OutboxRow → List OutboxRow → Type 0 where
  done : {rows : List OutboxRow} → Steps rows rows
  next :
      {rows middle last : List OutboxRow} → Step rows middle → Steps middle last → Steps rows last

-- The row of the event has been claimed at least so often.
pub record Ahead (id : Uuid) (n : ℕ) (rows : List OutboxRow) : Type 0 where
  pub row : OutboxRow
  pub present : row_of id rows ≡ some row
  pub count : n ≤ row.attempts

-- A change that keeps the key and does not lower the count keeps the row ahead.
Ahead-map :
    (id : Uuid) (n : ℕ) (f : OutboxRow → OutboxRow) (rows : List OutboxRow)
    → ((r : OutboxRow) → (f r).event_id ≡ r.event_id)
    → ((r : OutboxRow) → row_of id rows ≡ some r → n ≤ r.attempts → n ≤ (f r).attempts)
    → Ahead id n rows
    → Ahead id n (map f rows)
Ahead-map id n f rows key up a = record {
  row = f a.row;
  present = find-map (λ r. r.event_id == id) f rows (λ r. ap (λ x. x == id) (key r)) a.present;
  count = up a.row a.present a.count;
}

pub lease_row-key :
    (ids : List Uuid) (t : Time) (r : OutboxRow) → (lease_row ids t r).event_id ≡ r.event_id
lease_row-key ids t r = elim (Bool-cases (is_member r.event_id ids)) [
  | inl b ↦ rw b refl
  | inr b ↦ rw b refl
]

lease_row-count :
    (ids : List Uuid) (t : Time) (r : OutboxRow) → r.attempts ≤ (lease_row ids t r).attempts
lease_row-count ids t r = elim (Bool-cases (is_member r.event_id ids)) [
  | inl b ↦ rw b (omega arith)
  | inr b ↦ rw b (omega arith)
]

pub changed_key :
    (i : Uuid) (change : OutboxRow → OutboxRow)
    → ((r : OutboxRow) → (change r).event_id ≡ r.event_id)
    → (x : OutboxRow) → (if x.event_id == i then change x else x).event_id ≡ x.event_id
changed_key i change key x = elim (Bool-cases (x.event_id == i)) [
  | inl b ↦ rw b (key x)
  | inr b ↦ rw b refl
]

changed_count :
    (i : Uuid) (change : OutboxRow → OutboxRow) (x : OutboxRow) (n : ℕ)
    → n ≤ x.attempts
    → ((x.event_id == i) ≡ true → n ≤ (change x).attempts)
    → n ≤ (if x.event_id == i then change x else x).attempts
changed_count i change x n least up = elim (Bool-cases (x.event_id == i)) [
  | inl b ↦ rw b (up b)
  | inr b ↦ rw b least
]

update_leased-Ahead :
    (o : Option OutboxRow) (i : Uuid) (attempts : ℕ) (change : OutboxRow → OutboxRow)
    (rows : List OutboxRow) (id : Uuid) (n : ℕ) {written : List OutboxRow}
    → row_of i rows ≡ o
    → ((r : OutboxRow) → (change r).event_id ≡ r.event_id)
    → ((r : OutboxRow) → holds_lease attempts r ≡ true → r.attempts ≤ (change r).attempts)
    → update_leased o i attempts change rows ≡ ok written
    → Ahead id n rows
    → Ahead id n written
update_leased-Ahead none i attempts change rows id n o key up h a = cc
update_leased-Ahead (some r) i attempts change rows id n o key up h a =
    elim (Bool-cases (holds_lease attempts r)) [
      | inl held ↦ rw (← ok-injective (rw held at h)) (
          Ahead-map id n (λ x. if x.event_id == i then change x else x) rows
            (changed_key i change key)
            (λ x found least. changed_count i change x n least (λ same.
              let own = (==_iff x.event_id i).0 same in
              let whose =
                (==_iff x.event_id id).0 (find-accepted (λ y. y.event_id == id) rows found) in
              let one =
                some_injective (sym o ∙ ap (λ j. row_of j rows) (sym own ∙ whose) ∙ found) in
              omega (arith, up x (rw one at held), least)))
            a)
      | inr lost ↦ let g = (rw lost at h) in cc
    ]

-- Anything that a session commits keeps a row as far ahead as it was.
Step-Ahead :
    (id : Uuid) (n : ℕ) {rows written : List OutboxRow}
    → Step rows written
    → Ahead id n rows
    → Ahead id n written
unfolding claim_due_events confirm_event reschedule_event
Step-Ahead id n {rows} (inserts r fresh) a = record {
  row = a.row;
  present = elim (Bool-cases (r.event_id == id)) [
    | inl same ↦
        let absent = ap (λ j. row_of j rows) (sym ((==_iff r.event_id id).0 same)) ∙ fresh in
        let g = sym a.present ∙ absent in cc
    | inr other ↦ rw other a.present
  ];
  count = a.count;
}
Step-Ahead id n {rows} (claims locked now limit lease) a =
    let ids = due_ids locked now limit rows in
    Ahead-map id n (lease_row ids (now + lease)) rows (lease_row-key ids (now + lease))
      (λ r found least. omega (arith, lease_row-count ids (now + lease) r, least)) a
Step-Ahead id n {rows} (confirms i now attempts e) a =
    update_leased-Ahead (row_of i rows) i attempts _ rows id n refl (λ r. refl)
      (λ r held. omega arith) e a
Step-Ahead id n {rows} (reschedules i later attempts e) a =
    update_leased-Ahead (row_of i rows) i attempts _ rows id n refl (λ r. refl)
      (λ r held. ground arith) e a

Steps-Ahead :
    (id : Uuid) (n : ℕ) {rows written : List OutboxRow}
    → Steps rows written
    → Ahead id n rows
    → Ahead id n written
Steps-Ahead id n done a = a
Steps-Ahead id n (next s rest) a = Steps-Ahead id n rest (Step-Ahead id n s a)

update_leased-lost :
    (o : Option OutboxRow) (i : Uuid) (attempts : ℕ) (change : OutboxRow → OutboxRow)
    (rows : List OutboxRow)
    → ((r : OutboxRow) → o ≡ some r → attempts < r.attempts)
    → update_leased o i attempts change rows ≡ err (sentinel Sentinel.outbox_lease_lost)
update_leased-lost none i attempts change rows ahead = refl
update_leased-lost (some r) i attempts change rows ahead =
    let later = ahead r refl in
    let lost : holds_lease attempts r ≡ false = ground arith in rw lost refl

-- A lease that has run out and was taken by another claim is lost for good: whatever any sessions
-- commit after that claim, the earlier holder, who knows the count of attempts in front of it, can
-- neither confirm nor reschedule the event, and is told that the lease is lost.
pub confirm_event-stale :
    (id : Uuid) (r : OutboxRow) (rows last : List OutboxRow) (locked : Uuid → Bool) (now : Time)
    (limit lease : ℕ) (at_instant next_attempt_at : Time)
    → row_of id rows ≡ some r
    → is_member id (due_ids locked now limit rows) ≡ true
    → Steps (claim_due_events locked now limit lease rows).0 last
    → (confirm_event id at_instant r.attempts last ≡ err (sentinel Sentinel.outbox_lease_lost))
      × (reschedule_event id next_attempt_at r.attempts last
          ≡ err (sentinel Sentinel.outbox_lease_lost))
unfolding claim_due_events confirm_event reschedule_event
confirm_event-stale id r rows last locked now limit lease at_instant next_attempt_at found due
      steps =
    let ids = due_ids locked now limit rows in
    let own = (==_iff r.event_id id).0 (find-accepted (λ y. y.event_id == id) rows found) in
    let member : is_member r.event_id ids ≡ true = ap (λ j. is_member j ids) own ∙ due in
    let claimed : Ahead id (suc r.attempts) (map (lease_row ids (now + lease)) rows) = record {
      row = lease_row ids (now + lease) r;
      present =
          find-map (λ x. x.event_id == id) (lease_row ids (now + lease)) rows
            (λ x. ap (λ j. j == id) (lease_row-key ids (now + lease) x)) found;
      count = rw member (omega arith);
    } in
    let ahead = Steps-Ahead id (suc r.attempts) steps claimed in
    let later : (x : OutboxRow) → row_of id last ≡ some x → r.attempts < x.attempts = λ x seen.
      let same = some_injective (sym ahead.present ∙ seen) in
      let c = ahead.count in let d = ap (λ y. y.attempts) same in omega arith in
    (
      update_leased-lost (row_of id last) id r.attempts _ last later,
      update_leased-lost (row_of id last) id r.attempts _ last later,
    )
