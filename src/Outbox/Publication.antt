-- ===== src/Outbox/Publication.antt =====
-- A published event stays as it is (internal/adapters/postgres/outbox_publisher.go).
use backend_challenge_go_jun.Prelude.{
  some_injective, ℕ, zero, suc, ◌+◌, ◌≡◌, ◌∙◌, refl, sym, ap, arith, Bool, true, false, ◌==◌,
  Option, none, some, if◌then◌else◌, List, [], ◌∷◌, map, filter, take, find-map, find-accepted,
  ==_iff, ok, Bool-cases, inl, inr, ok-injective,
}
use backend_challenge_go_jun.Financial.{Time}
use backend_challenge_go_jun.Financial.Identifiers.{Uuid}
use backend_challenge_go_jun.Outbox.{
  OutboxRow, is_some, is_due, is_earlier, insert_earlier, order_by_attempt, due_ids, is_member,
  lease_row, claim_due_events, row_of, holds_lease, update_leased, confirm_event, reschedule_event,
}
use backend_challenge_go_jun.Outbox.Leases.{
  Step, inserts, claims, confirms, reschedules, Steps, done, next, lease_row-key, changed_key,
}

-- No row has the key.
abbrev Absent : Uuid → List OutboxRow → Type 0
Absent id [] = Unit {0}
Absent id (x ∷ xs) = ((x.event_id == id) ≡ false) × Absent id xs

-- The primary key of the table.
abbrev pub Keyed : List OutboxRow → Type 0
Keyed [] = Unit {0}
Keyed (x ∷ xs) = Absent x.event_id xs × Keyed xs

Absent-filter :
    (q : OutboxRow → Bool) (id : Uuid) (xs : List OutboxRow)
    → Absent id xs
    → Absent id (filter q xs)
Absent-filter q id [] a = tt
Absent-filter q id (x ∷ xs) (n, a) = elim (Bool-cases (q x)) [
  | inl b ↦ rw b (n, Absent-filter q id xs a)
  | inr b ↦ rw b (Absent-filter q id xs a)
]

Absent-insert_earlier :
    (id : Uuid) (r : OutboxRow) (xs : List OutboxRow)
    → (r.event_id == id) ≡ false
    → Absent id xs
    → Absent id (insert_earlier r xs)
Absent-insert_earlier id r [] n a = (n, tt)
Absent-insert_earlier id r (x ∷ xs) n (m, a) = elim (Bool-cases (is_earlier r x)) [
  | inl b ↦ rw b (n, (m, a))
  | inr b ↦ rw b (m, Absent-insert_earlier id r xs n a)
]

Absent-order_by_attempt :
    (id : Uuid) (xs : List OutboxRow) → Absent id xs → Absent id (order_by_attempt xs)
Absent-order_by_attempt id [] a = tt
Absent-order_by_attempt id (x ∷ xs) (n, a) =
    Absent-insert_earlier id x (order_by_attempt xs) n (Absent-order_by_attempt id xs a)

Absent-take : (n : ℕ) (id : Uuid) (xs : List OutboxRow) → Absent id xs → Absent id (take n xs)
Absent-take zero id xs a = tt
Absent-take (suc n) id [] a = tt
Absent-take (suc n) id (x ∷ xs) (m, a) = (m, Absent-take n id xs a)

Absent-is_member :
    (id : Uuid) (xs : List OutboxRow)
    → Absent id xs
    → is_member id (map (λ r. r.event_id) xs) ≡ false
Absent-is_member id [] a = refl
Absent-is_member id (x ∷ xs) (n, a) = rw (n, Absent-is_member id xs a) refl

row_of-Absent : (id : Uuid) (xs : List OutboxRow) → row_of id xs ≡ none → Absent id xs
row_of-Absent id [] h = tt
row_of-Absent id (x ∷ xs) h = elim (Bool-cases (x.event_id == id)) [
  | inl b ↦ let g = (rw b at h) in cc
  | inr b ↦ (b, row_of-Absent id xs (rw b at h))
]

-- Rows that are turned away by a test do not pass it under another guise.
filtered_out :
    (q : OutboxRow → Bool) (id : Uuid) (r : OutboxRow) (xs : List OutboxRow)
    → Keyed xs
    → row_of id xs ≡ some r
    → q r ≡ false
    → Absent id (filter q xs)
filtered_out q id r [] k h n = tt
filtered_out q id r (x ∷ xs) (a, k) h n = elim (Bool-cases (x.event_id == id)) [
  | inl b ↦
      let same = some_injective (rw b at h) in
      let out : q x ≡ false = ap q same ∙ n in
      let absent : Absent id xs = (rw ((==_iff x.event_id id).0 b) at a) in
      rw out (Absent-filter q id xs absent)
  | inr b ↦
      let rest = filtered_out q id r xs k (rw b at h) n in
      elim (Bool-cases (q x)) [ inl c ↦ rw c (b, rest) | inr c ↦ rw c rest ]
]

-- A published event is never due.
due_ids-published :
    (locked : Uuid → Bool) (now : Time) (limit : ℕ) (id : Uuid) (r : OutboxRow)
    (rows : List OutboxRow)
    → Keyed rows
    → row_of id rows ≡ some r
    → is_some r.published_at ≡ true
    → is_member id (due_ids locked now limit rows) ≡ false
unfolding due_ids
due_ids-published locked now limit id r rows k h p =
    let out : is_due locked now r ≡ false = rw p refl in
    Absent-is_member id (take limit (order_by_attempt (filter (is_due locked now) rows))) (
      Absent-take limit id (order_by_attempt (filter (is_due locked now) rows)) (
        Absent-order_by_attempt id (filter (is_due locked now) rows)
          (filtered_out (is_due locked now) id r rows k h out)))

Absent-map :
    (f : OutboxRow → OutboxRow) (id : Uuid) (xs : List OutboxRow)
    → ((x : OutboxRow) → (f x).event_id ≡ x.event_id)
    → Absent id xs
    → Absent id (map f xs)
Absent-map f id [] key a = tt
Absent-map f id (x ∷ xs) key (n, a) = (ap (λ j. j == id) (key x) ∙ n, Absent-map f id xs key a)

Keyed-map :
    (f : OutboxRow → OutboxRow) (xs : List OutboxRow)
    → ((x : OutboxRow) → (f x).event_id ≡ x.event_id)
    → Keyed xs
    → Keyed (map f xs)
Keyed-map f [] key k = tt
Keyed-map f (x ∷ xs) key (a, k) =
    (rw (key x) (Absent-map f x.event_id xs key a), Keyed-map f xs key k)

-- The table has its key, and the row of the event is this one.
pub record Settled (id : Uuid) (r : OutboxRow) (rows : List OutboxRow) : Type 0 where
  pub keyed : Keyed rows
  pub present : row_of id rows ≡ some r

Settled-map :
    (f : OutboxRow → OutboxRow) (id : Uuid) (r : OutboxRow) (rows : List OutboxRow)
    → ((x : OutboxRow) → (f x).event_id ≡ x.event_id)
    → f r ≡ r
    → Settled id r rows
    → Settled id r (map f rows)
Settled-map f id r rows key same s = record {
  keyed = Keyed-map f rows key s.keyed;
  present =
      find-map (λ x. x.event_id == id) f rows (λ x. ap (λ j. j == id) (key x)) s.present
      ∙ ap some same;
}

update_leased-Settled :
    (o : Option OutboxRow) (i : Uuid) (attempts : ℕ) (change : OutboxRow → OutboxRow)
    (rows : List OutboxRow) (id : Uuid) (r : OutboxRow) {written : List OutboxRow}
    → row_of i rows ≡ o
    → ((x : OutboxRow) → (change x).event_id ≡ x.event_id)
    → is_some r.published_at ≡ true
    → update_leased o i attempts change rows ≡ ok written
    → Settled id r rows
    → Settled id r written
update_leased-Settled none i attempts change rows id r o key p h s = cc
update_leased-Settled (some x) i attempts change rows id r o key p h s =
    elim (Bool-cases (holds_lease attempts x)) [
      | inl held ↦ rw (← ok-injective (rw held at h)) (
          Settled-map (λ y. if y.event_id == i then change y else y) id r rows
            (changed_key i change key)
            (elim (Bool-cases (r.event_id == i)) [
              | inl b ↦
                  let own = (==_iff r.event_id i).0 b in
                  let whose =
                    (==_iff r.event_id id).0
                      (find-accepted (λ y. y.event_id == id) rows s.present) in
                  let one =
                    some_injective
                      (sym o ∙ ap (λ j. row_of j rows) (sym own ∙ whose) ∙ s.present) in
                  let g = (rw one at held) in ground arith
              | inr b ↦ rw b refl
            ])
            s)
      | inr lost ↦ let g = (rw lost at h) in cc
    ]

Step-Settled :
    (id : Uuid) (r : OutboxRow) {rows written : List OutboxRow}
    → is_some r.published_at ≡ true
    → Step rows written
    → Settled id r rows
    → Settled id r written
unfolding claim_due_events confirm_event reschedule_event
Step-Settled id r {rows} p (inserts x fresh) s = record {
  keyed = (row_of-Absent x.event_id rows fresh, s.keyed);
  present = elim (Bool-cases (x.event_id == id)) [
    | inl same ↦
        let absent = ap (λ j. row_of j rows) (sym ((==_iff x.event_id id).0 same)) ∙ fresh in
        let g = sym s.present ∙ absent in cc
    | inr other ↦ rw other s.present
  ];
}
Step-Settled id r {rows} p (claims locked now limit lease) s =
    let ids = due_ids locked now limit rows in
    let own = (==_iff r.event_id id).0 (find-accepted (λ y. y.event_id == id) rows s.present) in
    let out : is_member r.event_id ids ≡ false =
      ap (λ j. is_member j ids) own
      ∙ due_ids-published locked now limit id r rows s.keyed s.present p in
    Settled-map (lease_row ids (now + lease)) id r rows (lease_row-key ids (now + lease))
      (rw out refl) s
Step-Settled id r {rows} p (confirms i now attempts e) s =
    update_leased-Settled (row_of i rows) i attempts _ rows id r refl (λ x. refl) p e s
Step-Settled id r {rows} p (reschedules i later attempts e) s =
    update_leased-Settled (row_of i rows) i attempts _ rows id r refl (λ x. refl) p e s

Steps-Settled :
    (id : Uuid) (r : OutboxRow) {rows last : List OutboxRow}
    → is_some r.published_at ≡ true
    → Steps rows last
    → Settled id r rows
    → Settled id r last
Steps-Settled id r p done s = s
Steps-Settled id r p (next step rest) s = Steps-Settled id r p rest (Step-Settled id r p step s)

-- In a table with its primary key, the row of a published event stays as it is, whatever sessions
-- commit, and no claim selects it.
pub published_final :
    (id : Uuid) (r : OutboxRow) {rows last : List OutboxRow} (locked : Uuid → Bool) (now : Time)
    (limit : ℕ)
    → Keyed rows
    → row_of id rows ≡ some r
    → is_some r.published_at ≡ true
    → Steps rows last
    → (row_of id last ≡ some r) × (is_member id (due_ids locked now limit last) ≡ false)
published_final id r {rows} {last} locked now limit k h p steps =
    let s = Steps-Settled id r p steps (record { keyed = k; present = h }) in
    (s.present, due_ids-published locked now limit id r last s.keyed s.present p)
