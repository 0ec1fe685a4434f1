-- ===== src/Postgres/References/Leases.antt =====
-- The lease of a claimed reference over any interleaving of sessions that leave its row alone
-- (internal/adapters/postgres/transactions.go).
use backend_challenge_go_jun.Prelude.{
  sym, ℕ, zero, suc, ◌+◌, ◌<◌, ◌≡◌, ◌∙◌, refl, ap, arith, Bool, true, false, ◌||◌, ◌==◌, ==_iff,
  leb, Option, some, if◌then◌else◌, List, [], ◌∷◌, map, filter, any, take, Bool-cases, inl, inr,
}
use backend_challenge_go_jun.Financial.{Time}
use backend_challenge_go_jun.Financial.Identifiers.{Uuid, UuidText}
use backend_challenge_go_jun.Financial.Wager.{WagerTransaction}
use backend_challenge_go_jun.Outbox.{is_member}
use backend_challenge_go_jun.Application.Ports.{ReferenceSchedule, TimeColumn}
use backend_challenge_go_jun.Postgres.Rows.{
  TransactionRow, transaction_row, update_row, reschedule_row,
}
use backend_challenge_go_jun.Postgres.References.{
  is_due_reference, is_sooner, insert_sooner, order_by_next_attempt, due_reference_ids, claim_row,
  claim_due_references, write_row,
}

-- What a session may commit without writing the row of the reference: the row of a new transaction,
-- the update or the rescheduling of another one, and a claim at an instant before `until`.
pub data Elsewhere (column : TimeColumn) (id : Uuid) (until : Time)
    : List TransactionRow → List TransactionRow → Type 0 where
  inserts :
      {rows : List TransactionRow} (t : WagerTransaction)
      → (t.id == id) ≡ false
      → Elsewhere column id until rows (transaction_row column t ∷ rows)
  updates :
      {rows : List TransactionRow} (u : WagerTransaction) (schedule : Option ReferenceSchedule)
      → (u.id == id) ≡ false
      → Elsewhere column id until rows (write_row u.id (λ r. update_row column r u schedule) rows)
  reschedules :
      {rows : List TransactionRow} (other : Uuid) (now due_at : Time) (attempts : ℕ)
      → (other == id) ≡ false
      → Elsewhere column id until rows
          (write_row other (λ r. reschedule_row column r now due_at attempts) rows)
  claims :
      {rows : List TransactionRow} (text : UuidText) (locked : Uuid → Bool) (now : Time)
      (limit lease : ℕ)
      → column.kept now < until
      → Elsewhere column id until rows
          (claim_due_references text column locked now limit lease rows).0

pub data Elsewheres (column : TimeColumn) (id : Uuid) (until : Time)
    : List TransactionRow → List TransactionRow → Type 0 where
  done : {rows : List TransactionRow} → Elsewheres column id until rows rows
  next :
      {rows middle last : List TransactionRow}
      → Elsewhere column id until rows middle
      → Elsewheres column id until middle last
      → Elsewheres column id until rows last

module _ (id : Uuid) where
  -- Some row has the identity.
  abbrev holds : List TransactionRow → Bool
  holds rows = any (λ r. r.id == id) rows

  is_member-map : (rows : List TransactionRow) → is_member id (map (λ r. r.id) rows) ≡ holds rows
  is_member-map [] = refl
  is_member-map (r ∷ rows) = ap (λ b. (r.id == id) || b) (is_member-map rows)

  holds-insert_sooner :
      (r : TransactionRow) (rows : List TransactionRow)
      → holds (r ∷ rows) ≡ false
      → holds (insert_sooner r rows) ≡ false
  holds-insert_sooner r [] h = h
  holds-insert_sooner r (x ∷ rows) h =
      elim (Bool-cases (is_sooner r.next_attempt_at x.next_attempt_at r.id x.id)) [
        | inl b ↦ rw b h
        | inr b ↦
            let rest = holds-insert_sooner r rows (ground (arith, h)) in
            rw b (ground (arith, h, rest))
      ]

  holds-order_by_next_attempt :
      (rows : List TransactionRow) → holds rows ≡ false → holds (order_by_next_attempt rows) ≡ false
  holds-order_by_next_attempt [] h = h
  holds-order_by_next_attempt (r ∷ rows) h =
      let rest = holds-order_by_next_attempt rows (ground (arith, h)) in
      holds-insert_sooner r (order_by_next_attempt rows) (ground (arith, h, rest))

  holds-take :
      (n : ℕ) (rows : List TransactionRow) → holds rows ≡ false → holds (take n rows) ≡ false
  holds-take zero rows h = refl
  holds-take (suc n) [] h = refl
  holds-take (suc n) (r ∷ rows) h =
      let rest = holds-take n rows (ground (arith, h)) in ground (arith, h, rest)

  -- Every row of the reference is leased until the instant.
  abbrev Leased : Time → List TransactionRow → Type 0
  Leased until [] = Unit {0}
  Leased until (r ∷ rows) = ((r.id == id) ≡ true → r.claimed_until ≡ some until) × Leased until rows

  Leased-map :
      (until : Time) (f : TransactionRow → TransactionRow) (rows : List TransactionRow)
      → ((r : TransactionRow) → (f r).id ≡ r.id)
      → ((r : TransactionRow) → (r.id == id) ≡ true → (f r).claimed_until ≡ r.claimed_until)
      → Leased until rows
      → Leased until (map f rows)
  Leased-map until f [] key same l = tt
  Leased-map until f (r ∷ rows) key same (own, l) = (
    (λ b. let b = ap (λ j. j == id) (sym (key r)) ∙ b in same r b ∙ own b),
    Leased-map until f rows key same l,
  )

  claim_row-id :
      (ids : List Uuid) (now until : Time) (r : TransactionRow)
      → (claim_row ids now until r).id ≡ r.id
  claim_row-id ids now until r = elim (Bool-cases (is_member r.id ids)) [
    | inl b ↦ rw b refl
    | inr b ↦ rw b refl
  ]

  -- A claim leases what it selects.
  claimed-Leased :
      (ids : List Uuid) (now until : Time) (rows : List TransactionRow)
      → is_member id ids ≡ true
      → Leased until (map (claim_row ids now until) rows)
  claimed-Leased ids now until [] member = tt
  claimed-Leased ids now until (r ∷ rows) member = (
    (λ b.
        let b : (r.id == id) ≡ true = ap (λ j. j == id) (sym (claim_row-id ids now until r)) ∙ b in
        let own : is_member r.id ids ≡ true =
          ap (λ j. is_member j ids) ((==_iff r.id id).0 b) ∙ member in
        rw own refl),
    claimed-Leased ids now until rows member,
  )

  holds-filter :
      (locked : Uuid → Bool) (until later : Time) (rows : List TransactionRow)
      → Leased until rows
      → later < until
      → holds (filter (is_due_reference locked later) rows) ≡ false
  holds-filter locked until later [] l early = refl
  holds-filter locked until later (r ∷ rows) (own, l) early =
      let rest = holds-filter locked until later rows l early in
      elim (Bool-cases (r.id == id)) [
        | inl same ↦
            let held : leb until later ≡ false = ground arith in
            let out : is_due_reference locked later r ≡ false =
              rw (own same, held) (ground arith) in
            rw out rest
        | inr other ↦ elim (Bool-cases (is_due_reference locked later r)) [
          | inl due ↦ rw (due, other) rest
          | inr out ↦ rw out rest
        ]
      ]

  -- A leased reference is not selected.
  due_reference_ids-Leased :
      (column : TimeColumn) (locked : Uuid → Bool) (until later : Time) (limit : ℕ)
      (rows : List TransactionRow)
      → Leased until rows
      → column.kept later < until
      → is_member id (due_reference_ids column locked later limit rows) ≡ false
  unfolding due_reference_ids
  due_reference_ids-Leased column locked until later limit rows l early =
      let due = filter (is_due_reference locked (column.kept later)) rows in
      is_member-map (take limit (order_by_next_attempt due))
      ∙ holds-take limit (order_by_next_attempt due) (
          holds-order_by_next_attempt due
            (holds-filter locked until (column.kept later) rows l early))

  -- A write to another row leaves the lease.
  write_row-Leased :
      (until : Time) (other : Uuid) (change : TransactionRow → TransactionRow)
      (rows : List TransactionRow)
      → (other == id) ≡ false
      → ((r : TransactionRow) → (change r).id ≡ r.id)
      → Leased until rows
      → Leased until (write_row other change rows)
  write_row-Leased until other change rows apart key l =
      Leased-map until (λ r. if r.id == other then change r else r) rows
        (λ r. elim (Bool-cases (r.id == other)) [ inl b ↦ rw b (key r) | inr b ↦ rw b refl ])
        (λ r own. elim (Bool-cases (r.id == other)) [
          | inl b ↦
              let same = sym ((==_iff r.id other).0 b) ∙ (==_iff r.id id).0 own in
              let g = sym apart ∙ (==_iff other id).1 same in cc
          | inr b ↦ rw b refl
        ])
        l

  Elsewhere-Leased :
      (column : TimeColumn) (until : Time) {rows written : List TransactionRow}
      → Elsewhere column id until rows written
      → Leased until rows
      → Leased until written
  unfolding update_row reschedule_row claim_due_references
  Elsewhere-Leased column until (inserts t apart) l = ((λ b. let g = sym apart ∙ b in cc), l)
  Elsewhere-Leased column until {rows} (updates u schedule apart) l =
      write_row-Leased until u.id (λ r. update_row column r u schedule) rows apart (λ r. refl) l
  Elsewhere-Leased column until {rows} (reschedules other now due_at attempts apart) l =
      write_row-Leased until other (λ r. reschedule_row column r now due_at attempts) rows apart
        (λ r. refl) l
  Elsewhere-Leased column until {rows} (claims text locked now limit lease early) l =
      let ids = due_reference_ids column locked now limit rows in
      let out = due_reference_ids-Leased column locked until now limit rows l early in
      let end = column.kept (now + lease) in
      Leased-map until (claim_row ids (column.kept now) end) rows
        (claim_row-id ids (column.kept now) end)
        (λ r own.
          let absent : is_member r.id ids ≡ false =
            ap (λ j. is_member j ids) ((==_iff r.id id).0 own) ∙ out in
          rw absent refl)
        l

  Elsewheres-Leased :
      (column : TimeColumn) (until : Time) {rows last : List TransactionRow}
      → Elsewheres column id until rows last
      → Leased until rows
      → Leased until last
  Elsewheres-Leased column until done l = l
  Elsewheres-Leased column until (next step steps) l =
      Elsewheres-Leased column until steps (Elsewhere-Leased column until step l)

-- A reference that one worker has claimed is not selected by another claim before its lease ends, by
-- the instants that the columns keep, as long as nobody writes its own row, which would release it:
-- sessions may insert transactions, update or reschedule other ones, and claim, in any order.
pub claim_due_references-leased :
    (text : UuidText) (column : TimeColumn) (locked locked_later : Uuid → Bool) (now later : Time)
    (limit lease limit_later : ℕ) (rows : List TransactionRow) (id : Uuid)
    {last : List TransactionRow}
    → is_member id (due_reference_ids column locked now limit rows) ≡ true
    → Elsewheres column id
        (column.kept (now + lease))
        (claim_due_references text column locked now limit lease rows).0
        last
    → column.kept later < column.kept (now + lease)
    → is_member id (due_reference_ids column locked_later later limit_later last) ≡ false
unfolding claim_due_references
claim_due_references-leased text column locked locked_later now later limit lease limit_later rows
      id {last} m steps early =
    let ids = due_reference_ids column locked now limit rows in
    let end = column.kept (now + lease) in
    due_reference_ids-Leased id column locked_later end later limit_later last
      (Elsewheres-Leased id column end steps (claimed-Leased id ids (column.kept now) end rows m))
      early
