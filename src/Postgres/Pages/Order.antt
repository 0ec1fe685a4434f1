-- ===== src/Postgres/Pages/Order.antt =====
-- The order of the rows of a ledger (internal/adapters/postgres/ledger.go: ListPage).
use backend_challenge_go_jun.Prelude.{
  ◌≡◌, ◌≢◌, refl, arith, Bool, true, false, ◌&&◌, if◌then◌else◌, List, [], ◌∷◌, ◌++◌, filter,
  Bool-cases, inl, inr,
}
use backend_challenge_go_jun.Financial.Identifiers.{Uuid}
use backend_challenge_go_jun.Application.Pagination.{LedgerCursor}
use backend_challenge_go_jun.Postgres.Rows.{LedgerRow}
use backend_challenge_go_jun.Postgres.Pages.{is_after, cursor_of, insert_row, order_by_key}

-- Every row comes after the cursor.
abbrev pub AllAfter : LedgerCursor → List LedgerRow → Type 0
AllAfter c [] = Unit {0}
AllAfter c (x ∷ xs) = (is_after c x ≡ true) × AllAfter c xs

-- Every row comes after all rows in front of it.
abbrev pub Ascending : List LedgerRow → Type 0
Ascending [] = Unit {0}
Ascending (x ∷ xs) = AllAfter (cursor_of x) xs × Ascending xs

-- No row has the identity.
abbrev pub Fresh : Uuid → List LedgerRow → Type 0
Fresh id [] = Unit {0}
Fresh id (x ∷ xs) = (id ≢ x.id) × Fresh id xs

-- The identity is the primary key of the table.
abbrev pub Keyed : List LedgerRow → Type 0
Keyed [] = Unit {0}
Keyed (x ∷ xs) = Fresh x.id xs × Keyed xs

is_after_trans :
    (c : LedgerCursor) (x y : LedgerRow)
    → is_after c x ≡ true
    → is_after (cursor_of x) y ≡ true
    → is_after c y ≡ true
is_after_trans c x y h g = ground arith

is_after_flip :
    (x y : LedgerRow)
    → x.id ≢ y.id
    → is_after (cursor_of x) y ≡ false
    → is_after (cursor_of y) x ≡ true
is_after_flip x y n h = ground arith

is_after_self : (x : LedgerRow) → is_after (cursor_of x) x ≡ false
is_after_self x = ground arith

AllAfter-trans :
    (c : LedgerCursor) (x : LedgerRow) (xs : List LedgerRow)
    → is_after c x ≡ true
    → AllAfter (cursor_of x) xs
    → AllAfter c xs
AllAfter-trans c x [] h a = tt
AllAfter-trans c x (y ∷ ys) h (a, rest) = (is_after_trans c x y h a, AllAfter-trans c x ys h rest)

AllAfter-insert_row :
    (c : LedgerCursor) (r : LedgerRow) (xs : List LedgerRow)
    → is_after c r ≡ true
    → AllAfter c xs
    → AllAfter c (insert_row r xs)
AllAfter-insert_row c r [] h a = (h, tt)
AllAfter-insert_row c r (x ∷ xs) h (a, rest) = elim (Bool-cases (is_after (cursor_of r) x)) [
  | inl b ↦ rw b (h, (a, rest))
  | inr b ↦ rw b (a, AllAfter-insert_row c r xs h rest)
]

Fresh-insert_row :
    (id : Uuid) (r : LedgerRow) (xs : List LedgerRow)
    → id ≢ r.id
    → Fresh id xs
    → Fresh id (insert_row r xs)
Fresh-insert_row id r [] n f = (n, tt)
Fresh-insert_row id r (x ∷ xs) n (f, fs) = elim (Bool-cases (is_after (cursor_of r) x)) [
  | inl b ↦ rw b (n, (f, fs))
  | inr b ↦ rw b (f, Fresh-insert_row id r xs n fs)
]

insert_row-Ascending :
    (r : LedgerRow) (xs : List LedgerRow)
    → Fresh r.id xs
    → Ascending xs
    → Ascending (insert_row r xs)
insert_row-Ascending r [] f a = (tt, tt)
insert_row-Ascending r (x ∷ xs) (f, fs) (a, rest) = elim (Bool-cases (is_after (cursor_of r) x)) [
  | inl b ↦ rw b ((b, AllAfter-trans (cursor_of r) x xs b a), (a, rest))
  | inr b ↦ rw b (
    AllAfter-insert_row (cursor_of x) r xs (is_after_flip r x f b) a,
    insert_row-Ascending r xs fs rest,
  )
]

Fresh-order_by_key :
    (id : Uuid) (rows : List LedgerRow) → Fresh id rows → Fresh id (order_by_key rows)
unfolding order_by_key
Fresh-order_by_key id [] f = tt
Fresh-order_by_key id (r ∷ rows) (f, fs) =
    Fresh-insert_row id r (order_by_key rows) f (Fresh-order_by_key id rows fs)

-- Sorting rows with distinct identities gives an ascending list.
pub order_by_key-Ascending : (rows : List LedgerRow) → Keyed rows → Ascending (order_by_key rows)
unfolding order_by_key
order_by_key-Ascending [] k = tt
order_by_key-Ascending (r ∷ rows) (f, k) =
    insert_row-Ascending r (order_by_key rows) (Fresh-order_by_key r.id rows f)
      (order_by_key-Ascending rows k)

insert_row_first :
    (r : LedgerRow) (xs : List LedgerRow) → AllAfter (cursor_of r) xs → insert_row r xs ≡ r ∷ xs
insert_row_first r [] a = refl
insert_row_first r (x ∷ xs) (a, rest) = rw a refl

both_tests :
    (qx qr : Bool) (r x : LedgerRow) (xs : List LedgerRow)
    → is_after (cursor_of r) x ≡ false
    → (if qx
        then x ∷ (if qr then insert_row r xs else xs)
        else (if qr then insert_row r xs else xs))
      ≡ (if qr then insert_row r (if qx then x ∷ xs else xs) else (if qx then x ∷ xs else xs))
both_tests true true r x xs b = rw b refl
both_tests true false r x xs b = refl
both_tests false true r x xs b = refl
both_tests false false r x xs b = refl

module _ (q : LedgerRow → Bool) where
  AllAfter-filter :
      (c : LedgerCursor) (xs : List LedgerRow) → AllAfter c xs → AllAfter c (filter q xs)
  AllAfter-filter c [] a = tt
  AllAfter-filter c (x ∷ xs) (a, rest) = elim (Bool-cases (q x)) [
    | inl b ↦ rw b (a, AllAfter-filter c xs rest)
    | inr b ↦ rw b (AllAfter-filter c xs rest)
  ]

  Fresh-filter : (id : Uuid) (xs : List LedgerRow) → Fresh id xs → Fresh id (filter q xs)
  Fresh-filter id [] f = tt
  Fresh-filter id (x ∷ xs) (f, fs) = elim (Bool-cases (q x)) [
    | inl b ↦ rw b (f, Fresh-filter id xs fs)
    | inr b ↦ rw b (Fresh-filter id xs fs)
  ]

  pub Keyed-filter : (xs : List LedgerRow) → Keyed xs → Keyed (filter q xs)
  Keyed-filter [] k = tt
  Keyed-filter (x ∷ xs) (f, k) = elim (Bool-cases (q x)) [
    | inl b ↦ rw b (Fresh-filter x.id xs f, Keyed-filter xs k)
    | inr b ↦ rw b (Keyed-filter xs k)
  ]

  filter-insert_row :
      (r : LedgerRow) (xs : List LedgerRow)
      → Ascending xs
      → filter q (insert_row r xs) ≡ (if q r then insert_row r (filter q xs) else filter q xs)
  filter-insert_row r [] a = refl
  filter-insert_row r (x ∷ xs) (a, rest) = elim (Bool-cases (is_after (cursor_of r) x)) [
    | inl b ↦
        let first =
          insert_row_first r (filter q (x ∷ xs))
            (AllAfter-filter (cursor_of r) (x ∷ xs) (b, AllAfter-trans (cursor_of r) x xs b a)) in
        rw (b, first) refl
    | inr b ↦ rw (b, filter-insert_row r xs rest) (both_tests (q x) (q r) r x (filter q xs) b)
  ]

  -- It does not matter whether rows are chosen before they are sorted or after.
  pub order_by_key-filter :
      (rows : List LedgerRow)
      → Keyed rows
      → order_by_key (filter q rows) ≡ filter q (order_by_key rows)
  unfolding order_by_key
  order_by_key-filter [] k = refl
  order_by_key-filter (r ∷ rows) (f, k) =
      let sorted = order_by_key-Ascending rows k in
      let rest = order_by_key-filter rows k in
      elim (Bool-cases (q r)) [
        | inl b ↦ rw (filter-insert_row r (order_by_key rows) sorted, b, rest) refl
        | inr b ↦ rw (filter-insert_row r (order_by_key rows) sorted, b, rest) refl
      ]

filter-AllAfter :
    (c : LedgerCursor) (xs : List LedgerRow) → AllAfter c xs → filter (λ x. is_after c x) xs ≡ xs
filter-AllAfter c [] a = refl
filter-AllAfter c (x ∷ xs) (a, rest) = rw (a, filter-AllAfter c xs rest) refl

AllAfter-middle :
    (c : LedgerCursor) (front : List LedgerRow) (r : LedgerRow) (back : List LedgerRow)
    → AllAfter c (front ++ (r ∷ back))
    → is_after c r ≡ true
AllAfter-middle c [] r back (a, rest) = a
AllAfter-middle c (x ∷ front) r back (a, rest) = AllAfter-middle c front r back rest

is_after_asym :
    (x r : LedgerRow) → is_after (cursor_of x) r ≡ true → is_after (cursor_of r) x ≡ false
is_after_asym x r h = ground arith

-- In an ascending list the rows after the cursor of one row are those that follow it.
pub filter-behind :
    (front : List LedgerRow) (r : LedgerRow) (back : List LedgerRow)
    → Ascending (front ++ (r ∷ back))
    → filter (λ x. is_after (cursor_of r) x) (front ++ (r ∷ back)) ≡ back
filter-behind [] r back (a, rest) = rw (is_after_self r, filter-AllAfter (cursor_of r) back a) refl
filter-behind (x ∷ front) r back (a, rest) =
    rw
      (
        is_after_asym x r (AllAfter-middle (cursor_of x) front r back a),
        filter-behind front r back rest,
      )
      refl

-- A choice by two tests is a choice by one after a choice by the other.
pub filter_both :
    (p q : LedgerRow → Bool) (xs : List LedgerRow)
    → filter (λ x. p x && q x) xs ≡ filter q (filter p xs)
filter_both p q [] = refl
filter_both p q (x ∷ xs) = elim (Bool-cases (p x)) [
  | inl b ↦ rw (b, filter_both p q xs) refl
  | inr b ↦ rw (b, filter_both p q xs) refl
]

pub filter-true :
    (p : LedgerRow → Bool) (xs : List LedgerRow) → filter (λ x. p x && true) xs ≡ filter p xs
filter-true p [] = refl
filter-true p (x ∷ xs) = elim (Bool-cases (p x)) [
  | inl b ↦ rw (b, filter-true p xs) refl
  | inr b ↦ rw (b, filter-true p xs) refl
]
