-- ===== src/Postgres/Pages/Cuts.antt =====
-- Cutting a page off the rows that are left (internal/adapters/postgres/ledger.go: ListPage).
use backend_challenge_go_jun.Prelude.{
  ℕ, zero, suc, ◌<◌, ◌≤◌, ◌≡◌, ◌∙◌, refl, sym, ap, arith, ltb, if◌then◌else◌, List, [], ◌∷◌, ◌++◌,
  take, length, Result, ok, traverse, >>=-eq-ok, ok-injective, Bool-cases, inl, inr,
}

module _ {A B E : Type 0} (scan : A → Result E B) where
  pub traverse-cons :
      (x : A) (xs : List A) (y : B) (ys : List B)
      → traverse scan (x ∷ xs) ≡ ok (y ∷ ys)
      → (scan x ≡ ok y) × (traverse scan xs ≡ ok ys)
  traverse-cons x xs y ys h =
      let (b, f, h) = >>=-eq-ok (scan x) _ h in
      let (bs, g, h) = >>=-eq-ok (traverse scan xs) _ h in
      let e = ok-injective h in (f ∙ cc, g ∙ cc)

  pub traverse-take :
      (n : ℕ) (xs : List A) (ys : List B)
      → traverse scan xs ≡ ok ys
      → traverse scan (take n xs) ≡ ok (take n ys)
  traverse-take zero xs ys h = refl
  traverse-take (suc n) [] [] h = refl
  traverse-take (suc n) [] (y ∷ ys) h = cc
  traverse-take (suc n) (x ∷ xs) [] h =
      let (b, f, h) = >>=-eq-ok (scan x) _ h in
      let (bs, g, h) = >>=-eq-ok (traverse scan xs) _ h in cc
  traverse-take (suc n) (x ∷ xs) (y ∷ ys) h =
      let (f, g) = traverse-cons x xs y ys h in rw (f, traverse-take n xs ys g) refl

  pub traverse-append :
      (xs ys : List A) (firsts bs : List B)
      → traverse scan xs ≡ ok firsts
      → traverse scan ys ≡ ok bs
      → traverse scan (xs ++ ys) ≡ ok (firsts ++ bs)
  traverse-append [] ys [] bs h g = g
  traverse-append [] ys (a ∷ firsts) bs h g = cc
  traverse-append (x ∷ xs) ys [] bs h g =
      let (b, f, h) = >>=-eq-ok (scan x) _ h in
      let (_, _, h) = >>=-eq-ok (traverse scan xs) _ h in cc
  traverse-append (x ∷ xs) ys (a ∷ firsts) bs h g =
      let (f, h) = traverse-cons x xs a firsts h in rw (f, traverse-append xs ys firsts bs h g) refl

  -- What follows a front of a list that is scanned, is scanned.
  pub traverse-back :
      (xs ys : List A) {zs : List B}
      → traverse scan (xs ++ ys) ≡ ok zs
      → (bs : List B) × (traverse scan ys ≡ ok bs)
  traverse-back [] ys {zs} h = (zs, h)
  traverse-back (x ∷ xs) ys h =
      let (_, _, h) = >>=-eq-ok (scan x) _ h in
      let (_, h, _) = >>=-eq-ok (traverse scan (xs ++ ys)) _ h in traverse-back xs ys h

  -- The page of `suc k` elements ends with one that more follow.
  pub record Cut (k : ℕ) (xs : List A) (ys : List B) : Type 0 where
    pub front : List A
    pub last : A
    pub back : List A
    pub first : List B
    pub scanned : B
    pub rest : List B
    pub cut : xs ≡ front ++ (last ∷ back)
    pub last_scanned : scan last ≡ ok scanned
    pub page_scanned : traverse scan (front ++ (last ∷ [])) ≡ ok (take (suc k) ys)
    pub rest_scanned : traverse scan back ≡ ok rest
    pub page : take (suc k) ys ≡ first ++ (scanned ∷ [])
    pub whole : ys ≡ take (suc k) ys ++ rest
    pub shorter : length rest < length ys

  pub traverse-Cut :
      (k : ℕ) (xs : List A) (ys : List B) → traverse scan xs ≡ ok ys → k < length ys → Cut k xs ys
  traverse-Cut k xs [] h l = ground arith
  traverse-Cut k [] (y ∷ ys) h l = cc
  traverse-Cut zero (x ∷ xs) (y ∷ ys) h l =
      let (f, g) = traverse-cons x xs y ys h in
      record {
        front = [];
        last = x;
        back = xs;
        first = [];
        scanned = y;
        rest = ys;
        cut = refl;
        last_scanned = f;
        page_scanned = rw f refl;
        rest_scanned = g;
        page = refl;
        whole = refl;
        shorter = omega arith;
      }
  traverse-Cut (suc k) (x ∷ xs) (y ∷ ys) h l =
      let (f, g) = traverse-cons x xs y ys h in
      let c = traverse-Cut k xs ys g (omega arith) in
      record {
        front = x ∷ c.front;
        last = c.last;
        back = c.back;
        first = y ∷ c.first;
        scanned = c.scanned;
        rest = c.rest;
        cut = ap (λ l. x ∷ l) c.cut;
        last_scanned = c.last_scanned;
        page_scanned = rw (f, c.page_scanned) refl;
        rest_scanned = c.rest_scanned;
        page = ap (λ l. y ∷ l) c.page;
        whole = ap (λ l. y ∷ l) c.whole;
        shorter = let s = c.shorter in omega arith;
      }

shifted : (n m : ℕ) → ltb (suc n) (suc m) ≡ ltb n m
shifted n m = ground arith

module _ {B : Type 0} where
  pub take-short : (n : ℕ) (ys : List B) → length ys ≤ n → take n ys ≡ ys
  take-short zero [] h = refl
  take-short zero (y ∷ ys) h = ground arith
  take-short (suc n) [] h = refl
  take-short (suc n) (y ∷ ys) h = ap (λ l. y ∷ l) (take-short n ys (omega arith))

  -- One element more than the limit tells whether more follow.
  pub ltb-take : (n : ℕ) (ys : List B) → ltb n (length (take (suc n) ys)) ≡ ltb n (length ys)
  ltb-take zero [] = refl
  ltb-take zero (y ∷ ys) = ground arith
  ltb-take (suc n) [] = refl
  ltb-take (suc n) (y ∷ ys) =
      shifted n (length (take (suc n) ys)) ∙ ltb-take n ys ∙ sym (shifted n (length ys))

  pub take-take : (n : ℕ) (ys : List B) → take n (take (suc n) ys) ≡ take n ys
  take-take zero ys = refl
  take-take (suc n) [] = refl
  take-take (suc n) (y ∷ ys) = ap (λ l. y ∷ l) (take-take n ys)

  -- What is left of the rows of a query that asks for one more than the page holds.
  pub page_cut :
      (n : ℕ) (ys : List B)
      → (if ltb n (length ys) then take n (take (suc n) ys) else take (suc n) ys) ≡ take n ys
  page_cut n ys = elim (Bool-cases (ltb n (length ys))) [
    | inl b ↦ rw b (take-take n ys)
    | inr b ↦
        let short : length ys ≤ n = ground arith in
        rw b (take-short (suc n) ys (omega arith) ∙ sym (take-short n ys short))
  ]
