-- ===== src/Prelude/Lists.antt =====
-- Lists measured and indexed by native numbers, under the library's names.
use Prim.Native.Nat.{ℕ, zero, suc, ◌+◌}
use mathlib.Core.Path.{◌≡◌, refl, ap, sym, ◌∙◌}
use mathlib.Core.List.{List, [], ◌∷◌, ◌++◌, map}
use mathlib.Core.Bool.{Bool, true, false, ◌||◌}
use mathlib.Core.Option
use mathlib.Core.Option.{Option, none, some}
use backend_challenge_go_jun.Prelude.Tests.{if◌then◌else◌}
use native.Mathlib.Omega.{arith}

module _ {ℓ} {A : Type ℓ} where
  abbrev pub length : List A → ℕ
  length [] = 0
  length (x ∷ xs) = suc (length xs)

  abbrev pub get_or : List A → ℕ → A → A
  get_or [] i d = d
  get_or (x ∷ xs) zero d = x
  get_or (x ∷ xs) (suc i) d = get_or xs i d

  abbrev pub take : ℕ → List A → List A
  take zero xs = []
  take (suc n) [] = []
  take (suc n) (x ∷ xs) = x ∷ take n xs

  pub length-append : (xs ys : List A) → length (xs ++ ys) ≡ length xs + length ys
  length-append [] ys = omega arith
  length-append (x ∷ xs) ys = omega (arith, length-append xs ys)

  pub take-length-append : (xs ys : List A) → take (length xs) (xs ++ ys) ≡ xs
  take-length-append [] ys = refl
  take-length-append (x ∷ xs) ys = rw (take-length-append xs ys)

  -- The first element that a test accepts.
  abbrev pub find : (A → Bool) → List A → Option A
  find q [] = none
  find q (x ∷ xs) = if q x then some x else find q xs

  abbrev pub any : (A → Bool) → List A → Bool
  any q [] = false
  any q (x ∷ xs) = q x || any q xs

  abbrev pub filter : (A → Bool) → List A → List A
  filter q [] = []
  filter q (x ∷ xs) = if q x then x ∷ filter q xs else filter q xs

  some_injective : {x y : A} → some x ≡ some y → x ≡ y
  some_injective h = cc

  find-map-step :
      (b : Bool) (q : A → Bool) (f : A → A) (y : A) (ys : List A) {x : A}
      → (find q ys ≡ some x → find q (map f ys) ≡ some (f x))
      → (if b then some y else find q ys) ≡ some x
      → (if b then some (f y) else find q (map f ys)) ≡ some (f x)
  find-map-step true q f y ys rest h = ap (Option.map f) h
  find-map-step false q f y ys rest h = rest h

  -- A map that keeps a test finds the image of what was found.
  pub find-map :
      (q : A → Bool) (f : A → A) (xs : List A) {x : A}
      → ((a : A) → q (f a) ≡ q a)
      → find q xs ≡ some x
      → find q (map f xs) ≡ some (f x)
  find-map q f [] kept h = cc
  find-map q f (y ∷ ys) kept h = rw (kept y) (find-map-step (q y) q f y ys (find-map q f ys kept) h)

  found_first :
      (b : Bool) (q : A → Bool) (y : A) (ys : List A) {x : A}
      → q y ≡ b
      → (find q ys ≡ some x → q x ≡ true)
      → (if b then some y else find q ys) ≡ some x
      → q x ≡ true
  found_first true q y ys accepted rest h = ap q (sym (some_injective h)) ∙ accepted
  found_first false q y ys accepted rest h = rest h

  pub find-accepted : (q : A → Bool) (xs : List A) {x : A} → find q xs ≡ some x → q x ≡ true
  find-accepted q [] h = cc
  find-accepted q (y ∷ ys) h = found_first (q y) q y ys refl (find-accepted q ys) h
