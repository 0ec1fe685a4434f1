-- ===== src/Prelude/Results.antt =====
-- Fallible code: a value or an error, Go's `(value, error)` with early returns as `do` blocks.
use mathlib.Core.Path.{◌≡◌, refl, ap}
use mathlib.Core.List.{List, [], ◌∷◌}
use mathlib.Core.Option.{some}
use mathlib.Core.Bool.{Bool, true, false}
use backend_challenge_go_jun.Prelude.Tests.{if◌then◌else◌}

pub data Result {success failure} (E : Type failure) (A : Type success)
    : Type (success ⊔ failure) where
  ok : (value : A) → Result E A
  err : (cause : E) → Result E A

-- `if test { return cause }`
abbrev pub reject_if {failure} : {E : Type failure} → (test : Bool) → E → Result E (Unit {0})
reject_if false cause = ok tt
reject_if true cause = err cause

-- A failure is kept, in the words of the caller.
abbrev pub map_err {success failure outer} :
    {A : Type success} {E : Type failure} {F : Type outer} → (E → F) → Result E A → Result F A
map_err reword (err cause) = err (reword cause)
map_err reword (ok value) = ok value

infixl 5 ◌>>=◌
abbrev pub ◌>>=◌ {success later failure} :
    {E : Type failure} {A : Type success} {B : Type later}
    → Result E A
    → (A → Result E B)
    → Result E B
err cause >>= rest = err cause
ok value >>= rest = rest value

infixl 5 ◌>>◌
abbrev pub ◌>>◌ {later failure} :
    {E : Type failure} {B : Type later} → Result E (Unit {0}) → Result E B → Result E B
check >> rest = check >>= λ passed. rest

-- A fallible step on every element, up to the first failure.
abbrev pub traverse {success later failure} :
    {E : Type failure} {A : Type success} {B : Type later}
    → (A → Result E B)
    → List A
    → Result E (List B)
traverse step [] = ok []
traverse step (x ∷ xs) = step x >>= λ y. traverse step xs >>= λ ys. ok (y ∷ ys)

-- Inversion of a successful bind, for proofs where the parts stay shut.
pub >>=-eq-ok {success later failure} :
    {E : Type failure} {A : Type success} {B : Type later} (first : Result E A)
    (rest : A → Result E B) {result : B}
    → (first >>= rest) ≡ ok result
    → (value : A) × (first ≡ ok value) × (rest value ≡ ok result)
>>=-eq-ok (err cause) rest done = cc
>>=-eq-ok (ok value) rest done = (value, refl, done)

pub ok-injective {ℓ κ} :
    {E : Type κ} {A : Type ℓ} {a b : A} → ◌≡◌ {A = Result E A} (ok a) (ok b) → a ≡ b
ok-injective h = cc

-- Inversion of a chain that starts with a guard.
pub reject_if-eq-ok {ℓ μ} :
    {E : Type μ} {A : Type ℓ} (b : Bool) (e : E) (k : Unit {0} → Result E A) {a : A}
    → (reject_if b e >>= k) ≡ ok a
    → (b ≡ false) × (k tt ≡ ok a)
reject_if-eq-ok true e k h = cc
reject_if-eq-ok false e k h = (refl, h)

-- Inversion of an error in the words of the caller.
pub map_err-eq-ok {success failure outer} :
    {A : Type success} {E : Type failure} {F : Type outer} (reword : E → F) (m : Result E A)
    {value : A}
    → map_err reword m ≡ ok value
    → m ≡ ok value
map_err-eq-ok reword (ok value) h = ap ok (ok-injective h)
map_err-eq-ok reword (err cause) h = cc

-- A test in front of two continuations, split on the test that was passed.
pub if-eq-ok {success failure goal} :
    {E : Type failure} {A : Type success} {G : Type goal} (test : Bool) (m n : Result E A)
    {value : A}
    → (if test then m else n) ≡ ok value
    → (test ≡ true → m ≡ ok value → G)
    → (test ≡ false → n ≡ ok value → G)
    → G
if-eq-ok true m n h first second = first refl h
if-eq-ok false m n h first second = second refl h

pub some_injective {ℓ} : {A : Type ℓ} {x y : A} → some x ≡ some y → x ≡ y
some_injective h = cc
