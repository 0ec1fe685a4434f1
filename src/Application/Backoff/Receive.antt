-- ===== src/Application/Backoff/Receive.antt =====
-- The receive count of a message (internal/adapters/sqs/consumer/consumer.go).
use backend_challenge_go_jun.Prelude.{
  ℕ, ◌≡◌, ◌≤◌, ◌<◌, ◌+◌, ◌-◌, ◌*◌, ◌^◌, arith, refl, leb, not, ◌&&◌, ◌∷◌, [], if◌then◌else◌, Option,
  none, some, Bool, true,
}
use backend_challenge_go_jun.Prelude.Bytes.{Bytes, is_digit}
use backend_challenge_go_jun.Financial.Identifiers.{all_match}
use backend_challenge_go_jun.Prelude.Int.{ℤ, pos, negsuc, ◌+ℤ◌, ◌≤ℤ◌, ltb_ℤ, wrap64}

-- `count*10` on an int, exact.
abbrev pub tenfold : ℤ → ℤ
tenfold (pos n) = pos (n * 10)
tenfold (negsuc n) = negsuc (n * 10 + 9)

-- The loop over the digits: none if a byte is no digit. The count wraps around as an int does.
unfoldable pub count_digits : ℤ → Bytes → Option ℤ
count_digits count [] = some count
count_digits count (c ∷ s) =
    let rest = count_digits (wrap64 (wrap64 (tenfold count) +ℤ pos (c - b'0'))) s in
    if not (is_digit c) then none else rest

abbrev pub at_least : Option ℤ → ℤ
at_least none = pos 1
at_least (some count) = if ltb_ℤ count (pos 1) then pos 1 else count

-- ReceiveCount, of the text of the attribute.
unfoldable pub receive_count : Bytes → ℤ
unfolding count_digits
receive_count raw = at_least (count_digits (pos 0) raw)

-- The number that decimal digits write after `n`.
abbrev pub decimal : ℕ → Bytes → ℕ
decimal n [] = n
decimal n (c ∷ s) = decimal (n * 10 + (c - b'0')) s

both : (a b : Bool) → (a && b) ≡ true → (a ≡ true) × (b ≡ true)
both a b h = ground arith

positive : (o : Option ℤ) → pos 1 ≤ℤ at_least o
positive none = ground arith
positive (some (pos n)) = ground arith
positive (some (negsuc n)) = ground arith

decimal_grows : (s : Bytes) (n : ℕ) → n ≤ decimal n s
decimal_grows [] n = omega arith
decimal_grows (c ∷ s) n = omega (arith, decimal_grows s (n * 10 + (c - b'0')))

wrapped_step :
    (n c : ℕ)
    → n * 10 + (c - b'0') < 2 ^ 63
    → wrap64 (wrap64 (tenfold (pos n)) +ℤ pos (c - b'0')) ≡ pos (n * 10 + (c - b'0'))
unfolding wrap64 ◌+ℤ◌
wrapped_step n c h = ground arith

count_digits-decimal :
    (s : Bytes) (n : ℕ)
    → all_match (λ c. is_digit c) s ≡ true
    → decimal n s < 2 ^ 63
    → count_digits (pos n) s ≡ some (pos (decimal n s))
unfolding count_digits all_match
count_digits-decimal [] n d h = refl
count_digits-decimal (c ∷ s) n d h =
    let m = n * 10 + (c - b'0') in
    let grows = decimal_grows s m in
    let step = wrapped_step n c (omega arith) in
    let (digit, digits) = both (is_digit c) _ d in
    let e = count_digits-decimal s m digits h in rw (digit, step, e) refl

-- A receive count is at least 1 whatever the attribute says, and it is the number written in
-- decimal digits, or 1 for 0, as long as that number fits in an int.
receive_count_lem :
    (raw : Bytes)
    → (pos 1 ≤ℤ receive_count raw)
      × (all_match (λ c. is_digit c) raw ≡ true
          → decimal 0 raw < 2 ^ 63
          → receive_count raw ≡ (if leb (decimal 0 raw) 0 then pos 1 else pos (decimal 0 raw)))
unfolding receive_count
receive_count_lem raw =
    (positive (count_digits (pos 0) raw), λ d h. rw (count_digits-decimal raw 0 d h) (ground arith))
