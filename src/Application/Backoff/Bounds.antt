-- ===== src/Application/Backoff/Bounds.antt =====
-- How long the retries wait.
use native.Mathlib.Nat.{mod-lt}
use backend_challenge_go_jun.Prelude.{
  ℕ, zero, suc, ◌≡◌, ◌≤◌, ◌<◌, ◌+◌, ◌-◌, ◌↔◌, ◌++◌, ◌*◌, ◌/◌, ◌^◌, arith, leb, if◌then◌else◌, some,
}
use backend_challenge_go_jun.Prelude.Bytes.{Bytes}
use backend_challenge_go_jun.Prelude.Int.{ℤ}
use backend_challenge_go_jun.Application.Backoff.{
  second, reference_backoff, reference_backoff_base, reference_backoff_cap, reference_delay,
  outbox_backoff, outbox_backoff_cap, outbox_backoff_base, outbox_delay, non_negative, at_least_one,
  transient_visibility, fnv64a, fnv_offset, big_endian, max_receive_count, transient_backoff_base,
  visibility_timeout,
}

abbrev pub min : ℕ → ℕ → ℕ
min a b = if leb a b then a else b

power_pos : (n : ℕ) → 1 ≤ 2 ^ n
power_pos zero = omega arith
power_pos (suc n) = omega (arith, power_pos n)

doubled : (n a : ℕ) → a * 2 ^ suc n ≡ a * 2 * 2 ^ n
doubled n a = grind arith

scaled : (n a : ℕ) → a ≤ a * 2 ^ n
scaled zero a = omega arith
scaled (suc n) a = omega (arith, scaled n a, doubled n a)

-- The loop of the reference recovery is a capped power of two.
reference_delay-min :
    (n base : ℕ)
    → base ≤ reference_backoff_cap
    → 1 ≤ base
    → reference_delay n base ≡ min (base * 2 ^ n) reference_backoff_cap
unfolding reference_delay
reference_delay-min zero base h p = ground arith
reference_delay-min (suc n) base h p = ground (
  arith,
  doubled n base,
  scaled n (base * 2),
  scaled n reference_backoff_cap,
  reference_delay-min n (base * 2),
  reference_delay-min n reference_backoff_cap,
)

-- The loop of the publisher is a capped power of two.
outbox_delay-min :
    (n delay : ℕ)
    → delay < outbox_backoff_cap
    → 1 ≤ delay
    → outbox_delay n delay ≡ min (delay * 2 ^ n) outbox_backoff_cap
unfolding outbox_delay
outbox_delay-min zero d h p = ground arith
outbox_delay-min (suc n) d h p =
    ground (arith, doubled n d, scaled n (d * 2), outbox_delay-min n (d * 2))

-- The delay before a retry of the reference recovery is the doubled base, capped at 15 minutes,
-- and at most a tenth of it more, for every attempt and identity.
pub reference_backoff_bounds :
    (attempt : ℤ) (transaction_id : Bytes)
    → let delay = min (second * 2 ^ non_negative attempt) reference_backoff_cap in
      (delay ≤ reference_backoff attempt transaction_id)
      × (reference_backoff attempt transaction_id ≤ delay + delay / 10)
unfolding reference_backoff
reference_backoff_bounds attempt transaction_id =
    let n = non_negative attempt in
    let e = reference_delay-min n reference_backoff_base (omega arith) (omega arith) in
    let hash = fnv64a fnv_offset (transaction_id ++ big_endian 8 n) in
    ground
      (arith, e, mod-lt hash {m = reference_delay n reference_backoff_base / 10 + 1} (omega arith))

-- The publisher's delay is the doubled base, capped at 5 minutes.
outbox_backoff_lem :
    (attempts : ℤ)
    → outbox_backoff attempts ≡ min (second * 2 ^ (at_least_one attempts - 1)) outbox_backoff_cap
unfolding outbox_backoff
outbox_backoff_lem attempts =
    outbox_delay-min (at_least_one attempts - 1) outbox_backoff_base (omega arith) (omega arith)

early :
    (n : ℕ)
    → n < max_receive_count
    → (second ≤ transient_backoff_base * 2 ^ (n - 1))
      × (transient_backoff_base * 2 ^ (n - 1) < visibility_timeout)
early zero h = ground arith
early (suc zero) h = ground arith
early (suc (suc zero)) h = ground arith
early (suc (suc (suc zero))) h = ground arith
early (suc (suc (suc (suc zero)))) h = ground arith
early (suc (suc (suc (suc (suc n))))) h = omega arith

-- The visibility backoff of a transient failure ends before the visibility timeout of the message,
-- and it is given exactly for the receives before the redrive.
pub transient_visibility_iff :
    (receive_count : ℤ)
    → ((delay : ℕ) × (transient_visibility receive_count ≡ some delay)
        × (second ≤ delay)
        × (delay < visibility_timeout))
      ↔ (at_least_one receive_count < max_receive_count)
unfolding transient_visibility
transient_visibility_iff receive_count = (
  λ (_, e, _, _). ground (arith, e),
  λ h.
      let n = at_least_one receive_count in
      let (low, high) = early n h in
      (transient_backoff_base * 2 ^ (n - 1), ground arith, low, high),
)
