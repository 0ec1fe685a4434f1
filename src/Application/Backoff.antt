-- ===== src/Application/Backoff.antt =====
-- Retry delays, in nanoseconds: of the reference recovery (internal/application/backoff.go), of
-- the outbox publisher (internal/adapters/outbox/publisher.go) and of the queue consumer
-- (internal/adapters/sqs/consumer/consumer.go), with the receive count that the last starts from.
-- Delays stay below 2 ^ 63, as the theorems on their bounds show, so nothing wraps around.
pub mod Bounds
pub mod Receive
use backend_challenge_go_jun.Prelude.{
  ℕ, zero, suc, ◌+◌, ◌-◌, ◌*◌, ◌/◌, ◌%◌, ◌^◌, Bool, true, false, ◌∷◌, [], ◌++◌, ltb, leb, ◌==◌,
  if◌then◌else◌, Option, none, some,
}
use backend_challenge_go_jun.Prelude.Bytes.{Bytes}
use backend_challenge_go_jun.Prelude.Int.{ℤ, pos, negsuc}
use backend_challenge_go_jun.Financial.{Time}

abbrev pub second : ℕ
second = 10 ^ 9

abbrev pub reference_ttl : ℕ
reference_ttl = 24 * 3600 * second

abbrev pub reference_backoff_base : ℕ
reference_backoff_base = second

abbrev pub reference_backoff_cap : ℕ
reference_backoff_cap = 15 * 60 * second

-- Exclusive or on the low `n` bits.
unfoldable pub xor : (n a b : ℕ) → ℕ
xor zero a b = 0
xor (suc n) a b = (a + b) % 2 + 2 * xor n (a / 2) (b / 2)

-- hash/fnv: FNV-1a on 64 bits.
unfoldable pub fnv64a : ℕ → Bytes → ℕ
unfolding xor
fnv64a h [] = h
fnv64a h (c ∷ s) = fnv64a (xor 64 h c * 1099511628211 % 2 ^ 64) s

abbrev pub fnv_offset : ℕ
fnv_offset = 14695981039346656037

-- encoding/binary: `n` bytes, the most significant one first.
unfoldable pub big_endian : (n x : ℕ) → Bytes
big_endian zero x = []
big_endian (suc n) x = x / 256 ^ n % 256 ∷ big_endian n x

-- The loop of ReferenceBackoff, for the rounds that are left.
unfoldable pub reference_delay : (rounds base : ℕ) → ℕ
reference_delay zero base = base
reference_delay (suc n) base =
    let doubled = base * 2 in
    let next = if ltb reference_backoff_cap doubled then reference_backoff_cap else doubled in
    let rest = reference_delay n next in if ltb base reference_backoff_cap then rest else base

-- `if attempt < 0 { attempt = 0 }`
abbrev pub non_negative : ℤ → ℕ
non_negative (pos n) = n
non_negative (negsuc n) = 0

-- `transactionID` is the text of the identity; the hash reads it and the eight bytes of the attempt.
unfoldable pub reference_backoff : ℤ → Bytes → ℕ
unfolding reference_delay fnv64a big_endian
reference_backoff attempt transaction_id =
    let n = non_negative attempt in
    let base = reference_delay n reference_backoff_base in
    let jitter_window = base / 10 in
    if leb jitter_window 0
    then base
    else base + fnv64a fnv_offset (transaction_id ++ big_endian 8 n) % (jitter_window + 1)

unfoldable pub reference_next_attempt_at : ℤ → Bytes → Time → Time
unfolding reference_backoff
reference_next_attempt_at attempt transaction_id now =
    now + reference_backoff attempt transaction_id

abbrev pub outbox_backoff_base : ℕ
outbox_backoff_base = second

abbrev pub outbox_backoff_cap : ℕ
outbox_backoff_cap = 5 * 60 * second

-- The loop of the publisher's Backoff, for the rounds that are left.
unfoldable pub outbox_delay : (rounds delay : ℕ) → ℕ
outbox_delay zero delay = delay
outbox_delay (suc n) delay =
    let rest = outbox_delay n (delay * 2) in
    if leb outbox_backoff_cap (delay * 2) then outbox_backoff_cap else rest

-- `if attempts < 1 { attempts = 1 }`
abbrev pub at_least_one : ℤ → ℕ
at_least_one (pos zero) = 1
at_least_one (pos (suc n)) = suc n
at_least_one (negsuc n) = 1

-- The publisher's Backoff
unfoldable pub outbox_backoff : ℤ → ℕ
unfolding outbox_delay
outbox_backoff attempts = outbox_delay (at_least_one attempts - 1) outbox_backoff_base

abbrev pub visibility_timeout : ℕ
visibility_timeout = 60 * second

abbrev pub transient_backoff_base : ℕ
transient_backoff_base = 5 * second

abbrev pub max_receive_count : ℕ
max_receive_count = 5

-- The second result of TransientVisibility is false for `none`.
unfoldable pub transient_visibility : ℤ → Option ℕ
transient_visibility receive_count =
    let n = at_least_one receive_count in
    if leb max_receive_count n then none else some (transient_backoff_base * 2 ^ (n - 1))
