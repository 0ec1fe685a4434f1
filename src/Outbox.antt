-- ===== src/Outbox.antt =====
-- The outbox table under publication (internal/adapters/postgres/outbox_publisher.go) and one pass
-- of a publisher (internal/adapters/outbox/publisher.go). A row is found by its primary key; the
-- broker is a parameter, and so is what other sessions do to the table in between.
pub mod Leases
pub mod Publication
mod Tests
use backend_challenge_go_jun.Prelude.{
  ℕ, suc, ◌+◌, ◌*◌, Bool, true, false, not, ◌&&◌, ◌||◌, ◌==◌, ltb, leb, Option, none, some,
  if◌then◌else◌, List, [], ◌∷◌, map, filter, find, any, take, Result, ok, err, ◌>>=◌,
}
use backend_challenge_go_jun.Prelude.Bytes.{Bytes}
use backend_challenge_go_jun.Prelude.Int.{pos}
use backend_challenge_go_jun.Financial.{Time}
use backend_challenge_go_jun.Financial.Identifiers.{Uuid}
use backend_challenge_go_jun.Application.{AppError, Sentinel, sentinel, is}
use backend_challenge_go_jun.Application.Backoff.{second, outbox_backoff}

pub record OutboxRow : Type 0 where
  pub event_id : Uuid
  pub event_type : Bytes
  pub aggregate_id : Bytes
  pub payload : Bytes
  pub created_at : Time
  pub next_attempt_at : Time
  pub claimed_until : Option Time
  pub attempts : ℕ
  pub published_at : Option Time

abbrev pub is_some : {A : Type 0} → Option A → Bool
is_some none = false
is_some (some a) = true

-- `"claimedUntil" IS NULL OR "claimedUntil" <= $1`
abbrev pub lease_over : Time → Option Time → Bool
lease_over now none = true
lease_over now (some t) = leb t now

-- The WHERE clause of the claim; rows that another session has locked are passed over.
abbrev pub is_due : (locked : Uuid → Bool) → Time → OutboxRow → Bool
is_due locked now r =
    not (is_some r.published_at)
    && leb r.next_attempt_at now
    && lease_over now r.claimed_until
    && not (locked r.event_id)

abbrev pub is_earlier : OutboxRow → OutboxRow → Bool
is_earlier r x =
    ltb r.next_attempt_at x.next_attempt_at
    || (r.next_attempt_at == x.next_attempt_at && ltb r.event_id x.event_id)

abbrev pub insert_earlier : OutboxRow → List OutboxRow → List OutboxRow
insert_earlier r [] = r ∷ []
insert_earlier r (x ∷ xs) = if is_earlier r x then r ∷ x ∷ xs else x ∷ insert_earlier r xs

-- `ORDER BY "nextAttemptAt", "eventId"`
abbrev pub order_by_attempt : List OutboxRow → List OutboxRow
order_by_attempt [] = []
order_by_attempt (r ∷ rows) = insert_earlier r (order_by_attempt rows)

-- The identities that the claim selects.
unfoldable pub due_ids : (locked : Uuid → Bool) → Time → (limit : ℕ) → List OutboxRow → List Uuid
due_ids locked now limit rows =
    map (λ r. r.event_id) (take limit (order_by_attempt (filter (is_due locked now) rows)))

abbrev pub is_member : Uuid → List Uuid → Bool
is_member id ids = any (λ x. x == id) ids

abbrev pub lease_row : (ids : List Uuid) → Time → OutboxRow → OutboxRow
lease_row ids until r =
    if is_member r.event_id ids
    then record r { claimed_until = some until; attempts = r.attempts + 1 }
    else r

-- ClaimDueEvents: the table, and the claimed rows as they are now.
unfoldable pub claim_due_events :
    (locked : Uuid → Bool)
    → Time
    → (limit lease : ℕ) → List OutboxRow
    → List OutboxRow × List OutboxRow
unfolding due_ids
claim_due_events locked now limit lease rows =
    let ids = due_ids locked now limit rows in
    let leased = map (lease_row ids (now + lease)) rows in
    (leased, filter (λ r. is_member r.event_id ids) leased)

-- The row of a primary key.
abbrev pub row_of : Uuid → List OutboxRow → Option OutboxRow
row_of id rows = find (λ r. r.event_id == id) rows

-- The WHERE clause of ConfirmEvent and of RescheduleEvent: the lease is held under this count.
abbrev pub holds_lease : ℕ → OutboxRow → Bool
holds_lease attempts r =
    not (is_some r.published_at) && is_some r.claimed_until && r.attempts == attempts

abbrev pub update_row : Uuid → (OutboxRow → OutboxRow) → List OutboxRow → List OutboxRow
update_row id change rows = map (λ r. if r.event_id == id then change r else r) rows

-- An update of the row that holds the lease; no affected row is ErrOutboxLeaseLost.
abbrev pub update_leased :
    Option OutboxRow
    → Uuid
    → ℕ
    → (OutboxRow → OutboxRow)
    → List OutboxRow
    → Result AppError (List OutboxRow)
update_leased none id attempts change rows = err (sentinel Sentinel.outbox_lease_lost)
update_leased (some r) id attempts change rows =
    if holds_lease attempts r
    then ok (update_row id change rows)
    else err (sentinel Sentinel.outbox_lease_lost)

unfoldable pub confirm_event :
    Uuid
    → (confirmed_at : Time) → (attempts : ℕ) → List OutboxRow
    → Result AppError (List OutboxRow)
confirm_event id confirmed_at attempts rows =
    update_leased (row_of id rows) id attempts
      (λ r. record r { published_at = some confirmed_at; claimed_until = none }) rows

unfoldable pub reschedule_event :
    Uuid
    → (next_attempt_at : Time) → (attempts : ℕ) → List OutboxRow
    → Result AppError (List OutboxRow)
reschedule_event id next_attempt_at attempts rows =
    update_leased (row_of id rows) id attempts
      (λ r. record r {
        next_attempt_at = next_attempt_at;
        attempts = attempts;
        claimed_until = none;
      })
      rows

abbrev pub batch : ℕ
batch = 50

abbrev pub lease : ℕ
lease = 30 * second

-- What a pass meets for one claimed event: whether the context is canceled, whether the broker accepts
-- the event, what other sessions do to the table, and an error of the database.
pub record Delivery : Type 0 where
  pub canceled : Bool
  pub accepted : Bool
  pub others : List OutboxRow → List OutboxRow
  pub failure : Option AppError

abbrev pub or_failure : {A : Type 0} → Option AppError → Result AppError A → Result AppError A
or_failure none outcome = outcome
or_failure (some e) outcome = err e

-- A lost lease is passed over, any other error ends the pass.
abbrev pub after_update :
    Result AppError (List OutboxRow)
    → (confirmed : ℕ) → List OutboxRow
    → (ℕ → List OutboxRow → List OutboxRow × Result AppError ℕ)
    → List OutboxRow × Result AppError ℕ
after_update (ok written) confirmed rows next = next confirmed written
after_update (err e) confirmed rows next =
    if is e Sentinel.outbox_lease_lost then next 0 rows else (rows, err e)

-- The update for one event, with what it adds to the count.
unfoldable pub settle_event :
    Time → OutboxRow → Delivery → List OutboxRow → ℕ × Result AppError (List OutboxRow)
unfolding confirm_event reschedule_event
settle_event now event delivery rows =
    if delivery.accepted
    then (1, or_failure delivery.failure (confirm_event event.event_id now event.attempts rows))
    else (
      0,
      or_failure delivery.failure (
          reschedule_event event.event_id (now + outbox_backoff (pos event.attempts)) event.attempts
            rows),
    )

-- The loop of PublishOnce: the table, with the number of confirmed events or the error.
unfoldable pub publish_events :
    Time
    → List (OutboxRow × Delivery)
    → (published : ℕ) → List OutboxRow
    → List OutboxRow × Result AppError ℕ
unfolding settle_event
publish_events now [] published rows = (rows, ok published)
publish_events now ((event, delivery) ∷ events) published rows =
    let rest : ℕ → List OutboxRow → List OutboxRow × Result AppError ℕ =
      λ n. publish_events now events (published + n) in
    let table = delivery.others rows in
    let settled = settle_event now event delivery table in
    if delivery.canceled then (rows, ok published) else after_update settled.1 settled.0 table rest
