-- ===== src/Postgres/References.antt =====
-- The claim of references that wait for a worker
-- (internal/adapters/postgres/transactions.go: ClaimDueReferences). Rows that another session has
-- locked are passed over.
pub mod Leases
use backend_challenge_go_jun.Prelude.{
  ℕ, zero, suc, ◌+◌, ◌<◌, ◌≡◌, ◌∙◌, refl, ap, arith, Bool, true, false, not, ◌&&◌, ◌||◌, ◌==◌,
  ==_iff, ltb, leb, Option, none, some, if◌then◌else◌, List, [], ◌∷◌, map, filter, any, take,
  Result, traverse, Bool-cases, inl, inr,
}
use backend_challenge_go_jun.Financial.{Time}
use backend_challenge_go_jun.Financial.Identifiers.{Uuid, UuidText}
use backend_challenge_go_jun.Financial.Wager.{WagerTransaction}
use backend_challenge_go_jun.Application.{AppError}
use backend_challenge_go_jun.Application.Ports.{TimeColumn}
use backend_challenge_go_jun.Application.Service.Recovery.{is_pending_reference}
use backend_challenge_go_jun.Outbox.{lease_over, is_member}
use backend_challenge_go_jun.Postgres.Rows.{TransactionRow, rehydrate_transaction_row}

-- `"nextAttemptAt" <= $1`, which a null does not satisfy.
abbrev pub attempt_due : Time → Option Time → Bool
attempt_due now none = false
attempt_due now (some t) = leb t now

-- The WHERE clause of the claim.
abbrev pub is_due_reference : (locked : Uuid → Bool) → Time → TransactionRow → Bool
is_due_reference locked now r =
    is_pending_reference r.state
    && attempt_due now r.next_attempt_at
    && lease_over now r.claimed_until
    && not (locked r.id)

-- The order of two attempts with their identities; a null comes last.
abbrev pub is_sooner : (a b : Option Time) → (a_id b_id : Uuid) → Bool
is_sooner none none a_id b_id = ltb a_id b_id
is_sooner none (some b) a_id b_id = false
is_sooner (some a) none a_id b_id = true
is_sooner (some a) (some b) a_id b_id = ltb a b || (a == b && ltb a_id b_id)

abbrev pub insert_sooner : TransactionRow → List TransactionRow → List TransactionRow
insert_sooner r [] = r ∷ []
insert_sooner r (x ∷ xs) =
    if is_sooner r.next_attempt_at x.next_attempt_at r.id x.id
    then r ∷ x ∷ xs
    else x ∷ insert_sooner r xs

-- `ORDER BY "nextAttemptAt", "id"`
abbrev pub order_by_next_attempt : List TransactionRow → List TransactionRow
order_by_next_attempt [] = []
order_by_next_attempt (r ∷ rows) = insert_sooner r (order_by_next_attempt rows)

-- The identities that the claim selects, by the instant as the statement gets it.
unfoldable pub due_reference_ids :
    TimeColumn → (locked : Uuid → Bool) → Time → (limit : ℕ) → List TransactionRow → List Uuid
due_reference_ids column locked now limit rows =
    map (λ r. r.id)
      (take limit (order_by_next_attempt (filter (is_due_reference locked (column.kept now)) rows)))

abbrev pub claim_row : (ids : List Uuid) → (now until : Time) → TransactionRow → TransactionRow
claim_row ids now until r =
    if is_member r.id ids then record r { claimed_until = some until; updated_at = now } else r

-- The table, and the transactions of the claimed rows.
unfoldable pub claim_due_references :
    UuidText
    → TimeColumn
    → (locked : Uuid → Bool) → Time
    → (limit lease : ℕ) → List TransactionRow
    → List TransactionRow × Result AppError (List WagerTransaction)
unfolding due_reference_ids
claim_due_references text column locked now limit lease rows =
    let ids = due_reference_ids column locked now limit rows in
    let claimed = map (claim_row ids (column.kept now) (column.kept (now + lease))) rows in
    (claimed, traverse (rehydrate_transaction_row text) (filter (λ r. is_member r.id ids) claimed))

-- The row of a transaction under an UPDATE by its primary key.
abbrev pub write_row :
    Uuid → (TransactionRow → TransactionRow) → List TransactionRow → List TransactionRow
write_row id change rows = map (λ r. if r.id == id then change r else r) rows
