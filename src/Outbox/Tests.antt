-- ===== src/Outbox/Tests.antt =====
-- An event whose lease runs out.
use backend_challenge_go_jun.Prelude.{◌≡◌, refl, true, false, some, none, err, [], ◌∷◌, List}
use backend_challenge_go_jun.Prelude.Bytes.{codes}
use backend_challenge_go_jun.Application.{Sentinel, sentinel}
use backend_challenge_go_jun.Outbox.{
  OutboxRow, due_ids, claim_due_events, confirm_event, reschedule_event, is_member, row_of,
}
use backend_challenge_go_jun.Outbox.Leases.{
  Steps, done, next, claims, confirms, confirm_event-stale,
}
use backend_challenge_go_jun.Outbox.Publication.{published_final}

abbrev row : OutboxRow
row = record {
  event_id = 5;
  event_type = codes "WalletBalanceChanged";
  aggregate_id = codes "w";
  payload = codes "{}";
  created_at = 10;
  next_attempt_at = 10;
  claimed_until = some 40;
  attempts = 1;
  published_at = none;
}

abbrev other : OutboxRow
other = record row { event_id = 6; claimed_until = none; attempts = 0; next_attempt_at = 9 }

abbrev table : List OutboxRow
table = other ∷ row ∷ []

abbrev claimed : List OutboxRow
claimed =
    record other { claimed_until = some 80; attempts = 1 }
    ∷ record row { claimed_until = some 80; attempts = 2 }
    ∷ []

taken : is_member 5 (due_ids (λ id. false) 50 10 table) ≡ true
unfolding due_ids
taken = refl

-- The holder of the new lease confirms the event.
confirmed : Steps (claim_due_events (λ id. false) 50 10 30 table).0 (
    record other { claimed_until = some 80; attempts = 1 }
    ∷ record row { published_at = some 60; claimed_until = none; attempts = 2 }
    ∷ [])
unfolding claim_due_events confirm_event
confirmed = next (confirms 5 60 2 refl) done

confirm_event-stale_example :
    (confirm_event 5 70 1 (
        record other { claimed_until = some 80; attempts = 1 }
        ∷ record row { published_at = some 60; claimed_until = none; attempts = 2 }
        ∷ [])
      ≡ err (sentinel Sentinel.outbox_lease_lost))
    × (reschedule_event 5 90 1 (
          record other { claimed_until = some 80; attempts = 1 }
          ∷ record row { published_at = some 60; claimed_until = none; attempts = 2 }
          ∷ [])
        ≡ err (sentinel Sentinel.outbox_lease_lost))
confirm_event-stale_example =
    confirm_event-stale 5 row table _ (λ id. false) 50 10 30 70 90 refl taken confirmed

abbrev published : OutboxRow
published = record row { published_at = some 60; claimed_until = none; attempts = 2 }

-- A later claim takes the other event alone.
claimed_again :
    Steps
      (other ∷ published ∷ [])
      (claim_due_events (λ id. false) 90 10 30 (other ∷ published ∷ [])).0
claimed_again = next (claims (λ id. false) 90 10 30) done

published_final_example :
    (row_of 5 (claim_due_events (λ id. false) 90 10 30 (other ∷ published ∷ [])).0 ≡ some published)
    × (is_member 5 (
          due_ids
            (λ id. false)
            200
            10
            (claim_due_events (λ id. false) 90 10 30 (other ∷ published ∷ [])).0)
        ≡ false)
published_final_example =
    published_final 5 published (λ id. false) 200 10 ((refl, tt), (tt, tt)) refl refl claimed_again
