-- ===== src/Sqs/Redelivery.antt =====
-- The queue delivers a message at least once, and its wager is applied at most once
-- (internal/adapters/sqs/consumer/consumer.go over SubmitWagerFromInbox of
-- internal/application/service.go).
use backend_challenge_go_jun.Prelude.{
  ◌≡◌, refl, Bool, true, false, not, List, ◌∷◌, ok, reject_if-eq-ok, ◌==◌, length, [],
}
use backend_challenge_go_jun.Prelude.Bytes.{Bytes, is_empty, bytes_eq_refl}
use backend_challenge_go_jun.Financial.{Time, is_zero_time}
use backend_challenge_go_jun.Application.{ErrorCode, contract_error}
use backend_challenge_go_jun.Application.Commands.{
  SubmitWagerCommand, InboxDelivery, validate_inbox_delivery,
}
use backend_challenge_go_jun.Application.Ports.{Repositories, Surroundings}
use backend_challenge_go_jun.Application.Service.Submission.{Attempt, submit_wager_from_inbox}
use backend_challenge_go_jun.Application.Service.Inbox.{
  KeepsInbox, submit_wager_from_inbox-duplicate, submit_wager_from_inbox-valid,
}
use backend_challenge_go_jun.Sqs.Consumer.{
  Context, Message, Race, finished, UseCase, count_duplicate, delete_message, submit,
  settle_message, delivery_of, process_command, process_envelope, process,
}
use backend_challenge_go_jun.Sqs.Delivery.{deletes, Acknowledged, process-deletes}

-- The use case behind the consumer: `project` is the digest of the projection of a command.
abbrev pub inbox_use_case :
    {S : Type 0} → Repositories S → (SubmitWagerCommand → Bytes) → List (Attempt S) → UseCase S
inbox_use_case repos project attempts =
    λ cmd delivery s. submit_wager_from_inbox repos attempts cmd delivery (project cmd) s

-- The same consumer, at another time.
abbrev pub at_time : Context → Time → (canceled deleted : Bool) → Context
at_time context started canceled deleted = record context {
  started = started;
  canceled = canceled;
  deleted = deleted;
}

validate_inbox_delivery-later :
    (d : InboxDelivery) (t : Time)
    → validate_inbox_delivery d ≡ ok tt
    → is_zero_time t ≡ false
    → validate_inbox_delivery (record d { received_at = t }) ≡ ok tt
unfolding validate_inbox_delivery
validate_inbox_delivery-later d t h z =
    let (a, h) =
      reject_if-eq-ok (is_empty d.consumer_name) (contract_error ErrorCode.invalid_request) _ h in
    let (b, h) =
      reject_if-eq-ok (is_empty d.message_id) (contract_error ErrorCode.invalid_request) _ h in
    let (c, h) =
      reject_if-eq-ok (not (length d.digest == 64)) (contract_error ErrorCode.invalid_request) _
        h in
    rw (a, b, c, z) refl

module _ {S : Type 0} (repos : Repositories S) (project : SubmitWagerCommand → Bytes)
    (laws : KeepsInbox repos) (context : Context) (message : Message) (attempts : List (Attempt S))
    (race : Race) (s : S) (around : Surroundings) (rest : List (Attempt S)) (started : Time)
    (canceled : Bool) where
  -- The use case of the redelivery.
  abbrev use_case_again : UseCase S
  use_case_again = inbox_use_case repos project (record { around = around; others = λ x. x } ∷ rest)

  Acknowledged-redelivered :
      {left : S}
      → Acknowledged context (inbox_use_case repos project attempts) race message s left
      → is_zero_time started ≡ false
      → around.begin ≡ ok tt
      → around.commit ≡ ok tt
      → process (at_time context started canceled true) use_case_again finished message left
        ≡ (left, delete_message message.receipt_handle ∷ count_duplicate ∷ [])
  unfolding process process_envelope process_command submit settle_message
  Acknowledged-redelivered {left} a z b c =
      let d = delivery_of context message a.envelope in
      let v =
        validate_inbox_delivery-later d started
          (submit_wager_from_inbox-valid repos attempts a.command d (project a.command) s
            a.answered)
          z in
      let again =
        submit_wager_from_inbox-duplicate repos laws attempts around rest a.command d
          (record d { received_at = started }) (project a.command) s a.answered refl refl refl v b
          c in
      rw (a.read, a.authorized, bytes_eq_refl a.envelope.content.provider_id, a.understood, again)
        refl

-- A message that was deleted, and that the queue delivers once more, changes nothing: at any later
-- time the consumer deletes it again and counts a duplicate, if no other transaction comes in
-- between its first attempt, which the database begins and commits.
pub process-redelivered :
    {S : Type 0} (repos : Repositories S) (project : SubmitWagerCommand → Bytes)
    (laws : KeepsInbox repos) (context : Context) (message : Message)
    (attempts rest : List (Attempt S)) (around : Surroundings) (race : Race) (s : S)
    (started : Time) (canceled : Bool)
    → deletes (process context (inbox_use_case repos project attempts) race message s).1 ≡ true
    → is_zero_time started ≡ false
    → around.begin ≡ ok tt
    → around.commit ≡ ok tt
    → process
        (at_time context started canceled true)
        (inbox_use_case repos project (record { around = around; others = λ x. x } ∷ rest))
        finished
        message
        (process context (inbox_use_case repos project attempts) race message s).0
      ≡ (
        (process context (inbox_use_case repos project attempts) race message s).0,
        delete_message message.receipt_handle ∷ count_duplicate ∷ [],
      )
process-redelivered repos project laws context message attempts rest around race s started canceled
      h z b c =
    Acknowledged-redelivered repos project laws context message attempts race s around rest started
      canceled
      ((process-deletes context (inbox_use_case repos project attempts) message s race).0 h) z b c
