-- ===== src/Sqs/Delivery.antt =====
-- When a message leaves the queue (internal/adapters/sqs/consumer/consumer.go).
use backend_challenge_go_jun.Prelude.{
  ℕ, ◌≡◌, ◌↔◌, refl, ap, arith, Bool, true, false, Option, none, some, List, [], any, if◌then◌else◌,
  Result, ok, err, Bool-cases, inl, inr,
}
use backend_challenge_go_jun.Prelude.Bytes.{Bytes, bytes_eq_iff, bytes_eq_refl}
use backend_challenge_go_jun.Application.{AppError, is_transient}
use backend_challenge_go_jun.Application.Commands.{SubmitWagerCommand, InboxDelivery}
use backend_challenge_go_jun.Application.Backoff.{transient_visibility}
use backend_challenge_go_jun.Application.Backoff.Receive.{receive_count}
use backend_challenge_go_jun.Application.Service.{WagerResult}
use backend_challenge_go_jun.Sqs.{Envelope, EnvelopeError, command_of}
use backend_challenge_go_jun.Sqs.Consumer.{
  Context, Message, Action, delete_message, Race, finished, timed_out, ProcessOutcome, UseCase,
  outcome_of, succeeded, failed, out_of_time, submit, backoff, observed, settle_message,
  delivery_of, unauthorized, process_command, process_envelope, process,
}

abbrev is_delete : Action → Bool
is_delete (delete_message handle) = true
is_delete _ = false

-- Some action deletes the message.
abbrev pub deletes : List Action → Bool
deletes actions = any is_delete actions

-- The message is a valid envelope of an authorized sender, and the use case has answered its command
-- with success, in the state that is left.
pub record Acknowledged {S : Type 0} (context : Context) (use_case : UseCase S) (race : Race)
    (message : Message) (s left : S) : Type 0 where
  pub envelope : Envelope
  pub command : SubmitWagerCommand
  pub result : Option WagerResult
  pub read : context.unmarshal message.body ≡ some envelope
  pub authorized : context.provider_for_sender message.sender_id ≡ some envelope.content.provider_id
  pub understood : command_of context.text context.zone_offset envelope ≡ ok command
  pub in_time : race ≡ finished
  pub answered : use_case command (delivery_of context message envelope) s ≡ (left, ok result)

observed-deletes :
    (kept : Bool) (result : Option WagerResult)
    → deletes (if kept then observed result else []) ≡ false
observed-deletes true none = refl
observed-deletes true (some result) = refl
observed-deletes false result = refl

backoff-deletes : (handle : Bytes) (delay : Option ℕ) → deletes (backoff handle delay) ≡ false
unfolding backoff
backoff-deletes handle none = refl
backoff-deletes handle (some delay) = refl

-- Only the success of the use case deletes.
abbrev Succeeds : ProcessOutcome → Type 0
Succeeds outcome = (result : Option WagerResult) × (outcome ≡ succeeded result)

failed-kept :
    (context : Context) (message : Message) (e : AppError)
    → deletes (settle_message context message (failed e)) ≡ false
unfolding settle_message
failed-kept context message e =
    let b =
      backoff-deletes message.receipt_handle
        (transient_visibility (receive_count message.approximate_receive_count)) in
    elim (Bool-cases context.canceled) [
      | inl c ↦ rw c refl
      | inr c ↦ elim (Bool-cases (is_transient e)) [ inl t ↦ rw (c, t) b | inr t ↦ rw (c, t) refl ]
    ]

settle_message-deletes :
    (context : Context) (message : Message) (outcome : ProcessOutcome)
    → (deletes (settle_message context message outcome) ≡ true) ↔ Succeeds outcome
unfolding settle_message
settle_message-deletes context message out_of_time = (λ h. cc, λ h. cc)
settle_message-deletes context message (succeeded result) = (λ h. (result, refl), λ h. refl)
settle_message-deletes context message (failed e) =
    let k = failed-kept context message e in (λ h. cc, λ h. cc)

outcome_of-succeeded :
    (answer : Result AppError (Option WagerResult)) (result : Option WagerResult)
    → outcome_of answer ≡ succeeded result
    → answer ≡ ok result
outcome_of-succeeded (ok a) result h = cc
outcome_of-succeeded (err e) result h = cc

module _ {S : Type 0} (context : Context) (use_case : UseCase S) (message : Message) (s : S) where
  submit-succeeded :
      (race : Race) (command : SubmitWagerCommand) (delivery : InboxDelivery)
      (result : Option WagerResult)
      → (submit use_case race command delivery s).1 ≡ succeeded result
      → (race ≡ finished)
        × (use_case command delivery s ≡ ((submit use_case race command delivery s).0, ok result))
  unfolding submit
  submit-succeeded finished command delivery result h =
      let done = use_case command delivery s in
      (refl, ap (λ x. (done.0, x)) (outcome_of-succeeded done.1 result h))
  submit-succeeded (timed_out later) command delivery result h = cc

  process_command-deletes :
      (race : Race) (envelope : Envelope) (parsed : Result EnvelopeError SubmitWagerCommand)
      → context.unmarshal message.body ≡ some envelope
      → context.provider_for_sender message.sender_id ≡ some envelope.content.provider_id
      → command_of context.text context.zone_offset envelope ≡ parsed
      → deletes (process_command context use_case race message envelope parsed s).1 ≡ true
      → Acknowledged context use_case race message s
          (process_command context use_case race message envelope parsed s).0
  unfolding process_command
  process_command-deletes race envelope (err e) u a p h = cc
  process_command-deletes race envelope (ok command) u a p h =
      let delivery = delivery_of context message envelope in
      let (result, o) =
        (settle_message-deletes context message (submit use_case race command delivery s).1).0 h in
      let (r, done) = submit-succeeded race command delivery result o in
      record {
        envelope = envelope;
        command = command;
        result = result;
        read = u;
        authorized = a;
        understood = p;
        in_time = r;
        answered = done;
      }

  authorized_sender :
      (sender : Option Bytes) (envelope : Envelope)
      → unauthorized sender envelope ≡ false
      → sender ≡ some envelope.content.provider_id
  authorized_sender none envelope h = cc
  authorized_sender (some provider) envelope h =
      ap some ((bytes_eq_iff provider envelope.content.provider_id).0 (ground arith))

  process_envelope-deletes :
      (race : Race) (read : Option Envelope)
      → context.unmarshal message.body ≡ read
      → deletes (process_envelope context use_case race message read s).1 ≡ true
      → Acknowledged context use_case race message s
          (process_envelope context use_case race message read s).0
  unfolding process_envelope
  process_envelope-deletes race none u h = cc
  process_envelope-deletes race (some envelope) u h =
      let sender = context.provider_for_sender message.sender_id in
      let parsed = command_of context.text context.zone_offset envelope in
      elim (Bool-cases (unauthorized sender envelope)) [
        | inl refused ↦ let g = (rw refused at h) in cc
        | inr trusted ↦ rw trusted (
            process_command-deletes race envelope parsed u
              (authorized_sender sender envelope trusted) refl (rw trusted at h))
      ]

  Acknowledged-deletes :
      (race : Race) (left : S)
      → Acknowledged context use_case race message s left
      → deletes (process context use_case race message s).1 ≡ true
  unfolding process process_envelope process_command submit settle_message
  Acknowledged-deletes race left a =
      rw
        (
          a.read,
          a.authorized,
          bytes_eq_refl a.envelope.content.provider_id,
          a.understood,
          a.in_time,
          a.answered,
        )
        refl

  -- A message is deleted exactly when it is an envelope that decodes, of a sender whose provider it
  -- names, with a valid command, and the use case has answered the command with success before the
  -- end of the grace time; the state that is left is then the one that the use case left.
  pub process-deletes :
      (race : Race)
      → (deletes (process context use_case race message s).1 ≡ true)
        ↔ Acknowledged context use_case race message s (process context use_case race message s).0
  unfolding process
  process-deletes race = (
    process_envelope-deletes race (context.unmarshal message.body) refl,
    Acknowledged-deletes race _,
  )
