-- ===== src/Sqs/Consumer.antt =====
-- The handling of one queue message (internal/adapters/sqs/consumer/consumer.go: process, submit,
-- abandon, release, backoff, delete). What it does to the queue and to the metrics is the list of
-- its actions; logging and the renewal of the visibility while the message is in work are left out.
use backend_challenge_go_jun.Prelude.{
  ℕ, ◌/◌, ◌++◌, Bool, true, not, Option, none, some, if◌then◌else◌, List, [], ◌∷◌, Result, ok, err,
}
use backend_challenge_go_jun.Prelude.Bytes.{Bytes, bytes_eq}
use backend_challenge_go_jun.Financial.{Time, Kind, State}
use backend_challenge_go_jun.Financial.Identifiers.{UuidText}
use backend_challenge_go_jun.Application.{AppError, ErrorCode, error_code_of, is_transient}
use backend_challenge_go_jun.Application.Commands.{SubmitWagerCommand, InboxDelivery}
use backend_challenge_go_jun.Application.Backoff.{second, transient_visibility}
use backend_challenge_go_jun.Application.Backoff.Receive.{receive_count}
use backend_challenge_go_jun.Application.Service.{WagerResult}
use backend_challenge_go_jun.Sqs.{Envelope, EnvelopeError, ZoneOffset, command_of}

-- What the handler reads of a received message.
pub record Message : Type 0 where
  pub receipt_handle : Bytes
  pub body : Bytes
  pub sender_id : Bytes
  pub approximate_receive_count : Bytes

-- The labels of the dead letter metric.
pub data Reason : Type 0 where
  invalid_message unauthorized_sender inbox_payload_conflict redrive : Reason

pub data Action : Type 0 where
  delete_message : (handle : Bytes) → Action
  change_visibility : (handle : Bytes) (seconds : ℕ) → Action
  count_dlq : Reason → Action
  count_retry : Action
  count_duplicate : Action
  count_transaction : Kind → State → Action

-- Around one message: encoding/json, time, crypto/sha256 in hexadecimal and the configured senders, then
-- the clock, whether the context is canceled when the submission has ended, and whether the queue
-- accepts the deletion.
pub record Context : Type 0 where
  pub text : UuidText
  pub zone_offset : ZoneOffset
  pub unmarshal : Bytes → Option Envelope
  pub digest : Bytes → Bytes
  pub provider_for_sender : Bytes → Option Bytes
  pub consumer_name : Bytes
  pub started : Time
  pub canceled : Bool
  pub deleted : Bool

-- How the race of `submit` ends: with the result of the use case, or with the end of the grace time,
-- while the use case goes on and is committed later or not at all.
pub data Race : Type 0 where
  finished : Race
  timed_out : (committed_later : Bool) → Race

pub data ProcessOutcome : Type 0 where
  succeeded : (result : Option WagerResult) → ProcessOutcome
  failed : AppError → ProcessOutcome
  out_of_time : ProcessOutcome

-- `SubmitWagerFromInbox` of the use case; no result stands for a duplicate.
abbrev pub UseCase : Type 0 → Type 0
UseCase S = SubmitWagerCommand → InboxDelivery → S → S × Result AppError (Option WagerResult)

abbrev pub outcome_of : Result AppError (Option WagerResult) → ProcessOutcome
outcome_of (ok result) = succeeded result
outcome_of (err e) = failed e

unfoldable pub submit :
    {S : Type 0} → UseCase S → Race → SubmitWagerCommand → InboxDelivery → S → S × ProcessOutcome
submit use_case finished command delivery s =
    let done = use_case command delivery s in (done.0, outcome_of done.1)
submit use_case (timed_out later) command delivery s =
    (if later then (use_case command delivery s).0 else s, out_of_time)

abbrev pub release : Bytes → List Action
release handle = change_visibility handle 0 ∷ []

abbrev pub abandon : Bytes → Reason → List Action
abandon handle reason = count_dlq reason ∷ change_visibility handle 0 ∷ []

unfoldable pub backoff : Bytes → Option ℕ → List Action
backoff handle none = count_dlq redrive ∷ []
backoff handle (some delay) = change_visibility handle (delay / second) ∷ []

abbrev pub reason_of : Option ErrorCode → Reason
reason_of (some ErrorCode.inbox_payload_conflict) = inbox_payload_conflict
reason_of _ = invalid_message

abbrev pub observed : Option WagerResult → List Action
observed none = count_duplicate ∷ []
observed (some result) = count_transaction result.kind result.state ∷ []

-- What follows the submission.
unfoldable pub settle_message : Context → Message → ProcessOutcome → List Action
unfolding backoff
settle_message context message out_of_time = release message.receipt_handle
settle_message context message (failed e) =
    if context.canceled
    then release message.receipt_handle
    else if is_transient e
    then count_retry
      ∷ backoff message.receipt_handle
          (transient_visibility (receive_count message.approximate_receive_count))
    else abandon message.receipt_handle (reason_of (error_code_of e))
settle_message context message (succeeded result) =
    delete_message message.receipt_handle ∷ (if context.deleted then observed result else [])

abbrev pub delivery_of : Context → Message → Envelope → InboxDelivery
delivery_of context message envelope = record {
  consumer_name = context.consumer_name;
  message_id = envelope.message_id;
  digest = context.digest message.body;
  received_at = context.started;
}

-- `!ok || provider != envelope.Data.ProviderID`
abbrev pub unauthorized : Option Bytes → Envelope → Bool
unauthorized none envelope = true
unauthorized (some provider) envelope = not (bytes_eq provider envelope.content.provider_id)

unfoldable pub process_command :
    {S : Type 0}
    → Context
    → UseCase S
    → Race
    → Message
    → Envelope
    → Result EnvelopeError SubmitWagerCommand
    → S
    → S × List Action
unfolding submit settle_message
process_command context use_case race message envelope (err e) s =
    (s, abandon message.receipt_handle invalid_message)
process_command context use_case race message envelope (ok command) s =
    let done = submit use_case race command (delivery_of context message envelope) s in
    (done.0, settle_message context message done.1)

unfoldable pub process_envelope :
    {S : Type 0} → Context → UseCase S → Race → Message → Option Envelope → S → S × List Action
unfolding process_command
process_envelope context use_case race message none s =
    (s, abandon message.receipt_handle invalid_message)
process_envelope context use_case race message (some envelope) s =
    if unauthorized (context.provider_for_sender message.sender_id) envelope
    then (s, abandon message.receipt_handle unauthorized_sender)
    else process_command context use_case race message envelope
        (command_of context.text context.zone_offset envelope) s

unfoldable pub process : {S : Type 0} → Context → UseCase S → Race → Message → S → S × List Action
unfolding process_envelope
process context use_case race message s =
    process_envelope context use_case race message (context.unmarshal message.body) s

-- A delivery of a message: what surrounds it and how its race ends.
pub record Received : Type 0 where
  pub context : Context
  pub race : Race
  pub message : Message

-- The loop of PollOnce over the messages of a batch; `stopped` tells for each message whether the
-- context is canceled in front of it.
unfoldable pub process_batch :
    {S : Type 0} → UseCase S → List (Bool × Received) → S → S × List Action
unfolding process
process_batch use_case [] s = (s, [])
process_batch use_case ((stopped, received) ∷ batch) s =
    let done = process received.context use_case received.race received.message s in
    let rest = process_batch use_case batch done.0 in
    if stopped then (s, []) else (rest.0, done.1 ++ rest.1)
