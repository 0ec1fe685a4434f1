-- ===== src/Application/Service/Replay.antt =====
-- Submitting a command twice (internal/application/service.go: submitWithinTx).
use backend_challenge_go_jun.Prelude.{true, ◌≡◌}
use backend_challenge_go_jun.Prelude.Bytes.{Bytes}
use backend_challenge_go_jun.Financial.Wallet.{Wallet}
use backend_challenge_go_jun.Financial.Wager.{WagerTransaction, external_transaction}
use backend_challenge_go_jun.Application.Commands.{SubmitWagerCommand, external_params}
use backend_challenge_go_jun.Application.Ports.{Repositories, TimeColumn, Surroundings}
use backend_challenge_go_jun.Application.Service.{WagerResult}
use backend_challenge_go_jun.Application.Service.Submission.{digest_version}

-- The transaction of a command, as it is submitted.
abbrev pub submitted : Surroundings → SubmitWagerCommand → Bytes → WagerTransaction
submitted around cmd digest =
    external_transaction
      (external_params cmd around.transaction_id digest_version digest around.now)

-- The answer to the same command, again: marked, and with the instants that the columns keep.
abbrev pub replayed : TimeColumn → WagerResult → WagerResult
replayed column result = record result {
  reference_deadline = column.kept result.reference_deadline;
  idempotent_replay = true;
  created_at = column.kept result.created_at;
  updated_at = column.kept result.updated_at;
}

-- A later state in which the lookups of a command find what they found before.
pub record Finds {S : Type 0} (repos : Repositories S) (cmd : SubmitWagerCommand) (s now : S)
    : Type 0 where
  pub by_key :
      repos.by_provider_and_key cmd.provider_id cmd.idempotency_key now
      ≡ repos.by_provider_and_key cmd.provider_id cmd.idempotency_key s
  pub by_external_id :
      repos.by_provider_and_external_id cmd.provider_id cmd.external_transaction_id now
      ≡ repos.by_provider_and_external_id cmd.provider_id cmd.external_transaction_id s
