-- ===== src/Financial/Reversal.antt =====
-- Reversal claims (internal/domain/financial/reversal.go).
use backend_challenge_go_jun.Prelude.{◌||◌, ◌==◌, Result, ok, ◌>>◌, reject_if}
use backend_challenge_go_jun.Financial.{Time, is_zero_time, FinancialError, invalid_input}
use backend_challenge_go_jun.Financial.Identifiers.{Uuid, is_nil}

pub record ReversalClaim : Type 0 where
  pub id : Uuid
  pub reference_transaction_id : Uuid
  pub reversal_transaction_id : Uuid
  pub created_at : Time

-- `RehydrateReversalClaim` is this function.
unfoldable pub new_reversal_claim :
    (id reference_transaction_id reversal_transaction_id : Uuid) (now : Time)
    → Result FinancialError ReversalClaim
new_reversal_claim id reference_transaction_id reversal_transaction_id now = do
  reject_if (is_nil id) invalid_input
  reject_if (is_nil reference_transaction_id || is_nil reversal_transaction_id) invalid_input
  reject_if (reference_transaction_id == reversal_transaction_id) invalid_input
  reject_if (is_zero_time now) invalid_input
  ok (record {
    id = id;
    reference_transaction_id = reference_transaction_id;
    reversal_transaction_id = reversal_transaction_id;
    created_at = now;
  })
