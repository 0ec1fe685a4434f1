-- ===== src/Financial/Ledger/Tests.antt =====
-- A posting that the constructor accepts, and one that it refuses.
use backend_challenge_go_jun.Prelude.{◌≡◌, ◌↔◌, refl, ok, err, arith}
use backend_challenge_go_jun.Prelude.Bytes.{codes, bytes_eq}
use backend_challenge_go_jun.Prelude.Int.{ℤ, pos, ◌+ℤ◌, wrap64}
use backend_challenge_go_jun.Money.{Money, add, equal}
use backend_challenge_go_jun.Financial.{Direction, invalid_input}
use backend_challenge_go_jun.Financial.Ledger.{WalletLedgerEntry, new_ledger_entry}
use backend_challenge_go_jun.Financial.Ledger.Postings.{IsPosting, InRange, new_ledger_entry_iff}

abbrev cents : ℤ → Money
cents z = record { minor_units = z; currency = codes "BRL" }

abbrev posting : ℤ → WalletLedgerEntry
posting after = record {
  id = 1;
  wallet_id = 7;
  transaction_id = 9;
  direction = Direction.credit;
  amount = cents (pos 250);
  balance_before = cents (pos 1000);
  balance_after = cents after;
  created_at = 200;
}

refused : new_ledger_entry (posting (pos 1251)) ≡ err invalid_input
unfolding new_ledger_entry add equal bytes_eq ◌+ℤ◌ wrap64
refused = refl

in_range : InRange (posting (pos 1250))
in_range = record {
  amount_range = ground arith;
  before_range = ground arith;
  after_range = ground arith;
}

new_ledger_entry_iff_example :
    (new_ledger_entry (posting (pos 1250)) ≡ ok (posting (pos 1250)))
    ↔ IsPosting (posting (pos 1250))
new_ledger_entry_iff_example = new_ledger_entry_iff (posting (pos 1250)) in_range
