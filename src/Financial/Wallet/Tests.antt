-- ===== src/Financial/Wallet/Tests.antt =====
-- Runs of the wallet on concrete inputs.
use backend_challenge_go_jun.Prelude.{◌≡◌, ◌⊎◌, refl, ok, err, arith}
use backend_challenge_go_jun.Prelude.Bytes.{Bytes, codes, bytes_eq}
use backend_challenge_go_jun.Prelude.Int.{
  ℤ, pos, ◌+ℤ◌, ◌-ℤ◌, ◌<ℤ◌, ◌≤ℤ◌, InInt64, max_int64, wrap64,
}
use backend_challenge_go_jun.Money.{Money, add, sub, neg, less_than, overflow}
use backend_challenge_go_jun.Financial.{Time, of_money, insufficient_funds, invalid_input}
use backend_challenge_go_jun.Financial.Wallet.{Wallet, new_wallet, rehydrate_wallet, credit, debit}
use backend_challenge_go_jun.Financial.Wallet.Movement.{IsValid, Movable, credit_exact, debit_exact}
use backend_challenge_go_jun.Financial.Wallet.Validity.{
  credit-IsValid, debit-IsValid, rehydrate_valid, debit-credit, credit_before_creation,
}

abbrev brl : Bytes
brl = codes "BRL"

abbrev cents : ℤ → Money
cents z = record { minor_units = z; currency = brl }

abbrev opened : Wallet
opened = record {
  id = 7;
  player_id = 8;
  currency = brl;
  balance = cents (pos 1000);
  version = pos 1;
  created_at = 100;
  updated_at = 100;
}

opened-IsValid : IsValid opened
opened-IsValid = record {
  identified = ground arith;
  owned = ground arith;
  initialized = refl;
  same_currency = refl;
  nonnegative = ground arith;
  balance_range = ground arith;
  versioned = ground arith;
  version_range = ground arith;
  created = ground arith;
  ordered = ground arith;
}

movable : Movable opened (cents (pos 250)) 200
movable = record {
  same_currency = refl;
  positive = ground arith;
  range = ground arith;
  timed = ground arith;
}

abbrev moved : ℤ → ℤ → Time → Wallet
moved z version now = record opened { balance = cents z; version = version; updated_at = now }

credited : credit opened (cents (pos 250)) 200 ≡ ok (moved (pos 1250) (pos 2) 200)
unfolding credit add ◌+ℤ◌ wrap64 bytes_eq
credited = refl

debited : debit opened (cents (pos 250)) 200 ≡ ok (moved (pos 750) (pos 2) 200)
unfolding debit sub neg add less_than ◌+ℤ◌ ◌-ℤ◌ wrap64 bytes_eq
debited = refl

built : new_wallet 7 8 brl (cents (pos 1000)) 100 ≡ ok opened
unfolding new_wallet bytes_eq
built = refl

credited_late : credit opened (cents (pos 250)) 50 ≡ ok (moved (pos 1250) (pos 2) 50)
unfolding credit add ◌+ℤ◌ wrap64 bytes_eq
credited_late = refl

small : pos 1 +ℤ pos 1 <ℤ max_int64
unfolding ◌+ℤ◌
small = ground arith

credit_exact_example :
    let sum = pos 1000 +ℤ pos 250 in
    ((InInt64 sum)
      × (credit opened (cents (pos 250)) 200
          ≡ ok (record opened { balance = cents sum; version = pos 1 +ℤ pos 1; updated_at = 200 })))
    ⊎ ((¬ InInt64 sum) × (credit opened (cents (pos 250)) 200 ≡ err (of_money overflow)))
credit_exact_example = credit_exact opened-IsValid movable (ground arith)

debit_exact_example :
    ((pos 1000 <ℤ pos 250) × (debit opened (cents (pos 250)) 200 ≡ err insufficient_funds))
    ⊎ ((pos 250 ≤ℤ pos 1000)
        × (debit opened (cents (pos 250)) 200
            ≡ ok (record opened {
              balance = cents (pos 1000 -ℤ pos 250);
              version = pos 1 +ℤ pos 1;
              updated_at = 200;
            })))
debit_exact_example = debit_exact opened-IsValid movable (ground arith)

credit-IsValid_example : IsValid (moved (pos 1250) (pos 2) 200) × (pos 2 ≡ pos 1 +ℤ pos 1)
credit-IsValid_example =
    credit-IsValid opened (cents (pos 250)) 200 opened-IsValid movable (ground arith) (ground arith)
      credited

debit-IsValid_example : IsValid (moved (pos 750) (pos 2) 200) × (pos 2 ≡ pos 1 +ℤ pos 1)
debit-IsValid_example =
    debit-IsValid opened (cents (pos 250)) 200 opened-IsValid movable (ground arith) (ground arith)
      debited

rehydrate_valid_example : rehydrate_wallet 7 8 brl (cents (pos 1000)) (pos 1) 100 100 ≡ ok opened
rehydrate_valid_example = rehydrate_valid opened opened-IsValid

debit-credit_example :
    debit (moved (pos 1250) (pos 2) 200) (cents (pos 250)) 300
    ≡ ok (record opened { version = pos 1 +ℤ pos 1 +ℤ pos 1; updated_at = 300 })
debit-credit_example =
    debit-credit opened (cents (pos 250)) 200 300 opened-IsValid movable (ground arith)
      (ground arith) small credited

credit_before_creation_example :
    rehydrate_wallet 7 8 brl (cents (pos 1250)) (pos 2) 100 50 ≡ err invalid_input
credit_before_creation_example =
    credit_before_creation opened (cents (pos 250)) 50 opened-IsValid (ground arith) (ground arith)
      credited_late
