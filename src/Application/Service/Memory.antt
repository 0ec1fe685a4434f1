-- ===== src/Application/Service/Memory.antt =====
-- A store in memory that satisfies the ports' contracts, for runs of the use cases.
use backend_challenge_go_jun.Prelude.{
  some_injective, ℕ, ◌*◌, ◌/◌, false, ◌&&◌, ◌==◌, if◌then◌else◌, Option, none, some, List, [], ◌∷◌,
  ok, ◌≡◌, refl, sym, ok-injective, arith, ◌∙◌, ap,
}
use backend_challenge_go_jun.Prelude.Bytes.{Bytes, bytes_eq, bytes_eq_refl}
use backend_challenge_go_jun.Financial.Identifiers.{Uuid}
use backend_challenge_go_jun.Financial.Wallet.{Wallet}
use backend_challenge_go_jun.Financial.Ledger.{WalletLedgerEntry}
use backend_challenge_go_jun.Financial.Reversal.{ReversalClaim}
use backend_challenge_go_jun.Financial.Wager.{WagerTransaction}
use backend_challenge_go_jun.Event.{Envelope}
use backend_challenge_go_jun.Application.Commands.{InboxDelivery}
use backend_challenge_go_jun.Application.Ports.{Repositories, TimeColumn, as_stored}
use backend_challenge_go_jun.Application.Service.Answers.{KeepsKeys}

pub record Memory : Type 0 where
  pub wallets : List Wallet
  pub transactions : List WagerTransaction
  pub entries : List WalletLedgerEntry
  pub claims : List ReversalClaim
  pub outbox : List Envelope
  pub inbox : List InboxDelivery

abbrev wallet_of : Uuid → List Wallet → Option Wallet
wallet_of id [] = none
wallet_of id (w ∷ ws) = if w.id == id then some w else wallet_of id ws

abbrev keyed : Bytes → Bytes → List WagerTransaction → Option WagerTransaction
keyed p k [] = none
keyed p k (t ∷ ts) =
    if bytes_eq t.provider_id p && bytes_eq t.idempotency_key k then some t else keyed p k ts

abbrev externally : Bytes → Bytes → List WagerTransaction → Option WagerTransaction
externally p x [] = none
externally p x (t ∷ ts) =
    if bytes_eq t.provider_id p && bytes_eq t.external_transaction_id x
    then some t
    else externally p x ts

abbrev by_id : Uuid → List WagerTransaction → Option (WagerTransaction × ℕ)
by_id id [] = none
by_id id (t ∷ ts) = if t.id == id then some (t, 0) else by_id id ts

abbrev map_some : Option (WagerTransaction × ℕ) → Option WagerTransaction
map_some none = none
map_some (some found) = some found.0

abbrev claim_of : Uuid → List ReversalClaim → Option ReversalClaim
claim_of id [] = none
claim_of id (c ∷ cs) = if c.reference_transaction_id == id then some c else claim_of id cs

abbrev replace : WagerTransaction → List WagerTransaction → List WagerTransaction
replace u [] = []
replace u (t ∷ ts) = (if t.id == u.id then u else t) ∷ replace u ts

abbrev pub delivered : InboxDelivery → List InboxDelivery → Option Bytes
delivered d [] = none
delivered d (x ∷ xs) =
    if bytes_eq x.consumer_name d.consumer_name && bytes_eq x.message_id d.message_id
    then some x.digest
    else delivered d xs

abbrev pub begun : InboxDelivery → Option Bytes → Memory → Option Bytes × Memory
begun d none s = (none, record s { inbox = d ∷ s.inbox })
begun d (some digest) s = (some digest, s)

-- Whole microseconds.
abbrev pub microseconds : TimeColumn
microseconds = record {
  kept = λ t. t / 1000 * 1000;
  kept-kept = λ t. omega arith;
  kept_zero = refl;
  kept_ordered = λ t u h. omega arith;
}

abbrev read : Option WagerTransaction → Option WagerTransaction
read none = none
read (some t) = some (as_stored microseconds t)

abbrev pub memory : Repositories Memory
memory = record {
  lock_wallet = λ id s. ok (wallet_of id s.wallets);
  wallet_by_id = λ id s. ok (wallet_of id s.wallets);
  save_balance = λ w s. ok (record s { wallets = w ∷ s.wallets });
  insert_wallet = λ w s. ok (record s { wallets = w ∷ s.wallets });
  insert_transaction = λ t s. ok (record s { transactions = t ∷ s.transactions });
  update_transaction = λ u schedule s. ok (record s { transactions = replace u s.transactions });
  reschedule_reference = λ id now next attempts s. ok s;
  transaction_by_id = λ id s. ok (map_some (by_id id s.transactions));
  lock_transaction = λ id s. ok (by_id id s.transactions);
  by_provider_and_key = λ p k s. ok (read (keyed p k s.transactions));
  by_provider_and_external_id = λ p x s. ok (read (externally p x s.transactions));
  claim_due_references = λ now limit lease s. ok ([], s);
  insert_entry = λ e s. ok (record s { entries = e ∷ s.entries });
  list_page = λ id currency after limit s. ok (s.entries, false);
  insert_claim = λ c s. ok (record s { claims = c ∷ s.claims });
  claim_by_reference = λ id s. ok (claim_of id s.claims);
  insert_event = λ e now s. ok (record s { outbox = e ∷ s.outbox });
  begin_delivery = λ d s. ok (begun d (delivered d s.inbox) s);
  complete_delivery = λ consumer message now s. ok s;
}

keyed-replace :
    (t u : WagerTransaction) (ts : List WagerTransaction)
    → keyed u.provider_id u.idempotency_key ts ≡ some t
    → t.id ≡ u.id
    → keyed u.provider_id u.idempotency_key (replace u ts) ≡ some u
keyed-replace t u [] h i = cc
keyed-replace t u (x ∷ xs) h i =
    ground
      (arith, keyed-replace t u xs, bytes_eq_refl u.provider_id, bytes_eq_refl u.idempotency_key)

read_again :
    (found : Option WagerTransaction) {t : WagerTransaction}
    → read found ≡ some t
    → as_stored microseconds t ≡ t
read_again none h = cc
read_again (some x) h = rw (← some_injective h) (
    rw
      (
        microseconds.kept-kept x.reference_deadline,
        microseconds.kept-kept x.created_at,
        microseconds.kept-kept x.updated_at,
      )
      refl)

read_from :
    (found : Option WagerTransaction) {t : WagerTransaction}
    → read found ≡ some t
    → (x : WagerTransaction) × (found ≡ some x) × (x.id ≡ t.id)
read_from none h = cc
read_from (some x) h = (x, refl, ap (λ y. y.id) (some_injective h))

pub memory-KeepsKeys : KeepsKeys memory microseconds
memory-KeepsKeys = record {
  inserted = λ t s s' e.
      rw (← ok-injective e)
        (rw (bytes_eq_refl t.provider_id, bytes_eq_refl t.idempotency_key) refl);
  updated = λ t u schedule s s' h i p k e.
      let look = λ (a b : Bytes). read (keyed a b s.transactions) in
      let (x, known, same) = read_from (keyed u.provider_id u.idempotency_key s.transactions) (
        ap (λ a. look a u.idempotency_key) (sym p)
        ∙ ap (λ b. look t.provider_id b) (sym k)
        ∙ ok-injective h) in
      rw (← ok-injective e)
        (ap (λ o. ok (read o)) (keyed-replace x u s.transactions known (same ∙ i)));
  key_read = λ p k s t e. read_again (keyed p k s.transactions) (ok-injective e);
  external_id_read = λ p x s t e. read_again (externally p x s.transactions) (ok-injective e);
  balance_kept = λ w s s' p k e. rw (← ok-injective e) refl;
  entry_kept = λ x s s' p k e. rw (← ok-injective e) refl;
  claim_kept = λ c s s' p k e. rw (← ok-injective e) refl;
  event_kept = λ x now s s' p k e. rw (← ok-injective e) refl;
}
