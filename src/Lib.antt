-- ===== src/Lib.antt =====
-- A wallet and wager service: players' wallets in minor units, wager operations of external
-- providers (bets, wins, losses, refunds, rollbacks), a ledger of postings, and the recovery of
-- operations whose reference has not arrived yet. The Go code stands under internal/; every file of
-- this library says which file of it the definitions model, and the definitions keep the names of
-- the code.
--
-- The parts, from the bottom:
-- * Money (internal/domain/money/money.go): amounts as int64 minor units with a currency, the
--   checked arithmetic (Money), what it computes (Money/Arith, Money/Results), and the decimal text
--   of an amount with its parser (Money/Format).
-- * Financial (internal/domain/financial): the vocabulary of origins, kinds, states and failure
--   codes (Financial), identities (Financial/Identifiers, identifiers.go), the wallet
--   (Financial/Wallet, wallet.go), postings (Financial/Ledger, ledger.go), reversal claims
--   (Financial/Reversal, reversal.go) and the wager transaction (Financial/Wager, wager.go) with
--   its state machine as a step relation (Financial/Wager/Transitions, States, Lifecycle) and its
--   way back from the store (Financial/Wager/Rehydration).
-- * Application (internal/application): errors as errors.Is and errors.As see them (Application,
--   errors.go), commands and their checks (Application/Commands, commands.go), the decision on an
--   operation and its reference (Application/Resolve, resolve.go and planOperation of service.go),
--   the retry delays (Application/Backoff, backoff.go, with those of
--   internal/adapters/outbox/publisher.go and internal/adapters/sqs/consumer/consumer.go) and the
--   reconciliation of a wallet with its ledger (Application/Reconciliation, reconciliation.go).
-- * Event (internal/domain/event/event.go): the events that a transaction stores for publication.
-- * The use cases (Application/Service, service.go): Execution is executePlan and applyMovement,
--   Submission is SubmitWagerTransaction and SubmitWagerFromInbox with their retry loop, Recovery
--   is ResolvePendingReference and OpenWallet, Queries the reads with the ledger page
--   (Application/Pagination, pagination.go). They run over the ports of Application/Ports
--   (ports.go), operations on a state of the store that a proof takes as a parameter; what a proof
--   needs of an implementation is the record KeepsKeys (Application/Service/Answers), which a store
--   in memory satisfies (Application/Service/Memory). What a submission keeps of the store is in
--   Application/Service/Frames, and with it what the inbox keeps (Inbox, MemoryInbox). Answers,
--   Replay, Movements and Deadlines are proofs.
-- * PostgreSQL (internal/adapters/postgres): the errors of the driver (Postgres), the rows and what
--   they are rebuilt into (Postgres/Rows, RoundTrip), what an update writes over a row
--   (Postgres/Updates), and the page query of the ledger over the rows of the table
--   (Postgres/Pages, ledger.go) with its order and its cuts (Order, Cuts, Client, Walk).
-- * Outbox (internal/adapters/postgres/outbox_publisher.go, internal/adapters/outbox/publisher.go):
--   the claim of due events with a lease, their confirmation and rescheduling, and the loop of a
--   pass; what sessions commit in between is a step relation (Outbox/Leases), and what it keeps of
--   a published event (Outbox/Publication).
-- * Sqs (internal/adapters/sqs/consumer): the envelope and its command (Sqs, envelope.go), the
--   handling of one message and of a batch as a list of actions (Sqs/Consumer, consumer.go), when a
--   message is deleted (Sqs/Delivery) and what its redelivery does (Sqs/Redelivery).
-- * Http (internal/adapters/http): requests, responses and refusals (Http, dto.go), the handlers
--   over the use cases (Http/Handler, handler.go), who may call which route (Http/Access,
--   middleware), and proofs (Http/Access/Guards, Http/Ingress, Http/Replies).
-- * Worker (internal/adapters/worker/reference.go): a pass over the references that wait, with the
--   claim of their rows in Postgres/References and its leases over other sessions' writes
--   (Postgres/References/Leases), and what it does after their deadlines (Worker/Deadlines).
--
-- How the code is translated: a Go struct is a record, a string type with documented constants is a
-- data type with a constructor `other` for every other string, `(value, error)` is `Result`, and a
-- method with a value receiver returns the new value. An int64 is an integer whose arithmetic wraps
-- around where the code computes it (Prelude/Int); strings are lists of bytes; instants are
-- nanoseconds since Go's zero time, so 0 is the instant for which IsZero holds. UUIDs are numbers
-- of 128 bits with 0 for the nil UUID, and their text is a parameter, as github.com/google/uuid is
-- not part of the repository; fresh identities and the readings of the clock are the record
-- Surroundings. The digest of a command is an argument of the submission. The columns of instants
-- are TIMESTAMPTZ, which keep microseconds: what a column keeps is the parameter TimeColumn
-- (Application/Ports), and what is read back has the instants that it keeps (as_stored). The
-- instants in the model of the outbox, of the inbox and of the ledger rows that are paged are those
-- of the columns.
--
-- Transactions: the body of a transaction is a function of the state of the store; InTx
-- (internal/adapters/postgres/store.go) keeps what a body has written if it succeeds and the commit
-- does, and drops what a failed body wrote. An error of the commit does not tell whether it took
-- effect: the model has both outcomes, and nothing is promised of the store then. Other
-- transactions come in between the attempts of a retry loop, each of which has its own clock,
-- identities and state.
--
-- Bounds: the retry loops make three attempts, as the code does; the other loops of the code are
-- structural recursions on the rounds that are left, and a uint64 is written with at most 20
-- digits, which is what its decimal form needs (Money/Format/Lemmas).
--
-- A client that reads a whole ledger is given as many pages as the ledger ever has entries, and one,
-- which is enough whatever the page size.
--
-- Not modelled: the constraints of the tables that the migrations create, the scan of a row by the
-- driver, JSON, base64, SHA-256 and the text of times and UUIDs, which are parameters with what the
-- code relies on as laws; tokens and the OIDC discovery, rate and size limits, the media type
-- check, the renewal of the visibility of a message, the polling loops and timers, configuration,
-- metrics, logging, failpoints and provisioning, which are input and output around the parts above;
-- and the messages inside errors.
pub mod Prelude
pub mod Money
pub mod Financial
pub mod Application
pub mod Event
pub mod Http
pub mod Outbox
pub mod Postgres
pub mod Sqs
pub mod Worker
