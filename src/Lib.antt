-- ===== src/Lib.antt =====
-- The reservations of the game backend, the persistence of its events, and the queue of its failed
-- transactions.
--
-- The backend serves a game of two players whose moves are transactions on a blockchain. Players take
-- short-lived locks on games before they act: to join a waiting game, to cancel it, to reveal a choice,
-- to follow up on a game that has ended. The locks live in memory, one use case for each kind.
-- A subscriber hands the transactions to the handlers, tries again when these fail, and puts what
-- cannot be processed into a queue in the database.
--
-- Entity: internal/entity. Entity/Game has `Game` and its transitions, Entity/Reservation the one
--   record behind the four kinds of locks, Entity/Errors the error values, Entity/Repository the
--   lookup of games, which belongs to the database and is an argument here.
-- Wallet: the normal form of addresses that internal/usecase/reservation.go compares wallets by. The
--   address parser and lower case beyond ASCII belong to other packages, and are arguments.
-- Ledger: the state that all four use cases have (two maps, the limits, the collaborators that are
--   set), and the steps they share. Ledger/Invariant, Ledger/Limit, Ledger/Reads and Ledger/Sweep
--   have its well-formedness, the limit per wallet, what reads see, and the cleanup loop.
-- Sorting: the stable sort of the listings.
-- Reservation: internal/usecase/reservation.go, `ReservationUseCase`.
-- CancelReservation: internal/usecase/cancel_reservation.go, `CancelReservationUseCase`.
-- RevealReservation: internal/usecase/reveal_reservation.go, `RevealReservationUseCase`.
-- ExpiredClaim: internal/usecase/expired_claim.go, `ExpiredClaimUseCase`.
-- Exclusion: the join and the cancel use case as internal/app/app.go wires them.
-- DeadLetterTable: internal/repository/postgres/dead_letter_queue_repository.go over the table of
--   migrations/000011_create_dead_letter_queue.up.sql. The rows are a list, and the statements are
--   functions of it that keep the partial unique index and the check of the status. Whether the server
--   answers, and which rows its column types take, are arguments.
-- DeadLetterQueue: internal/usecase/dead_letter_queue.go, `DeadLetterQueueUseCase`, with the entity of
--   internal/entity/dead_letter.go in Entity/DeadLetter. The JSON text of a transaction is an argument.
-- Activity: internal/usecase/game_activity.go, `GameActivityUseCase`, over the items of
--   internal/entity/player_activity.go in Entity/Activity: the queues that a player sees, without the
--   text search. The two queries of the repository are arguments.
-- BlockchainSubscriber: internal/usecase/blockchain_subscriber.go, what happens to a transaction that
--   cannot be parsed or persisted: retries, counters, and the queue of DeadLetterQueue. The parser and
--   the handler of an event are arguments of the retry loop, as are float64 products and the decimal text of numbers.
-- Database: the tables of migrations/000001 to 000003, 000007 to 000009 and 000012, with the statements
--   of internal/repository/postgres on them: Database/Games and Database/Players are
--   game_repository.go, Database/Events game_event_repository.go, Database/Users and
--   Database/Statistics user_repository.go. A statement
--   of a server fails without an effect, or does what it says at a time; both are chosen by the
--   environment. Keys, checks, types and foreign keys are tests on rows. Database/Keeping,
--   Database/Giving and Database/Triples have the rules by which properties pass through calls.
-- GamePersistence: internal/usecase/game_persistence.go, `GamePersistenceUseCase`, over these tables and
--   the four use cases of reservations, with the transactions of pkg/postgres/tx.go. The state
--   has the event object of the caller, which the retry loop of the subscriber hands over again. Conversion of
--   `float64` and JSON text are arguments. Events are handled one at a time.
-- GameQuery: internal/usecase/game_query.go, `GameQueryUseCase`: the listings of games over these tables.
--   The sum of offset and limit wraps, and the panic that this can lead to is an error value.
-- UserManagement: internal/usecase/user_management.go, `UserManagementUseCase`: profiles over them.
-- GameBroadcast: internal/usecase/game_broadcast.go, `GameBroadcastUseCase`: the subscriptions, and in
--   GameBroadcast/Messages the messages to them. JSON text, and what a connection refuses, are arguments.
--   A broadcast changes the state only where it cleans up, so that part is a step of its own.
-- Poller: internal/infrastructure/toncenter/poller.go, `Poller`, with the order of its transactions in
--   Poller/Transactions. What the client and the handler answer is an argument. The loop over older pages
--   runs on fuel, a number of requests; the times of the first page are fuel enough where the API has a
--   page for each transaction of the chain, since each page starts earlier than the one before.
-- Common: numbers, texts, dictionaries and results that all of them use.
-- Examples: tests, and each result at a concrete input.
--
-- A call takes the clock, the repository and the state, and returns the state, the Go results and the
-- calls of the broadcaster and, for the reservations, of the metrics, in order. What a mutex makes atomic is one step: the
-- part of `Reserve` before the lock is `admit`, the part under it `commit`. Maps are lists of keys
-- and values, in the order in which `range` happens to visit them. Identifiers are integers that the
-- code does not add to; durations and delays wrap around at 64 bits as in Go. Times are nanoseconds
-- since an epoch; the time of a call is an argument, and all of a call happens at that time. But for the
-- poller there is no fuel: every loop goes over a list, or over the attempts that are left.
--
-- Not modelled: the deletion of old games and users, logging, tracing, the loops that call the cleanups, HTTP, sockets, and the other
-- subsystems of the repository.
mod Common
pub mod Entity
pub mod Wallet
pub mod Ledger
pub mod Sorting
pub mod Database
pub mod Reservation
pub mod CancelReservation
pub mod Exclusion
pub mod Activity
pub mod UserManagement
pub mod GameQuery
pub mod GameBroadcast
pub mod Poller
pub mod DeadLetterTable
pub mod DeadLetterQueue
pub mod BlockchainSubscriber
pub mod RevealReservation
pub mod ExpiredClaim
pub mod GamePersistence
mod Examples
