-- ===== src/Lib.antt =====
-- PeakPass: ticket sales under load, the transactions of its PostgreSQL services, its waiting room in
-- Redis, and the limits before its API.
--
-- The services of src/core/services run one transaction per request. They share the tables of
-- src/infra/migrations, and every change of an event's free seats goes through the inventory
-- service: the reservation service takes seats and holds them, the checkout takes them for an order
-- or converts a reservation, and the payment webhook and the expiration of orders settle an order or
-- give its seats back. On an event that is protected by the waiting room, the admission gate comes
-- first and a ledger row records what each admission was spent on. A page that waits for its turn polls
-- the waiting room and sends its purchase from a controller of its own.
--
-- Files:
--   Prelude, Table     shared names, integers, texts; a table as a list of rows with its primary key
--   Failure            src/core/errors/index.ts and the constraint errors of PostgreSQL
--   Model              src/core/models: rows, statuses, inputs, unit prices, ticket numbers
--   Db                 the database as a record of tables, transactions on it, the inserts with
--                      the unique indexes and CHECKs of src/infra/migrations, and rules for proofs
--   Inventory          src/core/services/inventory.service.ts
--   Events             src/core/services/event.service.ts (createEventWithClient)
--   Reservations       src/core/services/reservation.service.ts on an open connection
--   Purchase           the same file's createReservation behind the admission gate
--   Orders             order.service.ts, ticket.service.ts and order-expiration.service.ts
--   Admission          admission-consumption.ts and src/infra/postgres/admission-policy.ts
--   Checkout           src/core/services/checkout.service.ts
--   Payment            src/core/services/payment-webhook.service.ts
--   Retry              the retries of a purchase: src/infra/postgres/client.ts, admission-consumption.ts
--   Redis              the hashes and sorted sets of Redis that the script of the waiting room uses
--   WaitingRoom        src/infra/redis/admission.ts: the script of the waiting room
--     Script, Entries  the script as a monad over the keys of an epoch; its local functions
--     Requests, Finish, Tick, Lifecycle, Run
--                      its branches, and the checks around them
--     Steps, Health    a specification: the life of an entry, and what holds between two runs
--     Put, Changes, Ends, Updates, Entering
--                      lemmas on each change of an entry
--     Running, Expiry, Joining, Claiming, Cleaning, Ticking, Bodies, Rooms, Keeping
--                      lemmas on each part of the script
--     Histories, Order, Limits
--                      sequences of runs; the order of promotions; the limiter
--   Polling            frontend/admission-polling.js: the controller of a page in the waiting room
--     Delays, Answers, Actions, Events
--                      the waits and the trace; what an answer does; what is sent; the step function
--     Handling, Buying what the handlers of answers and the events have in common
--     Waiting, Quiet   the error wait
--     Exclusion        one request at a time (Landing, Acts, Steps)
--     Repeats, Frozen, Keys
--                      the repeats of a purchase and of a join
--     Bounds, Resuming, Ring
--                      the bounds of the waits; the next poll; the ring of the trace
--   Complexity         src/api/graphql/complexity.ts: the cost of a query (Fuel, Limits)
--   Guards             the rate limits and locks of src/infra/redis/commands.ts and
--                      src/api/middleware/rateLimit.ts (Windows, Owners), and
--                      src/api/middleware/idempotency.ts (Idempotency)
--   System             the transactions as commands, run in any order
--   Seats              a specification: the account of an event's seats, and what each operation does to it
--   Tickets            a specification: the tickets that each order has and is due
--   Frame              which tables an operation leaves as they are
--   Invariant          from the base operations to every transaction and every history
--   Scenario           a sale as a test, and the theorems at concrete inputs
--
-- A transaction is a function from the database to an error or to a result with the new database
-- (Db): an error rolls everything back. Concurrent transactions are sequences of commands, since the
-- services lock the rows that they change. A savepoint is a `Session`: the
-- database that it marked beside the current one, which holds what the part after it has written when
-- that part throws (`unfinished` of `Env`, of which nothing is known), until ROLLBACK TO SAVEPOINT. UUIDs,
-- sequence values and clocks are read from an `Env`, of which nothing is assumed: an insert with a
-- UUID in use fails as the primary key makes it fail. A text that a VARCHAR(255) column of the payment
-- tables does not take makes its INSERT fail. `rounded` of `Env` is the text of a JavaScript
-- number above 2 ^ 53, where integers are rounded to doubles. How a wait for the advisory lock of an
-- admission ends and what the Redis queue answers to a claim are the parameter `Gateway`. The script of the waiting room is a function from the
-- keys of an event to an answer and the keys: Redis runs it alone. The keys of each epoch are a
-- `Namespace` without the sentinels; a script error after the first write leaves the dirty bit set,
-- and the namespace, which no later run reads, is then `damaged`. Times are milliseconds. Ids, tokens
-- and generations are numbers. Loops run over a list or count a quantity down; the
-- decimal digits of a number n run on fuel, n + 1, where each round divides n by ten, and the cost of
-- a query runs on fuel, which `Complexity.Fuel.enough` computes from the maximal depth.
--
-- Not modelled: the HTTP layer and the GraphQL resolvers, authentication, the Redis
-- mirror of a hold, cached answers, the service over the waiting room with its recovery and the removal of retired
-- epochs, the sweepers' schedule and the reclaim of overdue claims, and the rest of
-- the frontend, with what the controller of a page measures and shows. `Retry` stands beside
-- the commands: a command of `System` is one run of a transaction.
pub mod Prelude
pub mod Table
pub mod Failure
pub mod Model
pub mod Db
pub mod Inventory
pub mod Reservations
pub mod Orders
pub mod Payment
pub mod Admission
pub mod Checkout
pub mod Purchase
pub mod Seats
pub mod Frame
pub mod Events
pub mod System
pub mod Complexity
pub mod Guards
pub mod Invariant
pub mod Polling
pub mod Redis
pub mod Retry
pub mod Tickets
pub mod WaitingRoom
mod Scenario
