-- ===== src/Lib.antt =====
-- inventory-service keeps the stock of an online shop: balances per SKU and warehouse, reservations
-- of orders, and an append-only ledger of movements, in Postgres. This library models its core in Go.
--
-- The parts, and the code that they are about:
--
--   Base           shared names: signed integers and int64, Go strings as lists of bytes, Boolean
--                  tests, lists
--   Domain         internal/core/domain/inventory.go and reservation.go: commands, lines, results,
--                  errors as values, StockCommand.Validate, AggregateLines, CanonicalHash;
--                  Decode, Order and Canonical read the hashed text back
--   Store          db/migrations/sql: the tables as lists of rows, with what keys, foreign keys,
--                  CHECKs and column types refuse; Store/Atp has the expressions and row loops that
--                  derive available-to-promise
--   Stock          internal/core/repository/stock_commands.go: `receive_stock`, `adjust_on_hand`,
--                  `set_safety_stock`, `run` and `claim_command` are ReceiveStock, AdjustOnHand,
--                  SetSafetyStock, run and claimCommand; `execute` is the port StockCommander
--   Reservations   internal/core/repository/reservations.go: `reserve` (Reserve), `release`,
--                  `commit`, `transition`, `allocate_reservation`, `get_reservation` and their helpers
--   Availability   internal/core/repository/availability.go (Queries) and
--                  internal/logic/v1/availability.go (Service), which reaches the first through
--                  the interface `AvailabilityReader`
--   Transport      internal/grpc/v1/validate.go, reservations.go and server.go, over
--                  ReservationService.Reserve of internal/logic/v1/reservations.go:
--                  `server_reserve`, `server_release`, `server_commit`, `server_get_reservation`,
--                  `server_batch`, `server_check`, `reservation_lines`, `reservation_error`; Identity, Resend
--                  and Again are about requests that are sent again
--   Telemetry      internal/logic/v1/metrics.go and tracing.go: what the services report, as lists of
--                  signals; `reserve_reported`, `service_release`, `service_commit` and
--                  `service_get_reservation` are the methods of ReservationService with their reports
--   Admin          internal/core/repository/admin_reads.go (Reads), internal/core/domain/admin_views.go
--                  (Views) and internal/logic/v1/admin.go (Service): the lists of the back office,
--                  and `run_command` before its two commands
--   Web            internal/web/v1/router.go: a handler per route (Handlers) over the interface
--                  `AdminLogic`, the routes behind the middlewares (`serve`), `respond_admin_error`
--   Config         config/config.go: the readers of variables (Env), `load` (Load), and
--                  `validate_config` and `validate_for_subcommand` (Validate); Fields and Servable say
--                  what they come to
--   Process        cmd/main.go: `start` is main up to the running servers, with `run_subcommand` and
--                  `apply_seed`; `run_graceful_shutdown` is the way from the signal to the exit
--   Consistency    the invariant that ties reservations to balances, and the keys and foreign keys of
--                  the tables, through each operation
--   System         every sequence of these calls, as an inductive relation `Reach`
--   Lifecycle      a reservation after the call that made it: the same request sent again, the calls
--                  that end it and what can hinder them, and every later sequence of calls
--   Tests          runs of the operations, and each theorem at a concrete input
--
-- An operation takes the database and gives a result and the database after it. A transaction that
-- does not commit leaves the database as it was (`transact`). Transactions that change the same rows
-- wait for each other, by FOR UPDATE and by the unique indexes; so a call is one step, and what can
-- still interleave is explicit: the unlocked scan of Reserve reads a state of its own
-- (`Env.snapshot`), a claim may lose the race for its id (`Env.lost_race`), and each query of the
-- availability reads sees its own state (`Reads`). BEGIN, a row lock and COMMIT may each fail with
-- any error (`Env.begin`, `Env.lock`, `Env.commit`); that another statement fails with the
-- connection is not a case of its own: like a failed BEGIN it leaves an error and changes nothing.
--
-- Assumption on COMMIT: one that fails was rolled back. At the client a COMMIT can also fail after
-- Postgres has applied it, when the connection breaks or the context ends before the answer arrives.
-- Such a call leaves the state that the same call leaves with `commit = none`, so `Reach`, and what
-- is said of every state that it leads to, covers it; its answer is an error that the model does not
-- give. What is said of calls that fail, that they change nothing, does not cover it.
--
-- Parameters: SHA-256 in hexadecimal and Postgres' reading of a timestamptz (`Runtime`), and what
-- time.Parse accepts as RFC-3339. int64 and BIGINT are integers with their bounds: int64 sums wrap,
-- and BIGINT arithmetic refuses what does not fit. The digits of a number are bounded by 19, which
-- every int64 keeps to. There is no other fuel: every loop is by recursion on a list.
--
-- In the HTTP API the page and its offset (httpx), the subject of the token and the verdicts of the
-- middlewares (authmw), and the bound body (gin) are arguments. ORDER BY compares texts byte by byte.
--
-- The environment is a function and its texts are ASCII; time.ParseDuration is an argument. Postgres,
-- the migrations and the embedded files are arguments of `start`, and what the servers need to stop
-- is an argument of the shutdown, in nanoseconds.
--
-- Not modelled: BuildDSN, which calls net/url, and the wiring of the servers, of the connection pool
-- and of OpenTelemetry, whose failures are arguments of `start`. The texts that errors are wrapped in
-- are left out, since code only asks which error stands inside. The identity column of movements is
-- the order of the list.
pub mod Base
pub mod Domain
pub mod Store
pub mod Stock
pub mod Reservations
pub mod Consistency
pub mod System
pub mod Lifecycle
pub mod Availability
pub mod Transport
pub mod Telemetry
pub mod Admin
pub mod Web
pub mod Config
pub mod Process
mod Tests
