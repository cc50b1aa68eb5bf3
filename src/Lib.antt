-- ===== src/Lib.antt =====
-- Sukumad forwards data between health systems. A client stores a request through the HTTP API; an
-- expansion makes one delivery of it for its destination and one for each copy; a worker claims
-- deliveries in the database, sends them to the servers within limits of rate and concurrency, polls
-- the jobs that a server started, and retries what failed.
--
-- The parts, from below, and the files that model them:
--
--   Prelude, Text    Boolean tests, lists measured by native numbers, counting, Go's integers, and
--                    Go's strings as bytes with what the code uses of `strings` and `strconv`.
--   Types            internal/types: one record for each type; a pointer is an Option.
--   Store            The database: db/migrations/000001_initial.up.sql as lists of rows, and a call
--                    of it as an action on a world of tables, clock and faults.
--   Config           config/config.go.
--   Queue            The functions of db/migrations/000001_initial.up.sql: Claim, Expand and Moves
--                    are the code; Sorting, Turn, Counts, Copies, Sendable, Rows and Retry the
--                    proofs.
--   Accounts         internal/repo/user_repo.go, role_repo.go, permission_repo.go, refresh_repo.go
--                    and rest_repo.go: Users, Logins, Grants, Roles and Tokens are the code;
--                    Lockout, Once and Effective the proofs. Calls names every statement that writes
--                    these tables, and sequences of them; Links is about their keys.
--   Records          internal/repo/server_repo.go, request_repo.go and delivery_repo.go: Servers,
--                    Requests and Deliveries are the code, Trips and Patching the proofs. Calls names
--                    every statement that writes these tables, the worker's too, and sequences of
--                    them; Sound is about their keys.
--   Web, Auth        internal/auth, internal/middleware/authz.go and cors.go, and
--                    internal/handlers/auth_handler.go: Ip, Attempts, Keys, Authz, Login and Reset
--                    are the code, Admission, Rotation, Barred, Replay, Recovery, Bearing and Cors the
--                    proofs.
--   Api              The other handlers of internal/handlers, and internal/http.
--   Boot             internal/seeder/seeder.go: Seeder is the code, Seeded and Bootstrap the proofs;
--                    internal/migrate/migrate.go and db/db.go in Fixtures and Migrations; and the
--                    start of cmd/api/main.go, which calls these, in Startup.
--   Logging          The levels of setupLogger and RequestLogger, and the port of cmd/api/main.go.
--   Worker           main.go: Helpers, Wire, Limiter, Handlers, Dispatch and System are the code, and
--                    Restart the start of main; the other files the proofs. Life is an abstract
--                    machine, the life of one delivery; Arcs, Statements and Refines relate the
--                    worker's steps to it. Unblocked and Progress are about who waits for a place.
--   Samples          Small tables on which the theorems are applied, in the files called Tests.
--
-- How state and calls are modelled. A handler or a statement is a function from a World to its
-- answer and the next World. A statement runs at one time of the clock, all at once, or fails with
-- its connection and changes nothing: the list of faults says which calls fail. That a commit is
-- done and only its acknowledgement is lost is not represented. A handler sees one
-- time from its start to its end. The worker's concurrency is the relation Worker.System.Step: a
-- step is one tick, one receipt of a row, one row handled, or time that passes, and Reach is any
-- sequence of them, so that every interleaving of these is covered; inside a step nothing
-- interleaves. The bound of a channel is not modelled: a row that waits for room counts as
-- being in it. Nor is the number of the workers, or which of them waits: any row of a channel may
-- be taken next, so that rows overtake one that waits for a place of its semaphore.
--
-- Parameters. The HTTP client, encoding/json, time.Parse, bcrypt, SHA-256, JWT, the parsers of the
-- package net and random bytes are arguments, records of functions, of which nothing is assumed but
-- what a theorem states among its hypotheses. The token buckets of golang.org/x/time/rate are
-- represented by whether their Wait returns nil. What golang-migrate does is the record
-- Boot.Migrations.Library.
--
-- Numbers. An int32 and an int64 are integers with the conversions that wrap written out (int32,
-- int64); a time is a number of nanoseconds, and differences of times are not cut at 292 years; a
-- float64 is a number of millionths. Letters and spaces of texts are those of ASCII. An address read
-- from an inet column is the text that was stored. What Postgres refuses for its representation is
-- not represented: texts with a zero byte or that are not UTF-8, and the overflow of the double in
-- the wait of a retry, from about a thousand attempts on. No definition uses fuel: each loop is over a
-- list.
--
-- Not modelled: the writing of logs, the wiring of the middlewares and the shutdown of
-- the two programs (main.go, cmd/api/main.go), the reading of the configuration's file and of the
-- environment, the generated description (internal/docs), and the columns of the tokens that keep
-- the caller's address and agent.
pub mod Prelude
pub mod Text
pub mod Types
pub mod Store
pub mod Config
pub mod Queue
pub mod Accounts
pub mod Records
pub mod Web
pub mod Auth
pub mod Api
pub mod Boot
pub mod Samples
pub mod Logging
pub mod Worker
