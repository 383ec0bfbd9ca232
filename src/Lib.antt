-- ===== src/Lib.antt =====
-- Wasteland: a board of wanted items that rigs post, claim, do and review, kept in a Dolt database.
--
-- The parts. internal/commons holds the data and its rules: the lifecycle of an item, the SQL
-- statements of each operation, the reading of query results, and the board with the changes that
-- stand on mutation branches. internal/sdk is the client, which all front ends use: it performs an
-- operation on main (the wild-west mode) or on the rig's own branch (PR mode), and shows an item with
-- its branch and with the submissions of other rigs that are pending. internal/api serves the client
-- over HTTP, behind a rate limiter and a cache of the reads, which a mutation invalidates.
-- internal/dolthubauth is a service of its own, which other services call with signed requests.
--
-- The files.
--   Api.RateLimit, Api.ReadCache: internal/api/ratelimit.go and read_cache.go, with what the holders
--     of the lock do in turn.
--   Api.CacheScope: internal/api/cache_scope.go and the invalidations of handlers.go.
--   DolthubAuth: internal/dolthubauth, the service that keeps the DoltHub credentials of rigs: Types
--     and Validation for types.go, errors.go and validation.go, Tables for schema.go and the SQL of
--     store.go, Store, Redeem and Patch for store.go, Service for service_auth.go, Requests, Server and
--     Proxy for server.go, and Run for what requests in turn do.
--   Backfill: tools/githubprbackfill, a tool that stamps merged pull requests: Scoring for scoring.go,
--     Files and Reviews for signals.go, Plan for planner.go.
--   Base: Go's strings and integers, lists and maps as the code uses them, and `sort.Slice`.
--   Commons.Types, Commons.Db: the structs of internal/commons/commons.go, errors as values, the
--     interface DB as a record of functions on a state of all that lies outside, and the library
--     functions that are arguments (CSV and JSON readers, number readers, lower case).
--   Commons.Lifecycle: internal/commons/lifecycle.go.
--   Commons.Sql, Commons.Dml, Commons.Store, Commons.Rows: internal/commons/commons.go, in this
--     order the escaping of texts, the statements, the operations that run them, and the queries;
--     QueryItemStatus is from internal/commons/dolt.go.
--   Commons.Queries: internal/commons/queries.go, with Browse for the query of the board, Overrides
--     for the changes on branches, Dashboard and ItemState.
--   Commons.Ranking: internal/commons/leaderboard.go and scoreboard.go.
--   Sdk.Action: Go functions that may fail and that change the outside; what was done before an error
--     stays done.
--   Sdk.Pending: the parts of internal/sdk/reads.go and mutations.go on pending submissions.
--   Sdk.Client, Sdk.Reads: internal/sdk/sdk.go and reads.go.
--   Sdk.Workspace: internal/sdk/workspace.go.
--   Sdk.Branches, Sdk.Mutate, Sdk.Mutations: branches.go, mutate.go and mutations.go of internal/sdk.
--   Tests: the theorems at concrete inputs.
-- A function keeps the name that it has in Go, in lower case with underscores; a Go method of the
-- client takes the client as an argument.
--
-- Choices. A Go map is an association list in which a key stands once; where Go iterates a map in an
-- unspecified order, the order is the list's. A text is a list of characters; texts are measured in
-- bytes where Go does so. Every loop is over a list, or counts down, and so ends; there is no fuel.
-- Ids that come from the clock and the time of a post are arguments. An error of the database or of
-- a callback is its text. A context is only its strict-reads flag. Times are natural numbers of
-- nanoseconds. What runs under a lock is one step, and threads are the steps of its holders in any
-- order. In DolthubAuth a table is a list of rows and a SQL statement a function on it, which fails
-- also whenever the outside says so; a transaction that fails leaves the tables as they were, and one
-- whose commit fails may have been made. A handler there is one step, and times are not rounded.
--
-- Not modelled: the mutex of the client, which makes each operation one step; tracing and logging;
-- the cache of GitHub handles that is filled after a stamp; the HTTP handlers of internal/api, which call
-- the client; CORS, the health pages and the other headers of the proxy of internal/dolthubauth, and
-- its client;
-- the dolt command line, hosted servers and HTTP clients, the terminal and web front ends and the
-- command line, which call the client or stand behind the interface DB.
pub mod Api
pub mod Backfill
pub mod Base
pub mod Commons
pub mod DolthubAuth
pub mod Sdk
pub mod Tests
