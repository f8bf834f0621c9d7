-- ===== src/Lib.antt =====
-- A model of the parts of this repository that carry its own rules: events that leave a service
-- through an outbox, a broker and an inbox, sessions of users, authorisation, rate limits, posts, and
-- the dispatch of notifications.
--
-- How the parts interact. A service writes an event to the outbox in its own transaction (Outbox).
-- The relay claims rows, publishes them to the broker and marks them (Eventing/Relay). A consumer
-- fetches records, decodes and validates the event (Event), and lets the inbox apply its handler in
-- one transaction (Inbox); what fails goes to a retry topic or to the dead letters
-- (Eventing/Failure), and the offset is committed after that (Eventing/Run). A user logs in and gets
-- an access token and a refresh token, which is renewed once and then replaced (Session); a request
-- with an access token passes the guard (Authz) and the limits (RateLimiter). Posts are written with
-- their event in one transaction of the outbox, get a reference id (Refid), and are updated only at
-- the version that was read (Posts); a change is then put down in the audit log (Audit).
-- The dispatcher claims due deliveries, sends them and stores the outcome (Notifications).
--
-- Which file models what:
--   Errors       error values of internal/platform/storage/storage.go, event/error.go, and what
--                `errors.Is` and `errors.As` find in them
--   Storage      `WithTx` of internal/platform/storage/storage.go, over a connection that may fail
--   Event        internal/platform/event/event.go and topic.go
--   Inbox        internal/platform/inbox/store.go: `Process`
--   Strconv      `strconv.Itoa` and `strconv.Atoi` of Go's standard library
--   Eventing     internal/platform/eventing: Headers, Failure, Consumer and Run are consumer.go and
--                replay.go, Relay is relay.go
--   Outbox       internal/platform/outbox/store.go: `Enqueue`, Claim, and the marks
--   RateLimiter  internal/platform/ratelimiter: the middleware, and Memory for memory.go
--   Session      internal/modules/user/refresh_store.go and auth.go, with internal/platform/authn
--   Tokens       internal/modules/user/token_store.go: the one-time tokens of mails
--   Authz        internal/platform/authz/authz.go: the guard
--   Refid        internal/platform/refid/refid.go: reference ids
--   Query        internal/platform/query: the parameters of listings
--   Audit        internal/platform/audit: the log of changes
--   Posts        internal/modules/post: store.go is Posts itself, events.go is Posts/Events,
--                handler.go is Posts/Handlers, the routes of module.go are Posts/Requests, and
--                query.go with `List` and its handler is Posts/Listing
--   Notifications  internal/modules/notification: policy.go is Notifications itself,
--                store.go is Notifications/Store, channel.go is Notifications/Senders
--                and dispatch.go is Notifications/Dispatch
--   Prelude      shared names, Boolean tests, lists and signed integers
--
-- How state is modelled. A call on Postgres or Redis is a function on the tables and on the faults
-- that are still to come (Storage.Db): at every statement, begin and commit the connection may work,
-- fail without effect, or fail after the effect. A theorem for all lists of faults covers every such
-- run. The tables are lists of rows with the columns and defaults of cmd/migrate/migrations, and an
-- INSERT checks the unique indexes and the references to other tables that it can break. The lengths
-- of texts and the validity of stored JSON are not checked, nor the references of an UPDATE, which
-- sets only the id of the caller. A statement is one step, as its row locks make it; the clocks are
-- arguments. A publish to the broker fails in the same two ways. Code that goes on in a
-- transaction after a failed statement is modelled with the aborted state of Postgres (Storage/Tx).
--
-- Bounds. An int of Go has 64 bits: the attempt that `handle` counts up wraps as it does
-- (Prelude/Int). `itoa` writes at most 19 digits, which is enough for every int64. The
-- loops of `Normalize` and of `create` run three and eight times at most, as in the source. No other
-- definition has fuel: the loops recur on their lists. Counters of rows, such as the token version,
-- are not bounded, but for the version of a post, whose column holds 31 bits.
--
-- What is not modelled: the Kafka, Redis, mail, S3 and HTTP clients, JSON, JWT, bcrypt and uuid,
-- which are parameters; metrics but for the consumer's counters, and logs; the Lua script of the
-- Redis limiter, which runs in the Redis server; the JSON schema validators; configuration and
-- start-up; ILIKE and collation, which are parameters of the listing; of the notifications, how they
-- are enqueued and their handlers; of the users, registration, the mailed flows and the change of
-- roles; and the module of files.
pub mod Audit
pub mod Authz
pub mod Errors
pub mod Event
pub mod Eventing
pub mod Inbox
pub mod Notifications
pub mod Outbox
pub mod Posts
pub mod Prelude
pub mod Query
pub mod RateLimiter
pub mod Refid
pub mod Session
pub mod Storage
pub mod Strconv
pub mod Tokens
