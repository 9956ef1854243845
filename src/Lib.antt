-- ===== src/Lib.antt =====
-- murlog, an ActivityPub server for a single user: the library that models its core.
--
-- The server answers ActivityPub and JSON-RPC requests (handler/), keeps its data in a SQL database
-- (store/sqlite/), and leaves all deliveries to a worker (worker/) that takes jobs from a queue in the
-- same database (queue/). A handler enqueues a job; the worker claims it, runs it, and completes it,
-- fails it with a delay or gives it up; a job that goes to all followers enqueues one job for each.
-- A domain that keeps failing is skipped for a while (the circuit breaker).
--
-- Files and what they model:
--   Domain, Domain/Social     murlog.go: the records and enums of the tables
--   Id, Id/*                  id/id.go: UUIDv7 identifiers
--   Queue, Queue/*            queue/queue.go, queue/sqlqueue/sqlqueue.go: the table of jobs
--   Store                     the other tables, as one record of lists of rows
--   Store/Circuit, ../*       store/sqlite/domain_failure.go: the circuit breaker
--   Store/Followers, ../*     store/sqlite/follow.go: follows, followers, cached counters
--   Worker, Worker/*          worker/worker.go: process, RunOnce, one goroutine of RunBatch and Run
--   Worker/Fanout, ../*       worker/worker.go: fanoutToFollowers and the handlers that only fan out
--   Totp, Totp/*              totp/totp.go: one-time passwords
--   Rpc, Rpc/*                handler/rpc.go: the JSON-RPC dispatcher
--   Auth, Auth/*              handler/api_mur_auth.go, handler/auth.go, isHTTPAuthed of handler/rpc.go,
--                             store/sqlite/login_attempt.go, store/sqlite/session.go
--   Account, Account/*        murlog.go, handler/api_mur_auth.go, handler/api_mur_totp.go: the rules
--                             for passwords and user names, and the owner's changes of them
--   Signature, Signature/*    activitypub/signature.go: signing and verifying requests
--   Store/Posts, ../*         store/sqlite/post.go, attachment.go: posts and the cached number of posts
--   Store/Interactions, ../*  store/sqlite/favourite.go, reblog.go, notification.go, block.go,
--                             remote_actor.go
--   Inbox, Inbox/*            handler/activitypub.go: handleInbox, its handlers and storeRemoteNote;
--                             Inbox/Effects is the contract of a handler: the calls of the store and
--                             the queue that it may make, in sequence
--   Methods, Methods/*        handler/api_mur_follows.go, api_mur_blocks.go, api_mur_interactions.go,
--                             api_mur_notifications.go: the methods that change their tables
--   Traffic                   requests to the inbox and calls of these methods, in any order
--   Json                      decoded JSON values, as encoding/json gives them to the handlers
--   Externals                 what comes from packages that are not in the repository
--   Prelude, Prelude/*        lists, strings, tables and pages of tables, shared by all
--
-- How the code is read. A table is the list of its rows, and a SQL statement the function on the list
-- that it denotes: `update_where`, `delete_where`, `order_by` and so on of Prelude/Tables. What a
-- primary key, a UNIQUE index or a reference refuses is `none`; a database that fails to answer is not
-- modelled. An ORDER BY on equal keys takes the first row. An id is the number that its bytes spell,
-- which has the order of the bytes; a time is in seconds, and the clock is an argument that stays the
-- same during one call. Only signatures count time in nanoseconds, with the 64-bit durations of Go's
-- time package, saturation included. A JSON number is a natural number, and an int of the worker's
-- settings its 64 bits in two's complement. A state that changes is passed from call to call; a Go
-- error is a value, and so is a panic. Contexts, logging and timeouts are left out, and so is the
-- writing of HTTP responses beyond their contents.
--
-- Loops. All recursion is structural but for the fan-out's, which has fuel for one turn more than
-- the hundreds of rows in the table of followers: every turn but the last reads a full page of 100
-- rows that no other turn reads. Identifiers are drawn from a numbered source (`new_id`), and
-- `draws` counts them.
--
-- Parameters. JSON, URL parsing, bcrypt, base32, base64, HMAC-SHA1, SHA-256, RSA and Ed25519, HTML
-- sanitizing and SQL's LIKE come from Go's libraries or the database; they are arguments, and nothing
-- is assumed of them but what a theorem states. `Inbox.Site` holds those of the inbox, with the clock,
-- the base URL and what other servers answer to a fetch; `Signature.Crypto` those of signatures. A map
-- of the source whose order does not matter is a list. The handlers of the worker are a record of
-- functions in Worker, where `process` does not depend on what they do.
--
-- Not modelled: the methods for posts, personas and media, and the listings; the handlers of the
-- worker that deliver a single activity; mentions and hashtags in local posts; image metadata. Pages,
-- set-up and configuration are I/O or rendering.
pub mod Prelude
pub mod Domain
pub mod Queue
pub mod Store
pub mod Id
pub mod Inbox
pub mod Methods
pub mod Traffic
pub mod Signature
pub mod Externals
pub mod Worker
pub mod Json
pub mod Totp
pub mod Rpc
pub mod Auth
pub mod Account
