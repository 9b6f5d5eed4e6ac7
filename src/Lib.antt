-- ===== src/Lib.antt =====
-- Verification of the content management service: contents with a version history, edited under an
-- optimistic lock, published by hand or by workers that lease scheduled jobs from a table.
--
-- The parts. Every write is a transaction of internal/store over one SQLite connection. The domain
-- layer, internal/content, validates its input and calls the store; the handlers of
-- internal/httpapi decode a request, call the domain layer and map its errors to replies; the
-- worker of internal/scheduler polls the queue of schedules, claims jobs and completes each in one
-- transaction. The parts share nothing but the database.
--
-- Store.Model, Store.Statements: the rows of internal/store/models.go; the four tables of
--   migrations/00001_init.sql as lists of rows, and the constraints as refusals of the statements
--   that insert and update (unique, primary key, foreign key).
-- Store.Tx: DB.Tx of internal/store/tx.go. A transaction takes the database to its answer and the
--   database afterwards; `Conn` says whether the driver's BEGIN and COMMIT fail.
-- Store.Tx.Panics: DB.Tx statement by statement around a body that may panic, with the `committed`
--   flag and the deferred rollback, over the one connection of the write pool; and DB.ReadTx.
-- Store.Open, Store.Migrate: Open and Close of internal/store/db.go with their connection strings,
--   and the calls of goose in migrate.go. What is done to the pools and asked of goose is a log.
-- Store.Contents, Store.Publish, Store.Schedules, Store.Public: the files of the same names in
--   internal/store, one function for each method, and for each statement in it the test of its
--   WHERE and the effect of its SET. CreateContent is `create_content`, ClaimDueSchedules is
--   `claim_due_schedules`, and so on.
-- Store.Versioned, Store.Queued, Store.Exactly: the invariants of the contents with their versions,
--   of the queue, and of the queue with the audit events. The modules under Contents, Publish and
--   Schedules take the operations to them one at a time.
-- Store.Contents.Register: the abstract view of editing, a register that holds for each content the
--   number and the fields of its current version, with a compare-and-swap on the number.
-- Store.History: sequences of store calls. As there is one writing connection, the transactions of
--   all requests and workers are such a sequence.
-- Content.Validate, Content.Service: internal/content/service.go and internal/content/publish.go.
-- Scheduler.Worker: execute, tick, shutdown and Run of internal/scheduler/worker.go, over a `World`
--   of clock readings and driver answers.
-- Httpapi.Etag, Httpapi.Auth: internal/httpapi/etag.go and the token check of auth.go.
-- Httpapi.Reply, Httpapi.Dto, Httpapi.Pages: the replies of errors.go with the mapping of errors of
--   admin.go, the wire types of dto.go, and the pagination of admin.go.
-- Httpapi.Admin, Httpapi.Listing, Httpapi.Publishing, Httpapi.Public: the handlers of admin.go,
--   publish.go and public.go.
-- Httpapi.Seo, Httpapi.Html: the sitemap and robots.txt of seo.go, and the page of a document of
--   html.go. Httpapi.Routes, Httpapi.Router: the route table of router.go, the token middleware on
--   its admin group, and the dispatch to the handlers. Httpapi.Middleware: the recovery and the
--   request log of middleware.go.
-- System: the servers and the workers of cmd/server over one database, as a sequence of requests,
--   polls and stops. Between the read of an update, a publish or a schedule and its transaction, and
--   between the transactions of a poll (Scheduler.Worker.Among), others act in their turn.
-- Server: run and main of cmd/server/main.go, a process from its configuration to its exit code, as
--   the log of what it does in its order, deferred calls included. What a goroutine does enters by
--   the steps that begin it and wait for it.
-- Config, Config.Duration: Load, validate and the readers of the environment of
--   internal/config/config.go, with the reading of a duration as the time package defines it.
-- Common: tests on texts and numbers, results, lists as tables, and Go's string functions.
-- Tests: runs at concrete inputs.
--
-- How the code is read. Texts are lists of bytes. Identifiers, versions, counters and times in
-- milliseconds are natural numbers: an int64 of the code that is negative has no counterpart, and a
-- request's version below 1 is 0 here. A version is read from a tag only below 2 ^ 63, and a
-- number is printed with fuel for 20 digits, which is enough for an int64. Clock readings, fresh
-- identifiers, the decoded body of a request and the text of an error are arguments. ORDER BY leaves
-- equal rows in table order, and RETURNING gives rows in table order. The text of a time and its
-- parsing in the handlers are parameters, since they are calls of the time package.
--
-- A duration is read on fuel for the length of its text, and every pass takes something off it; the
-- product of a fraction with its unit, which the code computes in floating point, is a parameter.
-- What the driver answers on opening and closing, what goose answers, and what ends the wait of a
-- process are parameters; the paths of the file system are those of Unix.
-- How chi picks a route is a parameter, as are the templates, and the encodings of JSON and XML.
--
-- Not modelled: an I/O failure or a cancelled context in the middle of a transaction; the headers
-- that do not depend on the request, Last-Modified, the request id, and what the log lines hold besides a status;
-- the timeouts of net/http; internal/testutil, which only tests use. They are calls of libraries.
-- The statements inside goose and the files that it embeds are not modelled; Store.Model has the
-- tables that they leave.
pub mod Common
pub mod Store
pub mod Content
pub mod Scheduler
pub mod Httpapi
pub mod Config
pub mod System
pub mod Server
mod Tests
