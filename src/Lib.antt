-- ===== src/Lib.antt =====
-- The core service of id-core, an OpenID Connect provider in Go (core/): its configuration, its
-- logger with redaction, its coded errors, its signing key, its routes with the middleware around
-- every handler, its start, and the command that makes keys for development.
--
-- A request passes RequestID, AccessLog and Recover, in this order, before the routes
-- (core/internal/server/server.go). RequestID chooses an id and puts it into the context and the
-- response; AccessLog writes one line when the handler is done; Recover turns a panic into a coded
-- error. All three log through core/internal/logger, which takes the ids from the context and hides
-- secrets. The command core (core/cmd/core/main.go) reads the settings with Load, opens the pool of the
-- database, asks the gate of the migrations, initialises the key store, builds the server and listens;
-- the key store's public key is what /jwks announces. The command devkeygen writes a key file that the
-- key store can read.
--
-- Prelude: results of calls, Boolean tests and lists over the native numbers.
-- Go: the parts of Go's standard library that the code calls: byte strings, UTF-8, strconv, strings,
-- encoding/json, context, and net/http's ResponseWriter of one request. They follow the documented
-- behaviour of the packages.
-- Logger (core/internal/logger): Context is context.go, Output is logger.go and format.go, Redact is
-- redact.go, Fallback is fallback.go. A log is the list of the records that reached the handler, but in
-- Logger/Lines, where a logger writes through the FallbackWriter.
-- Http: http.ResponseWriter as a record of operations over a state W, http.Handler as a function over
-- every such writer, and Program, the handlers as trees of calls, over which the proofs go by
-- induction. A panic is a result, so the deferred functions run on it.
-- Apperror (core/internal/apperror): CodedError and the reply, with details that are trees; a Go map is
-- the list of its entries. Apperror/Store has the details in memory: maps and slices at addresses of a
-- store, which two values may share, and cloneDetails as allocations and writes. `range` goes through
-- the entries of a map in the order of their list.
-- Middleware (core/internal/middleware): RequestId is request_id.go, AccessLog, Query and Recorder are
-- access_log.go, Recover is recover.go. Chain is the order of the middleware in server.go.
-- Config (core/internal/config/config.go): the settings, and in Load one function for each reader.
-- Keystore (core/internal/keystore/keystore.go): the key set, over a library Crypto.
-- Oidc (core/internal/oidc): Discovery is discovery/, Jwks is jwks/, NotImpl is notimpl/handler.go.
-- Health (core/internal/health): the handlers, as programs.
-- Server (core/internal/server/server.go): New, the routes and the handler of the whole server. Paths
-- reads the path of a URL off its text, for the announced endpoints.
-- DbMigrate (core/internal/dbmigrate/migrate.go): the runs of the migrations and the start gate.
-- Db (core/internal/db): Dsn is dsn.go, Open is db.go.
-- Core (core/cmd/core/main.go): bootstrap and run. Each step of run is a function of what the call
-- before it gave (after_open, after_gate and so on); Phases is the abstract machine of the start, whose
-- phases have the world that the calls of the libraries leave.
-- DevKeyGen (core/cmd/devkeygen/main.go): the flags, the checks and the writing of the files.
-- DbTest (core/internal/testutil/dbtest/helper.go): the pool and the transaction of an integration test,
-- with the part of testing.T that they use.
-- Tests: runs on concrete inputs, with small libraries.
--
-- Each name is the Go name in snake case (redactQueryString is redact_query_string). Errors are
-- values. Integers are natural numbers with their bounds written out: ports, cache times, the int32 of
-- the pool, the int64 counters as bit patterns modulo 2^64. Two functions run on fuel: the decimal
-- digits in Go/Strconv take as many steps as the number is large plus one, and a number has no more
-- digits than that; clone_value in Apperror/Store takes any number of steps, of which as many as the
-- tree in memory has values are enough, and gives the error `endless` when they run out.
--
-- Parameters: the lower case of runes beyond ASCII (unicode_lower), url.Parse, URL.JoinPath and
-- time.ParseDuration (the record Library in Config), the result of uuid.NewV7, the clock, the host
-- name, the text of debug.Stack, the two writers of the fallback, base64, the result of the database
-- ping, the migration library (the record Migrator), pgxpool (Pgx), jwx (Jwx), crypto, encoding/pem
-- and os.ReadFile (Crypto, and KeyWriter for the writing side), the files of devkeygen (Os),
-- ListenAndServe and the texts of the errors that run logs (Machine), log/slog (Slog), and pgx in the
-- tests (Driver). Records of laws state what is supposed of them: CountsPools, KeepsPools and
-- CountsOpen of the open pools and transactions, CountsMigrators and KeepsSchema of the migration
-- library, IsWriter of io.Writer, KeepsOrder of a jwk.Set, HasContent of files, Decodes of what is
-- encoded.
--
-- Not modelled: panics of the Error method of a panic value, goroutines (but for the requests that
-- share the counter of the substitute ids, in Middleware/RequestId/Schedules), the redirect of
-- http.ServeMux to the canonical form of a path, and the tests.
pub mod Prelude
pub mod Go
pub mod Logger
pub mod Http
pub mod Apperror
pub mod Middleware
pub mod Config
pub mod Keystore
pub mod Oidc
pub mod Health
pub mod Server
pub mod DbMigrate
pub mod Db
pub mod Core
pub mod DevKeyGen
pub mod DbTest
pub mod Tests
