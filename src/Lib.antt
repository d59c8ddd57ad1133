-- ===== src/Lib.antt =====
-- A model of pdf_generator, a service that takes requests for PDF documents over HTTP, queues them in
-- RabbitMQ, lets a pool of workers render them, and reports their progress over server-sent events.
--
-- How the parts interact. `CreateJob` validates a request, stores a row with the status pending and
-- publishes a message to the job queue. A worker takes the delivery, marks the row as processing,
-- renders the PDF and marks the row as completed or failed, and publishes an event at each change. A
-- failed message goes to one of three delay queues, whose dead letters return to the job queue, or,
-- when the retries are used up, to the dead letter queue. The broker of server-sent events hands each
-- event to the connected clients of its user.
--
-- Files and what they model:
--   Go         error chains and `(value, error)` results; the sentinels of internal/domain/errors.go;
--              what is used of strings, strconv and fmt
--   Domain     internal/domain/job.go and errors.go: the types that the parts exchange
--   World      the calls to PostgreSQL, RabbitMQ, the file system and the clock. `Outside` is a
--              parameter of every operation: a record of functions that answer each call from the log
--              of all earlier calls, so nothing is assumed of them. An operation is a state monad
--              over the log, newest call first, written as do blocks. Counting and Extends have the
--              rules for what an operation adds to the log.
--   Repository internal/repository/interfaces.go as a record of operations, and Postgres, which is
--              internal/repository/postgres/job_repository.go
--   Queue      internal/pkg/queue/rabbitMq.go: Connection (connect, Close), Topology (setup), Publish,
--              Consume, Reconnect (NewRabbitMQ, handleReconnect, nextBackoff) and Link, which is
--              reconnectLoop beside Close as a step relation; Plan and Routes are an independent
--              description of the topology, Recovery, Backoff and Closing are about the loops
--   Pdf        internal/pkg/pdf/generator.go: Render (the templates as lists of drawing calls) and
--              Generate; Rows and Output are about them
--   Worker     internal/worker: Processor (pdf_processor.go) and Pool (worker.go), and System, which is
--              Start, the goroutines and Stop beside main as a step relation; Completion is about
--              Process, Settlement, Publications, Retries, Moves and Fate about what becomes of a
--              delivery, and Crew, Tags, Shutdown, Progress and Draining about the goroutines
--   Service    internal/validator/validator.go (Validator) and internal/service/pdf_service.go
--              (PdfService); Creation and Access are about it
--   Sse        internal/SSE/broker.go: Broker has the operations, cut where another goroutine can come
--              between, System their interleavings as a step relation, and Listen the loop over
--              the events of the exchange; Invariant, Safety, Limit, Progress, Unique, History,
--              Ordered and InOrder are about the interleavings, Delivery and Order about a
--              broadcast, and Announced about the way of an event from the worker to a stream
--   Token      internal/pkg/jwt/jwt.go: Manager over golang-jwt, whose functions are a parameter with
--              their documented behaviour as hypotheses; Validity is about issued pairs
--   Handler    internal/handler: Response (handleError), Pdf (pdf_handler.go) and Auth
--              (auth_handler.go) as functions of what is read from a request; Status is about the
--              codes, and Session about tokens
--   Middleware internal/middleware/rate_limit.go: RateLimit, and Visitors, the overlapping calls of
--              getLimiter as a step relation
--   Http       internal/router/router.go and what it is made of. Context has what the program uses of
--              gin, Chain the middleware of every request (request_id.go, cors.go,
--              logger_miidleware.go, recovery_middleware.go), Guards auth_middleware.go and the
--              handler of rate_limit.go, Stream internal/handler/sse_handler.go, and Routes the
--              routes with their handlers. Passage, Lines, RequestLog, Access, Refusal, Ownership,
--              Pages, Login, Undisturbed and Streaming are about them
--   Config     internal/config/config.go: Settings (the structs, DSN) and Load; Reading is about them
--   Command    cmd/worker/main.go: Startup, with internal/pkg/db/postgres.go and NewGenerator;
--              cmd/api/main.go: Api up to the wait for a signal, and Closing, its end beside the
--              requests and the reconnection as a step relation; Ready, Serving and Idle are about them
--   Database   migrations/000001_create_jobs_table.up.sql: Table has the rows and what each statement
--              does to them, Acts which acts the parts add to the log, Shape, History and Evolution the
--              rows after any calls, Oracle a database that no one else writes to, and Creation,
--              Lifecycle and Failure what is seen of a job; Success is Process in a world that works,
--              and Journey a request in it, from CreateJob to the document
--   Examples   concrete inputs at which the theorems are applied
--
-- A Go function with error branches is cut after each call that can fail: the rest is a function of
-- the call's answer (`process`, `process_started`, `report_generated`, `report_completed` together are
-- `Process`). An `int` is an integer whose additions wrap at 64 bits; times and durations are
-- nanoseconds; a panic is `none`.
--
-- Bounds and fuel. Only `handle_reconnect` runs on fuel, one unit for each attempt: the source's loop
-- has no bound, and it ends with the first attempt that succeeds; `none` is that the fuel ran out. A
-- worker, and the listener of the broker, run over the list of what they would receive, and end at the
-- first end.
--
-- Goroutines are step relations, one for each group that shares a state. A step of Worker.System handles a
-- whole message; since an outside may answer anything, this loses only the order in which the calls
-- for different messages stand in the log.
--
-- A middleware is a function of the handlers behind it, which stand for `c.Next()`; a handler takes the
-- context and the state that requests share, and says whether it ended with a panic.
--
-- Not modelled: what is logged, but for the line of each request; contexts, whose end shows as an error
-- of a call; net/http, of which Command.Closing says what is used; gin's choice of a route, gofpdf,
-- pgx, amqp091, the validator and encoding/json, which are answers of the outside; ParseFloat and
-- ParseDuration, which compute with floating-point numbers; the token buckets of
-- golang.org/x/time/rate, which are a parameter; what PostgreSQL makes of a payload in a JSONB column and
-- of the fractions of a second, and what encoding/json makes of the blanks in a payload.
pub mod Prelude
pub mod Go
pub mod Domain
pub mod World
pub mod Repository
pub mod Queue
pub mod Pdf
pub mod Worker
pub mod Service
pub mod Sse
pub mod Token
pub mod Handler
pub mod Middleware
pub mod Config
pub mod Command
pub mod Http
pub mod Database
pub mod Examples
