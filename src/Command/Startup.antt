-- ===== src/Command/Startup.antt =====
-- cmd/worker/main.go up to the wait for a signal, with internal/pkg/db/postgres.go and `NewGenerator`.
-- `os.Exit(1)` ends the process, and no deferred call runs then.
use pdf_generator.Prelude.{ℕ, String, none, some}
use pdf_generator.Go.{Failure, Result, ok, err, wrap}
use pdf_generator.World.{Outside, M, ◌>>=◌, pure}
use pdf_generator.Repository.Postgres.{new_job_repository}
use pdf_generator.Pdf.Generate.{Generator}
use pdf_generator.Queue.Connection.{RabbitMq}
use pdf_generator.Queue.Reconnect.{new_rabbit_mq}
use pdf_generator.Worker.Processor.{new_pdf_processor}
use pdf_generator.Worker.Pool.{Pool, new_pool, start}
use pdf_generator.Config.Settings.{DbConfig, Config, dsn}
use pdf_generator.Config.Load.{Environment, FloatLibrary, load}

-- The environment of the process, and the answers of pgxpool and of the file system: `ParseConfig`,
-- `NewWithConfig`, `Ping` and `MkdirAll`.
pub record Platform (F : Type 0) : Type 0 where
  pub env : Environment
  pub floats : FloatLibrary F
  pub parse_config : String → Failure
  pub new_with_config : DbConfig → Failure
  pub ping : DbConfig → Failure
  pub make_dirs : String → Failure

-- `NewPostgresPool` after `ParseConfig`, and after `NewWithConfig`; none is a pool that answers.
abbrev pool_opened : {F : Type 0} → Platform F → DbConfig → Failure → Failure
pool_opened pl cfg (some e) = some (wrap "failed to create database pool: " e)
pool_opened pl cfg none = elim (pl.ping cfg) [
  | none ↦ none
  | some e ↦ some (wrap "failed to ping database: " e)
]

abbrev config_parsed : {F : Type 0} → Platform F → DbConfig → Failure → Failure
config_parsed pl cfg (some e) = some (wrap "failed to parse database config: " e)
config_parsed pl cfg none = pool_opened pl cfg (pl.new_with_config cfg)

unfoldable pub new_postgres_pool : {F : Type 0} → Platform F → DbConfig → Failure
unfolding dsn
new_postgres_pool pl cfg = config_parsed pl cfg (pl.parse_config (dsn cfg))

abbrev generator_made : String → Failure → Result Generator
generator_made output_dir (some e) = err (wrap "create output dir: " e)
generator_made output_dir none = ok (record { output_dir = output_dir })

unfoldable pub new_generator : {F : Type 0} → Platform F → String → Result Generator
new_generator pl output_dir = generator_made output_dir (pl.make_dirs output_dir)

-- How far `main` comes: the exit with a code, or the wait for a signal, with the pool at work on the
-- deliveries of a queue.
pub data Outcome : Type 0 where
  exited : ℕ → Outcome
  running : Pool → String → Outcome

abbrev pub worker_pool : {F : Type 0} → Outside → Config F → RabbitMq → Generator → Pool
worker_pool o cfg rmq generator =
    let repo = new_job_repository o in
    new_pool rmq (new_pdf_processor repo rmq generator) repo cfg.worker.concurrency
      cfg.rabbit_mq.prefetch cfg.worker.max_retries

-- `main` after `workerPool.Start`, `NewGenerator`, `NewRabbitMQ`, `NewPostgresPool` and `Load`.
unfoldable pub workers_started : Pool → Result String → Outcome
workers_started pool (err e) = exited 1
workers_started pool (ok deliveries) = running pool deliveries

unfoldable pub generator_ready :
    {F : Type 0} → Outside → Config F → RabbitMq → Result Generator → M Outcome
generator_ready o cfg rmq (err e) = pure (exited 1)
generator_ready o cfg rmq (ok generator) = do
  started ← start o (worker_pool o cfg rmq generator)
  pure (workers_started (worker_pool o cfg rmq generator) started)

unfoldable pub queue_connected :
    {F : Type 0} → Platform F → Outside → Config F → Result RabbitMq → M Outcome
queue_connected pl o cfg (err e) = pure (exited 1)
queue_connected pl o cfg (ok rmq) = generator_ready o cfg rmq (new_generator pl cfg.pdf.output_dir)

unfoldable pub database_connected :
    {F : Type 0} → Platform F → Outside → Config F → Failure → M Outcome
database_connected pl o cfg (some e) = pure (exited 1)
database_connected pl o cfg none = do
  connected ← new_rabbit_mq o cfg.rabbit_mq
  queue_connected pl o cfg connected

unfoldable pub config_loaded : {F : Type 0} → Platform F → Outside → Result (Config F) → M Outcome
config_loaded pl o (err e) = pure (exited 1)
config_loaded pl o (ok cfg) = database_connected pl o cfg (new_postgres_pool pl cfg.db)

unfoldable pub worker_main : {F : Type 0} → Platform F → Outside → M Outcome
worker_main pl o = config_loaded pl o (load pl.floats pl.env)
