-- ===== src/Command/Api.antt =====
-- cmd/api/main.go up to the wait for a signal, with the constructors that it calls. The handlers of
-- `NewHandlers` and `Setup` hold no state but what `Server` has. `ListenAndServe` is that of net/http.
use Prim.Native.String.{◌++◌}
use pdf_generator.Prelude.{ℕ, String, none, some}
use pdf_generator.Prelude.Int.{ℤ, pos_part}
use pdf_generator.Go.{Failure, Result, ok, err}
use pdf_generator.World.{Outside, M, ◌>>=◌, pure}
use pdf_generator.Repository.Postgres.{new_job_repository}
use pdf_generator.Queue.Connection.{RabbitMq}
use pdf_generator.Queue.Reconnect.{new_rabbit_mq}
use pdf_generator.Service.PdfService.{PdfService}
use pdf_generator.Sse.Broker.{Broker, new_broker}
use pdf_generator.Sse.Listen.{start_broker}
use pdf_generator.Middleware.RateLimit.{RateLimiter, new_rate_limiter}
use pdf_generator.Config.Settings.{Config, JwtSection, RateConfig}
use pdf_generator.Config.Load.{load}
use pdf_generator.Command.Startup.{Platform, new_postgres_pool}

-- The `http.Server` with what its handlers share. `rate` are the limits of the limiter.
pub record Server (F : Type 0) : Type 0 where
  pub addr : String
  pub read_timeout : ℤ
  pub write_timeout : ℤ
  pub idle_timeout : ℤ
  pub svc : PdfService
  pub jwt : JwtSection
  pub broker : Broker
  pub limiter : RateLimiter
  pub rate : RateConfig F

-- From `postgres.NewJobRepository` to `http.Server`, but for `broker.Start`.
abbrev pub new_server : {F : Type 0} → Outside → Config F → RabbitMq → Server F
new_server o cfg rmq = record {
  addr = cfg.server.host ++ (":" ++ cfg.server.port);
  read_timeout = cfg.server.read_timeout;
  write_timeout = cfg.server.write_timeout;
  idle_timeout = cfg.server.idle_timeout;
  svc = record { repo = new_job_repository o; rmq = rmq; max_retries = cfg.worker.max_retries };
  jwt = cfg.jwt;
  broker = new_broker cfg.sse.max_connections (pos_part cfg.sse.client_buffer);
  limiter = new_rate_limiter;
  rate = cfg.rate;
}

-- How far `main` comes: the exit with a code, or the wait for a signal, with a server and the queue
-- of its events.
pub data ApiOutcome (F : Type 0) : Type 0 where
  exited : ℕ → ApiOutcome F
  serving : Server F → String → ApiOutcome F

-- `main` after `broker.Start`, `NewRabbitMQ`, `NewPostgresPool` and `Load`.
unfoldable pub broker_started : {F : Type 0} → Server F → Result String → ApiOutcome F
broker_started server (err e) = exited 1
broker_started server (ok events) = serving server events

unfoldable pub api_queue_connected :
    {F : Type 0} → Outside → Config F → Result RabbitMq → M (ApiOutcome F)
api_queue_connected o cfg (err e) = pure (exited 1)
api_queue_connected o cfg (ok rmq) = do
  started ← start_broker o rmq
  pure (broker_started (new_server o cfg rmq) started)

unfoldable pub api_database_connected :
    {F : Type 0} → Outside → Config F → Failure → M (ApiOutcome F)
api_database_connected o cfg (some e) = pure (exited 1)
api_database_connected o cfg none = do
  connected ← new_rabbit_mq o cfg.rabbit_mq
  api_queue_connected o cfg connected

unfoldable pub api_config_loaded :
    {F : Type 0} → Platform F → Outside → Result (Config F) → M (ApiOutcome F)
api_config_loaded pl o (err e) = pure (exited 1)
api_config_loaded pl o (ok cfg) = api_database_connected o cfg (new_postgres_pool pl cfg.db)

unfoldable pub api_main : {F : Type 0} → Platform F → Outside → M (ApiOutcome F)
api_main pl o = api_config_loaded pl o (load pl.floats pl.env)
