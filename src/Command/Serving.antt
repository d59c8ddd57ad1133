-- ===== src/Command/Serving.antt =====
-- What has been done when the API waits for a signal.
use pdf_generator.Prelude.{
  String, ◌≡◌, refl, ap, subst, ◌∙◌, true, false, [], ◌∷◌, none, some, Option-cases, inl, inr,
}
use pdf_generator.Go.{Failure, Result, ok, err, wrap, Result-cases}
use pdf_generator.World.{Outside, Log, declared, consumed}
use pdf_generator.World.Amqp.{queue_declare, queue_bind}
use pdf_generator.Queue.Connection.{RabbitMq}
use pdf_generator.Queue.Consume.{consume_events}
use pdf_generator.Queue.Reconnect.{new_rabbit_mq}
use pdf_generator.Sse.Listen.{start_broker}
use pdf_generator.Config.Settings.{DbConfig, Config, dsn}
use Prim.Native.String.{◌++◌}
use pdf_generator.Prelude.Int.{pos, pos_part}
use pdf_generator.Repository.Postgres.{new_job_repository}
use pdf_generator.Sse.Broker.{new_broker}
use pdf_generator.Middleware.RateLimit.{new_rate_limiter}
use pdf_generator.Config.Load.{load}
use pdf_generator.Command.Startup.{Platform, new_postgres_pool}
use pdf_generator.Command.Ready.{IsDeclared, new_rabbit_mq-IsDeclared}
use pdf_generator.Command.Api.{
  Server, new_server, ApiOutcome, exited, serving, broker_started, api_queue_connected,
  api_database_connected, api_config_loaded, api_main,
}

-- An own queue was declared, bound to the exchange of events and consumed, after `before`.
pub record IsSubscribed (r : RabbitMq) (queue : String) (before log : Log) : Type 0 where
  bound : String
  whole :
      log
      ≡ consumed r.ch queue true true none
        ∷ declared r.ch (queue_bind queue "" r.cfg.event_exchange) (ok bound)
        ∷ declared r.ch (queue_declare "" false true true []) (ok queue)
        ∷ before

start_broker-IsSubscribed :
    (o : Outside) (r : RabbitMq) (log : Log) (queue : String)
    → (start_broker o r log).0 ≡ ok queue
    → IsSubscribed r queue log (start_broker o r log).1
unfolding start_broker consume_events
start_broker-IsSubscribed o r log queue h =
    elim (Result-cases (o.declare log r.ch (queue_declare "" false true true []))) [
      | inr (e, refused) ↦ cc (rw refused at h)
      | inl (name, named) ↦
          elim (Result-cases (
            o.declare (declared r.ch (queue_declare "" false true true []) (ok name) ∷ log) r.ch
              (queue_bind name "" r.cfg.event_exchange))) [
                | inr (e, refused) ↦ cc (rw (named, refused) at h)
                | inl (answer, bound) ↦
                    elim (Option-cases (
                      o.consume
                        (declared r.ch (queue_bind name "" r.cfg.event_exchange) (ok answer)
                          ∷ declared r.ch (queue_declare "" false true true []) (ok name)
                          ∷ log)
                        r.ch name true true)) [
                          | inr (e, refused) ↦ cc (rw (named, bound, refused) at h)
                          | inl started ↦
                              let same : name ≡ queue = ok_inj (rw (named, bound, started) at h) in
                              record {
                                bound = answer;
                                whole = rw (← same) (rw (named, bound, started) refl);
                              }
                        ]
              ]
    ]
  where
    ok_inj : {x y : String} → ok x ≡ ok y → x ≡ y
    ok_inj e = cc

-- A database that was opened with the text and the settings of the configuration, and has answered.
pub record IsAnswering {F : Type 0} (pl : Platform F) (db : DbConfig) : Type 0 where
  pub parsed : pl.parse_config (dsn db) ≡ none
  pub opened : pl.new_with_config db ≡ none
  pub pinged : pl.ping db ≡ none

ping_answered :
    (f : Failure)
    → (elim f as (λ _. Failure) [
      | none ↦ none
      | some e ↦ some (wrap "failed to ping database: " e)
    ])
      ≡ none
    → f ≡ none
ping_answered none h = refl
ping_answered (some e) h = cc

new_postgres_pool-IsAnswering :
    {F : Type 0} (pl : Platform F) (db : DbConfig)
    → new_postgres_pool pl db ≡ none
    → IsAnswering pl db
unfolding new_postgres_pool
new_postgres_pool-IsAnswering pl db h = elim (Option-cases (pl.parse_config (dsn db))) [
  | inr (e, refused) ↦ cc (rw refused at h)
  | inl parsed ↦ elim (Option-cases (pl.new_with_config db)) [
    | inr (e, refused) ↦ cc (rw (parsed, refused) at h)
    | inl opened ↦ record {
      parsed = parsed;
      opened = opened;
      pinged = ping_answered (pl.ping db) (rw (parsed, opened) at h);
    }
  ]
]

-- A server with the settings of the configuration, whose users are none and whose limiters are none.
pub record IsServerOf {F : Type 0} (o : Outside) (cfg : Config F) (server : Server F) : Type 0 where
  pub addr : server.addr ≡ cfg.server.host ++ ":" ++ cfg.server.port
  pub read_timeout : server.read_timeout ≡ cfg.server.read_timeout
  pub write_timeout : server.write_timeout ≡ cfg.server.write_timeout
  pub idle_timeout : server.idle_timeout ≡ cfg.server.idle_timeout
  pub repo : server.svc.repo ≡ new_job_repository o
  pub max_retries : server.svc.max_retries ≡ cfg.worker.max_retries
  pub jwt : server.jwt ≡ cfg.jwt
  pub rate : server.rate ≡ cfg.rate
  pub max_connections : server.broker.max_connections ≡ cfg.sse.max_connections
  pub client_buffer : server.broker.client_buffer ≡ pos_part cfg.sse.client_buffer
  pub no_streams :
      (server.broker.active ≡ pos 0) × ((user_id : String) → server.broker.clients user_id ≡ none)
  pub no_limiters : (key : String) → server.limiter.visitors key ≡ none

new_server-IsServerOf :
    {F : Type 0} (o : Outside) (cfg : Config F) (rmq : RabbitMq)
    → IsServerOf o cfg (new_server o cfg rmq)
unfolding new_broker new_rate_limiter
new_server-IsServerOf o cfg rmq = record {
  addr = refl;
  read_timeout = refl;
  write_timeout = refl;
  idle_timeout = refl;
  repo = refl;
  max_retries = refl;
  jwt = refl;
  rate = refl;
  max_connections = refl;
  client_buffer = refl;
  no_streams = (refl, λ user_id. refl);
  no_limiters = λ key. refl;
}

-- The state of an API that waits for a signal.
pub record IsServing {F : Type 0} (o : Outside) (cfg : Config F) (server : Server F)
    (queue : String) (log : Log) : Type 0 where
  before : Log
  topology : IsDeclared o cfg.rabbit_mq server.svc.rmq before
  subscribed : IsSubscribed server.svc.rmq queue before log
  made : IsServerOf o cfg server

module _ {F : Type 0} (o : Outside) (cfg : Config F) (server : Server F) (queue : String) where
  broker_started-IsServing :
      (rmq : RabbitMq) (log : Log) (r : Result String)
      → (start_broker o rmq log).0 ≡ r
      → broker_started (new_server o cfg rmq) r ≡ serving server queue
      → IsDeclared o cfg.rabbit_mq rmq log
      → IsServing o cfg server queue (start_broker o rmq log).1
  unfolding broker_started
  broker_started-IsServing rmq log (err e) answer h d = cc
  broker_started-IsServing rmq log (ok name) answer h d =
      let same_server : new_server o cfg rmq ≡ server = ap server_of h in
      let same_queue : name ≡ queue = ap queue_of h in
      let built : IsServing o cfg (new_server o cfg rmq) queue (start_broker o rmq log).1 = record {
        before = log;
        topology = d;
        subscribed = start_broker-IsSubscribed o rmq log queue (answer ∙ ap ok same_queue);
        made = new_server-IsServerOf o cfg rmq;
      } in
      subst (λ x. IsServing o cfg x queue (start_broker o rmq log).1) same_server built
    where
      server_of : ApiOutcome F → Server F
      server_of (exited _) = server
      server_of (serving x _) = x

      queue_of : ApiOutcome F → String
      queue_of (exited _) = queue
      queue_of (serving _ x) = x

  api_queue_connected-IsServing :
      (r : Result RabbitMq) (log : Log)
      → (new_rabbit_mq o cfg.rabbit_mq log).0 ≡ r
      → (api_queue_connected o cfg r (new_rabbit_mq o cfg.rabbit_mq log).1).0 ≡ serving server queue
      → IsServing o cfg server queue
          (api_queue_connected o cfg r (new_rabbit_mq o cfg.rabbit_mq log).1).1
  unfolding api_queue_connected
  api_queue_connected-IsServing (err e) log answer h = cc
  api_queue_connected-IsServing (ok rmq) log answer h =
      broker_started-IsServing rmq _ _ refl h
        (new_rabbit_mq-IsDeclared o cfg.rabbit_mq log rmq answer)

  api_database_connected-IsServing :
      (f : Failure) (log : Log)
      → (api_database_connected o cfg f log).0 ≡ serving server queue
      → (f ≡ none) × IsServing o cfg server queue (api_database_connected o cfg f log).1
  unfolding api_database_connected
  api_database_connected-IsServing (some e) log h = cc
  api_database_connected-IsServing none log h = (refl, api_queue_connected-IsServing _ log refl h)

module _ {F : Type 0} (pl : Platform F) (o : Outside) (server : Server F) (queue : String) where
  api_config_loaded-IsServing :
      (r : Result (Config F)) (log : Log)
      → (api_config_loaded pl o r log).0 ≡ serving server queue
      → (cfg : Config F) × (r ≡ ok cfg)
        × IsAnswering pl cfg.db
        × IsServing o cfg server queue (api_config_loaded pl o r log).1
  unfolding api_config_loaded
  api_config_loaded-IsServing (err e) log h = cc
  api_config_loaded-IsServing (ok cfg) log h =
      let (pooled, ready) = api_database_connected-IsServing o cfg server queue _ log h in
      (cfg, refl, new_postgres_pool-IsAnswering pl cfg.db pooled, ready)

  -- Where the API comes to wait for a signal, the configuration was loaded, the text of the connection
  -- was parsed, the pool opened and the ping answered, the message broker accepted every declaration of
  -- the plan for this configuration, and after that an own queue was declared, bound to the exchange of
  -- events and consumed. Address, time limits, retries, secrets, rates, and the bounds of the streams
  -- are those of the configuration, the jobs go to that connection and to PostgreSQL, and there are no
  -- streams and no limiters yet.
  pub api_main-IsServing :
      (log : Log)
      → (api_main pl o log).0 ≡ serving server queue
      → (cfg : Config F) × (load pl.floats pl.env ≡ ok cfg)
        × IsAnswering pl cfg.db
        × IsServing o cfg server queue (api_main pl o log).1
  unfolding api_main
  api_main-IsServing log h = api_config_loaded-IsServing _ log h
