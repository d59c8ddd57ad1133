-- ===== src/Command/Ready.antt =====
-- What has been done when the worker waits for a signal.
use pdf_generator.Prelude.{
  String, ◌≡◌, refl, sym, ap, subst, ◌∙◌, true, false, ◌∷◌, none, some, Option-cases, inl, inr,
}
use pdf_generator.Go.{Failure, Result, ok, err}
use pdf_generator.World.{Outside, Log, set_qos, consumed}
use pdf_generator.Pdf.Generate.{Generator}
use pdf_generator.Queue.Connection.{RabbitMq, RabbitMqConfig, connect}
use pdf_generator.Queue.Topology.{setup}
use pdf_generator.Queue.Plan.{plan, declare_all, accepted_all, is_nil, setup-plan}
use pdf_generator.Queue.Consume.{consume_jobs}
use pdf_generator.Queue.Reconnect.{made, set_up, connect_and_setup, new_rabbit_mq}
use pdf_generator.Queue.Recovery.{connect-keeps}
use pdf_generator.Worker.Pool.{Pool, start}
use pdf_generator.Config.Settings.{Config}
use pdf_generator.Config.Load.{load}
use pdf_generator.Command.Startup.{
  Platform, new_postgres_pool, Outcome, exited, running, worker_pool, workers_started,
  generator_ready, queue_connected, database_connected, config_loaded, worker_main,
}

-- The topology was declared from a log on, and every declaration accepted.
pub record IsDeclared (o : Outside) (cfg : RabbitMqConfig) (r : RabbitMq) (log : Log) : Type 0 where
  before : Log
  declared : log ≡ declare_all o r.ch (plan cfg) before
  accepted : accepted_all o r.ch (plan cfg) before ≡ true
  same_cfg : r.cfg ≡ cfg

set_up-IsDeclared :
    (o : Outside) (c : Failure × RabbitMq) (log : Log) (r : RabbitMq)
    → made (set_up o c log).0 ≡ ok r
    → IsDeclared o c.1.cfg r (set_up o c log).1
unfolding set_up
set_up-IsDeclared o (some e, r') log r h = cc
set_up-IsDeclared o (none, r') log r h = by_answer _ refl h
  where
    by_answer :
        (f : Failure)
        → (setup o r' log).0 ≡ f
        → made (f, r') ≡ ok r
        → IsDeclared o r'.cfg r (setup o r' log).1
    by_answer (some e) answer m = cc
    by_answer none answer m =
        let same : r' ≡ r = cc in
        rw (sym same) (record {
          before = log;
          declared = (setup-plan o r' log).0;
          accepted = sym (setup-plan o r' log).1 ∙ ap is_nil answer;
          same_cfg = refl;
        })

pub new_rabbit_mq-IsDeclared :
    (o : Outside) (cfg : RabbitMqConfig) (log : Log) (r : RabbitMq)
    → (new_rabbit_mq o cfg log).0 ≡ ok r
    → IsDeclared o cfg r (new_rabbit_mq o cfg log).1
unfolding new_rabbit_mq connect_and_setup
new_rabbit_mq-IsDeclared o cfg log r h =
    let r₀ : RabbitMq = record { conn = none; ch = none; cfg = cfg; closed = false } in
    rw (connect-keeps o r₀ log).0 at
      (set_up-IsDeclared o (connect o r₀ log).0 (connect o r₀ log).1 r h)

-- `ConsumeJobs` that succeeded.
start_jobs :
    (o : Outside) (p : Pool) (log : Log) (queue : String)
    → (start o p log).0 ≡ ok queue
    → (queue ≡ p.rmq.cfg.job_queue)
      × ((start o p log).1
          ≡ consumed p.rmq.ch p.rmq.cfg.job_queue false false none
            ∷ set_qos p.rmq.ch p.prefetch none
            ∷ log)
unfolding start consume_jobs
start_jobs o p log queue h = elim (Option-cases (o.qos log p.rmq.ch p.prefetch)) [
  | inr (e, refused) ↦ cc (rw refused at h)
  | inl limited ↦
      elim (Option-cases (
        o.consume (set_qos p.rmq.ch p.prefetch none ∷ log) p.rmq.ch p.rmq.cfg.job_queue false
          false)) [
            | inr (e, refused) ↦ cc (rw (limited, refused) at h)
            | inl started ↦ (sym (ok_inj (rw (limited, started) at h)), rw (limited, started) refl)
          ]
]
  where
    ok_inj : {x y : String} → ok x ≡ ok y → x ≡ y
    ok_inj e = cc

-- The state of a worker that waits for a signal.
pub record IsReady {F : Type 0} (o : Outside) (cfg : Config F) (pool : Pool) (queue : String)
    (log : Log) : Type 0 where
  declared : Log
  topology : IsDeclared o cfg.rabbit_mq pool.rmq declared
  jobs : queue ≡ cfg.rabbit_mq.job_queue
  consuming :
      log
      ≡ consumed pool.rmq.ch queue false false none
        ∷ set_qos pool.rmq.ch cfg.rabbit_mq.prefetch none
        ∷ declared
  retries : pool.max_retries ≡ cfg.worker.max_retries

module _ {F : Type 0} (o : Outside) where
  worker_pool-IsReady :
      (cfg : Config F) (rmq : RabbitMq) (g : Generator) (queue : String) (log : Log)
      → (start o (worker_pool o cfg rmq g) log).0 ≡ ok queue
      → IsDeclared o cfg.rabbit_mq rmq log
      → IsReady o cfg (worker_pool o cfg rmq g) queue (start o (worker_pool o cfg rmq g) log).1
  worker_pool-IsReady cfg rmq g queue log h d =
      let (jobs, whole) = start_jobs o (worker_pool o cfg rmq g) log queue h in
      record {
        declared = log;
        topology = d;
        jobs = jobs ∙ ap (λ c. c.job_queue) d.same_cfg;
        consuming =
            whole
            ∙ ap
                (λ q.
                  consumed rmq.ch q false false none
                  ∷ set_qos rmq.ch cfg.rabbit_mq.prefetch none
                  ∷ log)
                (sym jobs);
        retries = refl;
      }

  workers_started-IsReady :
      (cfg : Config F) (rmq : RabbitMq) (g : Generator) (pool : Pool) (queue : String) (log : Log)
      (r : Result String)
      → (start o (worker_pool o cfg rmq g) log).0 ≡ r
      → workers_started (worker_pool o cfg rmq g) r ≡ running pool queue
      → IsDeclared o cfg.rabbit_mq rmq log
      → IsReady o cfg pool queue (start o (worker_pool o cfg rmq g) log).1
  unfolding workers_started
  workers_started-IsReady cfg rmq g pool queue log (err e) answer h d = cc
  workers_started-IsReady cfg rmq g pool queue log (ok q) answer h d =
      let same_pool = ap pool_of h in
      let same_queue = ap queue_of h in
      subst (λ p. IsReady o cfg p queue (start o (worker_pool o cfg rmq g) log).1) same_pool
        (subst
          (λ x. IsReady o cfg (worker_pool o cfg rmq g) x (start o (worker_pool o cfg rmq g) log).1)
          same_queue (worker_pool-IsReady cfg rmq g q log answer d))
    where
      pool_of : Outcome → Pool
      pool_of (exited _) = pool
      pool_of (running p _) = p

      queue_of : Outcome → String
      queue_of (exited _) = queue
      queue_of (running _ x) = x

module _ {F : Type 0} (pl : Platform F) (o : Outside) (pool : Pool) (queue : String) where
  generator_ready-IsReady :
      (cfg : Config F) (rmq : RabbitMq) (g : Result Generator) (log : Log)
      → (generator_ready o cfg rmq g log).0 ≡ running pool queue
      → IsDeclared o cfg.rabbit_mq rmq log
      → IsReady o cfg pool queue (generator_ready o cfg rmq g log).1
  unfolding generator_ready
  generator_ready-IsReady cfg rmq (err e) log h d = cc
  generator_ready-IsReady cfg rmq (ok g) log h d =
      workers_started-IsReady o cfg rmq g pool queue log _ refl h d

  queue_connected-IsReady :
      (cfg : Config F) (r : Result RabbitMq) (log : Log)
      → (new_rabbit_mq o cfg.rabbit_mq log).0 ≡ r
      → (queue_connected pl o cfg r (new_rabbit_mq o cfg.rabbit_mq log).1).0 ≡ running pool queue
      → IsReady o cfg pool queue
          (queue_connected pl o cfg r (new_rabbit_mq o cfg.rabbit_mq log).1).1
  unfolding queue_connected
  queue_connected-IsReady cfg (err e) log answer h = cc
  queue_connected-IsReady cfg (ok rmq) log answer h =
      generator_ready-IsReady cfg rmq _ _ h
        (new_rabbit_mq-IsDeclared o cfg.rabbit_mq log rmq answer)

  database_connected-IsReady :
      (cfg : Config F) (f : Failure) (log : Log)
      → (database_connected pl o cfg f log).0 ≡ running pool queue
      → (f ≡ none) × IsReady o cfg pool queue (database_connected pl o cfg f log).1
  unfolding database_connected
  database_connected-IsReady cfg (some e) log h = cc
  database_connected-IsReady cfg none log h = (refl, queue_connected-IsReady cfg _ log refl h)

  config_loaded-IsReady :
      (r : Result (Config F)) (log : Log)
      → (config_loaded pl o r log).0 ≡ running pool queue
      → (cfg : Config F) × (r ≡ ok cfg)
        × (new_postgres_pool pl cfg.db ≡ none)
        × IsReady o cfg pool queue (config_loaded pl o r log).1
  unfolding config_loaded
  config_loaded-IsReady (err e) log h = cc
  config_loaded-IsReady (ok cfg) log h =
      let (pooled, ready) = database_connected-IsReady cfg _ log h in (cfg, refl, pooled, ready)

  -- Where the worker comes to wait for a signal, the configuration was loaded, the database answered, the
  -- broker accepted every declaration of the plan for this configuration, and after that, and only then,
  -- the pool began to consume the job queue, with the prefetch count and the number of retries of the
  -- configuration.
  pub worker_main-IsReady :
      (log : Log)
      → (worker_main pl o log).0 ≡ running pool queue
      → (cfg : Config F) × (load pl.floats pl.env ≡ ok cfg)
        × (new_postgres_pool pl cfg.db ≡ none)
        × IsReady o cfg pool queue (worker_main pl o log).1
  unfolding worker_main
  worker_main-IsReady log h = config_loaded-IsReady _ log h
