-- ===== src/Queue/Topology.antt =====
-- `setup` and `retryQueueName`: the exchanges, queues and bindings that the program declares.
use Prim.Native.String.{◌++◌}
use pdf_generator.Prelude.{ℕ, String, true, false, List, [], ◌∷◌, Option, none, some}
use pdf_generator.Prelude.Int.{ℤ, pos}
use pdf_generator.Go.{Result, ok, err, Failure, wrap, show_int}
use pdf_generator.World.Amqp.{
  TableValue, text, int64, Declaration, exchange_declare, queue_declare, queue_bind,
}
use pdf_generator.World.{Outside, M, ◌>>=◌, pure, declare}
use pdf_generator.Queue.Connection.{RabbitMqConfig, RabbitMq}

unfoldable pub retry_queue_name : RabbitMqConfig → ℤ → String
unfolding show_int
retry_queue_name cfg level = cfg.job_queue ++ "_retry_" ++ show_int level

-- A declaration, and the rest of `setup` where it succeeds.
abbrev pub declared_or : String → Result String → M Failure → M Failure
declared_or before (err e) rest = pure (some (wrap before e))
declared_or before (ok _) rest = rest

abbrev pub declare_then : Outside → Option ℕ → Declaration → String → M Failure → M Failure
declare_then o ch d before rest = do result ← declare o ch d; declared_or before result rest

abbrev pub dead_letter_to : String → String → List (String × TableValue)
dead_letter_to exchange key =
    ("x-dead-letter-exchange", text exchange) ∷ ("x-dead-letter-routing-key", text key) ∷ []

abbrev pub retry_args : RabbitMqConfig → ℤ → List (String × TableValue)
retry_args cfg ttl =
    ("x-dead-letter-exchange", text cfg.job_exchange)
    ∷ ("x-dead-letter-routing-key", text cfg.job_queue)
    ∷ ("x-message-ttl", int64 ttl)
    ∷ []

-- The loop over `retryQueues`.
abbrev setup_retry_queues :
    Outside → Option ℕ → RabbitMqConfig → List (String × ℤ) → M Failure → M Failure
setup_retry_queues o ch cfg [] rest = rest
setup_retry_queues o ch cfg ((name, ttl) ∷ queues) rest =
    let others = setup_retry_queues o ch cfg queues rest in
    declare_then o ch (queue_declare name true false false (retry_args cfg ttl))
      ("declare retry queue " ++ name ++ ": ")
      (declare_then o ch (queue_bind name name cfg.job_exchange)
        ("bind retry queue " ++ name ++ ": ") others)

-- Name and time to live in milliseconds.
abbrev pub retry_queues : RabbitMqConfig → List (String × ℤ)
unfolding retry_queue_name
retry_queues cfg =
    (retry_queue_name cfg (pos 1), pos 1000)
    ∷ (retry_queue_name cfg (pos 2), pos 5000)
    ∷ (retry_queue_name cfg (pos 3), pos 10000)
    ∷ []

abbrev setup_main : Outside → Option ℕ → RabbitMqConfig → M Failure
setup_main o ch cfg =
    declare_then o ch
      (queue_declare cfg.job_queue true false false (dead_letter_to cfg.job_exchange cfg.job_dlq))
      "declare job queue: "
      (declare_then o ch (queue_bind cfg.job_queue cfg.job_queue cfg.job_exchange)
        "bind job queue: "
        (declare_then o ch (exchange_declare cfg.event_exchange "fanout") "declare event exchange: "
          (pure none)))

unfoldable pub setup : Outside → RabbitMq → M Failure
unfolding retry_queue_name
setup o r =
    let ch = r.ch in
    let cfg = r.cfg in
    declare_then o ch (exchange_declare cfg.job_exchange "direct") "declare job exchange: " (
      declare_then o ch (queue_declare cfg.job_dlq true false false []) "declare DLQ: " (
        declare_then o ch (queue_bind cfg.job_dlq cfg.job_dlq cfg.job_exchange) "bind DLQ: "
          (setup_retry_queues o ch cfg (retry_queues cfg) (setup_main o ch cfg))))
