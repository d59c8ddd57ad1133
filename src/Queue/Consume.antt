-- ===== src/Queue/Consume.antt =====
-- `ConsumeJobs` and `ConsumeEvents`. A success stands for the channel of deliveries; its result is the
-- name of the queue that is consumed.
use pdf_generator.Prelude.{String, true, false, [], none, some}
use pdf_generator.Prelude.Int.{ℤ}
use pdf_generator.Go.{Result, ok, err, wrap}
use pdf_generator.World.Amqp.{queue_declare, queue_bind}
use pdf_generator.World.{Outside, M, ◌>>=◌, pure, declare, qos, consume}
use pdf_generator.Queue.Connection.{RabbitMq}

unfoldable pub consume_jobs : Outside → RabbitMq → ℤ → M (Result String)
consume_jobs o r prefetch = do
  limited ← qos o r.ch prefetch
  elim limited [
    | some e ↦ pure (err (wrap "set QoS: " e))
    | none ↦ do
      started ← consume o r.ch r.cfg.job_queue false false
      elim started [
        | some e ↦ pure (err (wrap "consume jobs: " e))
        | none ↦ pure (ok r.cfg.job_queue)
      ]
  ]

unfoldable pub consume_events : Outside → RabbitMq → M (Result String)
consume_events o r = do
  q ← declare o r.ch (queue_declare "" false true true [])
  elim q [
    | err e ↦ pure (err (wrap "declare event queue: " e))
    | ok name ↦ do
      bound ← declare o r.ch (queue_bind name "" r.cfg.event_exchange)
      elim bound [
        | err e ↦ pure (err (wrap "bind event queue: " e))
        | ok _ ↦ do
          started ← consume o r.ch name true true
          elim started [ some e ↦ pure (err (wrap "consume events: " e)) | none ↦ pure (ok name) ]
      ]
  ]
