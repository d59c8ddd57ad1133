-- ===== src/Queue/Publish.antt =====
-- `PublishJob`, `PublishToRetry`, `PublishEvent`, `PublishToDLQ` and `QueueSize`. The five second
-- time limit shows as an error of the library's call.
use Prim.Native.String.{◌++◌}
use pdf_generator.Prelude.{String, ◌||◌, some, if◌then◌else◌}
use pdf_generator.Prelude.Int.{ℤ, pos, ltb_ℤ}
use pdf_generator.Go.{Result, ok, err, Failure, other, wrap, show_int}
use pdf_generator.Domain.{Bytes}
use pdf_generator.World.{Outside, M, ◌>>=◌, pure, clock, publish_with_context, queue_inspect}
use pdf_generator.Queue.Connection.{RabbitMq}
use pdf_generator.Queue.Topology.{retry_queue_name}

abbrev pub send : Outside → RabbitMq → String → String → Bytes → M Failure
send o r exchange key body = do
  now ← clock o
  publish_with_context o
      (record { channel = r.ch; exchange = exchange; key = key; body = body; timestamp = now })

unfoldable pub publish_job : Outside → RabbitMq → Bytes → M Failure
publish_job o r body = send o r r.cfg.job_exchange r.cfg.job_queue body

unfoldable pub publish_to_retry : Outside → RabbitMq → ℤ → Bytes → M Failure
publish_to_retry o r level body =
    if ltb_ℤ level (pos 1) || ltb_ℤ (pos 3) level
    then pure (some (other ("invalid retry level: " ++ show_int level)))
    else send o r r.cfg.job_exchange (retry_queue_name r.cfg level) body

unfoldable pub publish_event : Outside → RabbitMq → Bytes → M Failure
publish_event o r body = send o r r.cfg.event_exchange "" body

unfoldable pub publish_to_dlq : Outside → RabbitMq → Bytes → M Failure
publish_to_dlq o r body = send o r r.cfg.job_exchange r.cfg.job_dlq body

abbrev inspected_size : Result ℤ → Result ℤ
inspected_size (ok messages) = ok messages
inspected_size (err e) = err (wrap "inspect queue: " e)

unfoldable pub queue_size : Outside → RabbitMq → M (Result ℤ)
queue_size o r = do result ← queue_inspect o r.ch r.cfg.job_queue; pure (inspected_size result)
