-- ===== src/Worker/Pool.antt =====
-- internal/worker/worker.go. A delivery is its tag and its body; logging is left out.
use Prim.Native.String.{◌++◌}
use pdf_generator.Prelude.{ℕ, String, false, List, [], ◌∷◌, none, some, if◌then◌else◌}
use pdf_generator.Prelude.Int.{ℤ, pos, leb_ℤ, int_add}
use pdf_generator.Go.{GoError, Result, ok, err, Failure, error_text}
use pdf_generator.Domain.{failed, Bytes, JobMessage}
use pdf_generator.World.{Outside, M, ◌>>=◌, ◌>>◌, pure, ack, nack}
use pdf_generator.Repository.{JobRepository}
use pdf_generator.Queue.Connection.{RabbitMq}
use pdf_generator.Queue.Publish.{publish_to_retry, publish_to_dlq}
use pdf_generator.Queue.Consume.{consume_jobs}
use pdf_generator.Worker.Processor.{PdfProcessor, process, parse_message}

pub record Pool : Type 0 where
  pub rmq : RabbitMq
  pub processor : PdfProcessor
  pub repo : JobRepository
  pub concurrency : ℤ
  pub prefetch : ℤ
  pub max_retries : ℤ

abbrev pub new_pool : RabbitMq → PdfProcessor → JobRepository → ℤ → ℤ → ℤ → Pool
new_pool rmq processor repo concurrency prefetch max_retries = record {
  rmq = rmq;
  processor = processor;
  repo = repo;
  concurrency = concurrency;
  prefetch = prefetch;
  max_retries = max_retries;
}

pub record Delivery : Type 0 where
  pub tag : ℕ
  pub body : Bytes

-- `UpdateStatus(…, failed, nil, &errMsg)` with its error dropped.
abbrev pub mark_failed : Pool → String → String → M (Unit {0})
mark_failed p job_id text = do p.repo.update_status job_id failed none (some text); pure tt

-- The end of the retry branch, after `PublishToRetry`.
unfoldable pub report_sent : Pool → JobMessage → Failure → M (Unit {0})
report_sent p msg none = pure tt
report_sent p msg (some e) =
    mark_failed p msg.job_id ("failed to publish to retry queue: " ++ error_text e)

-- The retry branch after `json.Marshal`.
unfoldable pub send_retry_body : Outside → Pool → ℤ → JobMessage → Result Bytes → M (Unit {0})
send_retry_body o p next msg (err _) = mark_failed p msg.job_id "failed to marshal retry message"
send_retry_body o p next msg (ok body) = do
  sent ← publish_to_retry o p.rmq next body
  report_sent p msg sent

-- The branch `nextRetry <= p.maxRetries`.
unfoldable pub send_to_retry : Outside → Pool → ℤ → JobMessage → M (Unit {0})
send_to_retry o p next msg =
    send_retry_body o p next msg (o.marshal_message (record msg { retry_count = next }))

-- The end of the last branch, after `json.Marshal`; a failure to publish is only logged.
unfoldable pub send_dlq_body : Outside → Pool → Result Bytes → M (Unit {0})
send_dlq_body o p (err _) = pure tt
send_dlq_body o p (ok body) = do publish_to_dlq o p.rmq body; pure tt

-- The branch in which all retries are used up.
unfoldable pub give_up : Outside → Pool → GoError → JobMessage → M (Unit {0})
give_up o p e msg = do
  mark_failed p msg.job_id ("all retries exhausted: " ++ error_text e)
  send_dlq_body o p (o.marshal_message msg)

abbrev pub next_retry : JobMessage → ℤ
next_retry msg = int_add msg.retry_count (pos 1)

-- The branch in which `Process` failed.
unfoldable pub handle_failure : Outside → Pool → Delivery → JobMessage → GoError → M (Unit {0})
handle_failure o p d msg e = do
  ack o d.tag false
  p.repo.increment_retry msg.job_id
  if leb_ℤ (next_retry msg) p.max_retries
      then send_to_retry o p (next_retry msg) msg
      else give_up o p e msg

-- The part of `processMessage` after `Process`.
unfoldable pub settle : Outside → Pool → Delivery → JobMessage → Failure → M (Unit {0})
settle o p d msg (some e) = handle_failure o p d msg e
settle o p d msg none = do ack o d.tag false; pure tt

-- The part of `processMessage` after `ParseMessage`.
unfoldable pub process_parsed : Outside → Pool → Delivery → Result JobMessage → M (Unit {0})
process_parsed o p d (err _) = do nack o d.tag false false; pure tt
process_parsed o p d (ok msg) = do result ← process o p.processor msg; settle o p d msg result

unfoldable pub process_message : Outside → Pool → Delivery → M (Unit {0})
process_message o p d = process_parsed o p d (parse_message o d.body)

-- What the `select` of `worker` receives: the end of the context, the end of the deliveries, or a
-- delivery.
pub data Signal : Type 0 where
  cancelled channel_closed : Signal
  delivered : Delivery → Signal

-- The loop of `worker` over what it would receive; it returns at the first of the two ends.
unfoldable pub worker : Outside → Pool → List Signal → M (Unit {0})
worker o p [] log = (tt, log)
worker o p (cancelled ∷ rest) log = (tt, log)
worker o p (channel_closed ∷ rest) log = (tt, log)
worker o p (delivered d ∷ rest) log = worker o p rest (process_message o p d log).1

-- `Start` up to the goroutines: the channel of deliveries, or the error.
unfoldable pub start : Outside → Pool → M (Result String)
start o p = consume_jobs o p.rmq p.prefetch
