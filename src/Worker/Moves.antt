-- ===== src/Worker/Moves.antt =====
-- Where a failed message goes, and that it goes there once and nowhere else.
use text.Mathlib.Text.{◌==◌ as str_eq}
use text.Mathlib.TextPositions.{eq_refl}
use pdf_generator.Prelude.{
  ℕ, suc, String, ◌≡◌, refl, sym, ap, subst, ◌∙◌, Bool, true, false, Option, none, some, ◌⊎◌, inl,
  inr, arith, count_if, ◌^◌, ◌≤◌, ◌<◌, if◌then◌else◌, Bool-cases, ◌&&◌,
}
use pdf_generator.Prelude.Int.{pos, int_add, ◌≤ℤ◌, leb_ℤ}
use pdf_generator.Go.{GoError, ok, Failure}
use pdf_generator.Domain.{Bytes, JobStatus, JobMessage}
use pdf_generator.World.Amqp.{Publication}
use pdf_generator.World.{Outside, Act, published, Log, ack}
use pdf_generator.World.Counting.{
  Silent, Once, Silent-pure, Silent-then, Once-bind_first, Once-then_first, Once-bind_last,
}
use pdf_generator.Repository.Postgres.{new_job_repository}
use pdf_generator.Repository.Quiet.{IsQuiet, new_job_repository-IsQuiet}
use pdf_generator.Pdf.Generate.{
  Generator, draw_and_write, generate_checked, generate_parsed, generate,
}
use pdf_generator.Queue.Connection.{RabbitMqConfig}
use pdf_generator.Queue.Topology.{retry_queue_name}
use pdf_generator.Queue.Publish.{send, publish_event, publish_to_retry, publish_to_dlq}
use pdf_generator.Worker.Processor.{announce_body, announce, process}
use pdf_generator.Worker.Silence.{IsQuietProcessor, process-Silent}
use pdf_generator.Worker.Retries.{outside_false}
use pdf_generator.Worker.Tags.{IsWired}
use pdf_generator.Worker.Pool.{
  Pool, Delivery, mark_failed, report_sent, send_retry_body, send_dlq_body, send_to_retry, give_up,
  next_retry, handle_failure,
}

-- A message of a kind that the broker has accepted on the exchange of jobs.
abbrev pub is_sent : RabbitMqConfig → (Publication → Bool) → Act → Bool
is_sent cfg which (published q none) = str_eq q.exchange cfg.job_exchange && which q
is_sent cfg which _ = false

-- Any message, and one with this key and this body.
abbrev pub any_message : Publication → Bool
any_message q = true

abbrev pub is_copy : String → Bytes → Publication → Bool
is_copy key body q = str_eq q.key key && str_eq q.body body

-- A worker whose broker accepts every publication, with at most the three retries that there are
-- queues for. Events and jobs have different exchanges, and every message can be encoded.
pub record IsHealthy (o : Outside) (p : Pool) : Type 0 where
  pub wired : IsWired o p
  pub accepts : (log : Log) (q : Publication) → o.publish log q ≡ none
  pub encodes : (m : JobMessage) → (b : Bytes) × (o.marshal_message m ≡ ok b)
  pub exchanges : str_eq p.processor.rmq.cfg.event_exchange p.rmq.cfg.job_exchange ≡ false
  pub few : p.max_retries ≤ℤ pos 3

-- Where a failed message belongs, and as what: to the delay queue of its next retry, with that count,
-- where the retry is allowed, and otherwise to the dead letter queue as it is.
abbrev pub Destination : Outside → Pool → JobMessage → String → Bytes → Type 0
Destination o p m key body =
    ((leb_ℤ (next_retry m) p.max_retries ≡ true)
      × (key ≡ retry_queue_name p.rmq.cfg (next_retry m))
      × (o.marshal_message (record m { retry_count = next_retry m }) ≡ ok body))
    ⊎ ((leb_ℤ (next_retry m) p.max_retries ≡ false)
        × (key ≡ p.rmq.cfg.job_dlq)
        × (o.marshal_message m ≡ ok body))

-- One message has been accepted on the exchange of jobs since, and it is the copy with this key and
-- this body.
abbrev pub OneCopy : Pool → String → Bytes → Log → Log → Type 0
OneCopy p key body log log' =
    (count_if (is_sent p.rmq.cfg any_message) log'
      ≡ suc (count_if (is_sent p.rmq.cfg any_message) log))
    × (count_if (is_sent p.rmq.cfg (is_copy key body)) log'
        ≡ suc (count_if (is_sent p.rmq.cfg (is_copy key body)) log))

module _ (o : Outside) (p : Pool) (h : IsHealthy o p) (which : Publication → Bool) where
  abbrev kind : Act → Bool
  kind = is_sent p.rmq.cfg which

  quiet : IsQuiet kind (new_job_repository o)
  quiet = new_job_repository-IsQuiet o kind (record {
    no_clock = λ t. refl;
    no_exec = λ s r. refl;
    no_row = λ id r. refl;
    no_rows = λ user_id limit offset r. refl;
  })

  announce-Silent :
      (job_id user_id : String) (status : JobStatus) (file_path err_msg : Option String)
      → Silent kind (announce o p.processor job_id user_id status file_path err_msg)
  unfolding announce announce_body publish_event
  announce-Silent job_id user_id status file_path err_msg = record {
    at = λ log. grind (arith, h.exchanges);
  }

  generate-Silent :
      (g : Generator) (job_id template : String) (payload : Bytes)
      → Silent kind (generate o g job_id template payload)
  unfolding generate generate_parsed generate_checked draw_and_write
  generate-Silent g job_id template payload = record { at = λ log. grind (arith) }

  processor-IsQuiet : IsQuietProcessor o kind p.processor
  processor-IsQuiet = record {
    repo = subst (IsQuiet kind) (sym h.wired.processor_repo) quiet;
    announce = announce-Silent;
    generate = generate-Silent p.processor.generator;
  }

  mark_failed-Silent : (job_id text : String) → Silent kind (mark_failed p job_id text)
  mark_failed-Silent job_id text =
      Silent-then ((subst (IsQuiet kind) (sym h.wired.repo) quiet).update_status _ _ _ _)
        (Silent-pure _)

  report_sent-Silent : (m : JobMessage) (f : Failure) → Silent kind (report_sent p m f)
  unfolding report_sent
  report_sent-Silent m none = Silent-pure _
  report_sent-Silent m (some e) = mark_failed-Silent _ _

  -- The messages with this key and this body are of the kind.
  abbrev IsOf : String → Bytes → Type 0
  IsOf key body = (q : Publication) → q.key ≡ key → q.body ≡ body → which q ≡ true

  send-Once :
      (key : String) (body : Bytes)
      → IsOf key body
      → Once kind (send o p.rmq p.rmq.cfg.job_exchange key body)
  send-Once key body of_kind = record { at = λ log. simp (h.accepts, eq_refl, of_kind _ refl refl) }

  send_dlq_body-Once :
      (body : Bytes) → IsOf p.rmq.cfg.job_dlq body → Once kind (send_dlq_body o p (ok body))
  unfolding send_dlq_body publish_to_dlq
  send_dlq_body-Once body of_kind = Once-then_first (send-Once _ body of_kind) (Silent-pure _)

  send_retry_body-Once :
      (k : ℕ) (m : JobMessage) (body : Bytes)
      → 1 ≤ k
      → k ≤ 3
      → IsOf (retry_queue_name p.rmq.cfg (pos k)) body
      → Once kind (send_retry_body o p (pos k) m (ok body))
  unfolding send_retry_body publish_to_retry
  send_retry_body-Once k m body low high of_kind =
      rw (outside_false k low high)
        (Once-bind_first (send-Once _ body of_kind) (report_sent-Silent m))

  at_most : (k : ℕ) → leb_ℤ (pos (suc k)) p.max_retries ≡ true → p.max_retries ≤ℤ pos 3 → suc k ≤ 3
  at_most k within few = ground arith

  -- A failed message goes to its destination.
  moved_on :
      (m : JobMessage) (n : ℕ) (e : GoError) (key : String) (body : Bytes)
      → next_retry m ≡ pos (suc n)
      → Destination o p m key body
      → IsOf key body
      → Once kind (
          if leb_ℤ (next_retry m) p.max_retries
          then send_to_retry o p (next_retry m) m
          else give_up o p e m)
  unfolding give_up send_to_retry
  moved_on m n e key body next (inl (within, named, encoded)) of_kind = rw within (
      rw encoded (
        subst (λ k. Once kind (send_retry_body o p k m (ok body))) (sym next)
          (send_retry_body-Once (suc n) m body (omega arith) (at_most n (rw next at within) h.few)
            (subst (λ k. IsOf k body) (named ∙ ap (retry_queue_name p.rmq.cfg) next) of_kind))))
  moved_on m n e key body next (inr (over, named, encoded)) of_kind = rw over (
      rw encoded (
        Once-bind_last (mark_failed-Silent _ _)
          (λ _. send_dlq_body-Once body (subst (λ k. IsOf k body) named of_kind))))

  handle_failure-Once :
      (d : Delivery) (m : JobMessage) (e : GoError) (n : ℕ) (key : String) (body : Bytes)
      → next_retry m ≡ pos (suc n)
      → Destination o p m key body
      → IsOf key body
      → Once kind (handle_failure o p d m e)
  unfolding handle_failure
  handle_failure-Once d m e n key body next there of_kind =
      Once-bind_last {m = ack o d.tag false} (record { at = λ log. refl })
        (λ _.
          Once-bind_last ((subst (IsQuiet kind) (sym h.wired.repo) quiet).increment_retry m.job_id)
            (λ _. moved_on m n e key body next there of_kind))

  pub process_kept :
      (m : JobMessage) (log : Log)
      → count_if kind (process o p.processor m log).1 ≡ count_if kind log
  process_kept m log = (process-Silent o p.processor processor-IsQuiet m).at log

  pub failure_count :
      (d : Delivery) (m : JobMessage) (e : GoError) (n : ℕ) (key : String) (body : Bytes)
      (log : Log)
      → next_retry m ≡ pos (suc n)
      → Destination o p m key body
      → IsOf key body
      → count_if kind (handle_failure o p d m e (process o p.processor m log).1).1
        ≡ suc (count_if kind log)
  failure_count d m e n key body log next there of_kind =
      (handle_failure-Once d m e n key body next there of_kind).at (process o p.processor m log).1
      ∙ ap suc (process_kept m log)

pub next_count :
    (m : JobMessage) (n : ℕ) → m.retry_count ≡ pos n → suc n < 2 ^ 63 → next_retry m ≡ pos (suc n)
unfolding int_add
next_count m n count small = rw count (ground arith)

-- Every failed message has a destination.
pub destination :
    (o : Outside) (p : Pool) (h : IsHealthy o p) (m : JobMessage)
    → (key : String) × (body : Bytes) × Destination o p m key body
destination o p h m = elim (Bool-cases (leb_ℤ (next_retry m) p.max_retries)) [
  | inl within ↦
      let (body, encoded) = h.encodes (record m { retry_count = next_retry m }) in
      (retry_queue_name p.rmq.cfg (next_retry m), body, inl (within, refl, encoded))
  | inr over ↦
      let (body, encoded) = h.encodes m in (p.rmq.cfg.job_dlq, body, inr (over, refl, encoded))
]

pub copy_of :
    (key : String) (body : Bytes) (q : Publication)
    → q.key ≡ key
    → q.body ≡ body
    → is_copy key body q ≡ true
copy_of key body q k b = rw (k, b) (rw (eq_refl key) (eq_refl body))
