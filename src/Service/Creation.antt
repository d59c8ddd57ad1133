-- ===== src/Service/Creation.antt =====
-- `CreateJob`: what a success and a failure leave behind.
use pdf_generator.Prelude.{
  ℕ, String, ◌+◌, ◌≡◌, refl, ◌∙◌, ap, Bool, true, false, List, ◌∷◌, Option, none, some, arith,
  count_if, Bool-cases, inl, inr,
}
use pdf_generator.Prelude.Int.{ℤ, leb_ℤ}
use pdf_generator.Go.{ValidationError, Result, ok, err, Failure}
use pdf_generator.Domain.{CreateJobRequest, Bytes}
use pdf_generator.World.Amqp.{Publication}
use pdf_generator.World.{Outside, Act, Log, published, ◌>>=◌, clock, new_uuid}
use pdf_generator.World.Counting.{Silent}
use pdf_generator.Repository.Quiet.{IsQuiet}
use pdf_generator.Queue.Publish.{publish_job, queue_size}
use pdf_generator.Service.PdfService.{
  PdfService, max_queue_size, new_job, report_queued, enqueue_body, enqueue, store_and_enqueue,
  check_size, create_valid, create_job,
}

-- A message that the broker has taken.
abbrev pub is_accepted : Act → Bool
is_accepted (published _ none) = true
is_accepted _ = false

-- How many messages a result stands for.
abbrev pub queued {ℓ} : {A : Type ℓ} → Result A → ℕ
queued (ok _) = 1
queued (err _) = 0

record Queues {ℓ} {A : Type ℓ} (m : Log → Result A × Log) : Type ℓ where
  at : (log : Log) → count_if is_accepted (m log).1 ≡ queued (m log).0 + count_if is_accepted log

Queues-bind {ℓ κ} :
    {A : Type ℓ} {B : Type κ} {m : Log → A × Log} {f : A → Log → Result B × Log}
    → Silent is_accepted m
    → ((a : A) → Queues (f a))
    → Queues (m >>= f)
Queues-bind {m} {f} s t = record {
  at = λ log.
      (t (m log).0).at (m log).1 ∙ ap (λ (n : ℕ). queued (f (m log).0 (m log).1).0 + n) (s.at log);
}

module _ (o : Outside) (s : PdfService) (quiet : IsQuiet is_accepted s.repo) (user_id : String)
    (req : CreateJobRequest) where
  sent_counts :
      (job_id : String) (q : Publication) (f : Failure) (log : Log)
      → count_if is_accepted (report_queued s job_id f (published q f ∷ log)).1
        ≡ queued (report_queued s job_id f (published q f ∷ log)).0 + count_if is_accepted log
  unfolding report_queued
  sent_counts job_id q none log = omega arith
  sent_counts job_id q (some e) log = (quiet.update_status _ _ _ _).at _ ∙ omega arith

  enqueue_body-Queues : (job_id : String) (r : Result Bytes) → Queues (enqueue_body o s job_id r)
  unfolding enqueue_body publish_job
  enqueue_body-Queues job_id (err e) = record { at = λ log. omega arith }
  enqueue_body-Queues job_id (ok body) = record { at = λ log. sent_counts job_id _ _ _ }

  enqueue-Queues : (job_id : String) (f : Failure) → Queues (enqueue o s job_id user_id req f)
  unfolding enqueue
  enqueue-Queues job_id (some e) = record { at = λ log. omega arith }
  enqueue-Queues job_id none = enqueue_body-Queues job_id _

  store-Queues : Queues (store_and_enqueue o s user_id req)
  unfolding store_and_enqueue
  store-Queues =
      Queues-bind {m = clock o} (record { at = λ log. refl })
        λ now.
          Queues-bind {m = new_uuid o} (record { at = λ log. refl })
            λ job_id.
              Queues-bind (quiet.create (new_job s job_id user_id req now)) (enqueue-Queues job_id)

  check_size-Queues : (r : Result ℤ) → Queues (check_size o s user_id req r)
  unfolding check_size
  check_size-Queues (err e) = store-Queues
  check_size-Queues (ok size) = elim (Bool-cases (leb_ℤ max_queue_size size)) [
    | inl full ↦ rw full (record { at = λ log. omega arith })
    | inr room ↦ rw room store-Queues
  ]

  create_valid-Queues :
      (v : Option (List ValidationError)) → Queues (create_valid o s user_id req v)
  unfolding create_valid queue_size
  create_valid-Queues (some errs) = record { at = λ log. omega arith }
  create_valid-Queues none =
      Queues-bind {m = queue_size o s.rmq} (record { at = λ log. refl }) check_size-Queues

  -- Where the repository publishes nothing itself, `CreateJob` returns a job exactly where the
  -- broker has accepted one message, and an error exactly where it has accepted none, whatever
  -- failed before or after.
  pub create_job-queues :
      (log : Log)
      → count_if is_accepted (create_job o s user_id req log).1
        ≡ queued (create_job o s user_id req log).0 + count_if is_accepted log
  unfolding create_job
  create_job-queues log = (create_valid-Queues _).at log
