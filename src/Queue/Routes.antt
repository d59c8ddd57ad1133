-- ===== src/Queue/Routes.antt =====
-- What the topology means for a message: which queues a routing key reaches on the job exchange, and
-- where a queue sends its dead letters. A direct exchange hands a message to the queues that are
-- bound to it under the message's key.
use Prim.Native.String.{◌++◌}
use package.text.Mathlib.Text.{◌==◌ as str_eq}
use package.text.Mathlib.TextEquality.{eq_iff}
use package.text.Mathlib.TextPositions.{eq_refl}
use package.text.Mathlib.TextLemmas.{append_cancel_left, append-nil}
use mathlib.Core.Bool.{false≢true}
use pdf_generator.Prelude.{
  String, ◌≡◌, ◌≢◌, refl, sym, ◌∙◌, false, ◌&&◌, List, [], ◌∷◌, arith, if◌then◌else◌,
}
use pdf_generator.Prelude.Int.{pos}
use pdf_generator.World.Amqp.{
  TableValue, text, int64, Declaration, exchange_declare, queue_declare, queue_bind,
}
use pdf_generator.Queue.Connection.{RabbitMqConfig}
use pdf_generator.Queue.Topology.{retry_queue_name}
use pdf_generator.Queue.Plan.{plan}

-- The queues that a direct exchange hands a message with this key to.
abbrev pub reached : String → String → List Declaration → List String
reached exchange key [] = []
reached exchange key (exchange_declare _ _ ∷ ds) = reached exchange key ds
reached exchange key (queue_declare _ _ _ _ _ ∷ ds) = reached exchange key ds
reached exchange key (queue_bind name k e ∷ ds) =
    let rest = reached exchange key ds in
    if str_eq k key && str_eq e exchange then name ∷ rest else rest

-- The arguments of a queue, from its first declaration.
abbrev pub queue_args : String → List Declaration → List (String × TableValue)
queue_args queue [] = []
queue_args queue (exchange_declare _ _ ∷ ds) = queue_args queue ds
queue_args queue (queue_bind _ _ _ ∷ ds) = queue_args queue ds
queue_args queue (queue_declare name _ _ _ args ∷ ds) =
    let rest = queue_args queue ds in if str_eq name queue then args else rest

abbrev pub text_arg : String → List (String × TableValue) → String
text_arg key [] = ""
text_arg key ((k, int64 _) ∷ args) = text_arg key args
text_arg key ((k, text v) ∷ args) = let rest = text_arg key args in if str_eq k key then v else rest

-- Where the dead letters of a queue arrive.
abbrev pub dead_letters : String → List Declaration → List String
dead_letters queue ds =
    reached (text_arg "x-dead-letter-exchange" (queue_args queue ds))
      (text_arg "x-dead-letter-routing-key" (queue_args queue ds)) ds

-- The dead letter queue has a name of its own.
pub record IsWellNamed (cfg : RabbitMqConfig) : Type 0 where
  pub not_jobs : cfg.job_queue ≢ cfg.job_dlq
  pub not_retry_1 : retry_queue_name cfg (pos 1) ≢ cfg.job_dlq
  pub not_retry_2 : retry_queue_name cfg (pos 2) ≢ cfg.job_dlq
  pub not_retry_3 : retry_queue_name cfg (pos 3) ≢ cfg.job_dlq

pub ne_of_test : (s t : String) → str_eq s t ≡ false → s ≢ t
ne_of_test s t h e = false≢true (sym h ∙ (eq_iff s t).1 e)

test_of_ne : (s t : String) → s ≢ t → str_eq s t ≡ false
test_of_ne s t h = ground (arith, eq_iff s t)

test_append : (s t u : String) → str_eq t u ≡ false → str_eq (s ++ t) (s ++ u) ≡ false
test_append s t u h =
    test_of_ne (s ++ t) (s ++ u) (λ e. ne_of_test t u h (append_cancel_left s t u e))

test_append_self : (s t : String) → str_eq t "" ≡ false → str_eq (s ++ t) s ≡ false
test_append_self s t h =
    test_of_ne (s ++ t) s
      (λ e. ne_of_test t "" h (append_cancel_left s t "" (e ∙ sym (append-nil s))))

test_sym : (s t : String) → str_eq s t ≡ false → str_eq t s ≡ false
test_sym s t h = test_of_ne t s (λ e. ne_of_test s t h (sym e))

module _ (cfg : RabbitMqConfig) (w : IsWellNamed cfg) where
  -- The tests between the five names.
  r1-jobs : str_eq (retry_queue_name cfg (pos 1)) cfg.job_queue ≡ false
  unfolding retry_queue_name
  r1-jobs = test_append_self cfg.job_queue _ refl

  r2-jobs : str_eq (retry_queue_name cfg (pos 2)) cfg.job_queue ≡ false
  unfolding retry_queue_name
  r2-jobs = test_append_self cfg.job_queue _ refl

  r3-jobs : str_eq (retry_queue_name cfg (pos 3)) cfg.job_queue ≡ false
  unfolding retry_queue_name
  r3-jobs = test_append_self cfg.job_queue _ refl

  r1-r2 : str_eq (retry_queue_name cfg (pos 1)) (retry_queue_name cfg (pos 2)) ≡ false
  unfolding retry_queue_name
  r1-r2 = test_append cfg.job_queue _ _ refl

  r1-r3 : str_eq (retry_queue_name cfg (pos 1)) (retry_queue_name cfg (pos 3)) ≡ false
  unfolding retry_queue_name
  r1-r3 = test_append cfg.job_queue _ _ refl

  r2-r3 : str_eq (retry_queue_name cfg (pos 2)) (retry_queue_name cfg (pos 3)) ≡ false
  unfolding retry_queue_name
  r2-r3 = test_append cfg.job_queue _ _ refl

  jobs-dlq : str_eq cfg.job_queue cfg.job_dlq ≡ false
  jobs-dlq = test_of_ne _ _ w.not_jobs

  dlq-jobs : str_eq cfg.job_dlq cfg.job_queue ≡ false
  dlq-jobs = test_sym _ _ jobs-dlq

  r1-dlq : str_eq (retry_queue_name cfg (pos 1)) cfg.job_dlq ≡ false
  r1-dlq = test_of_ne _ _ w.not_retry_1

  r2-dlq : str_eq (retry_queue_name cfg (pos 2)) cfg.job_dlq ≡ false
  r2-dlq = test_of_ne _ _ w.not_retry_2

  r3-dlq : str_eq (retry_queue_name cfg (pos 3)) cfg.job_dlq ≡ false
  r3-dlq = test_of_ne _ _ w.not_retry_3

  dlq-r1 : str_eq cfg.job_dlq (retry_queue_name cfg (pos 1)) ≡ false
  dlq-r1 = test_sym _ _ r1-dlq

  dlq-r2 : str_eq cfg.job_dlq (retry_queue_name cfg (pos 2)) ≡ false
  dlq-r2 = test_sym _ _ r2-dlq

  dlq-r3 : str_eq cfg.job_dlq (retry_queue_name cfg (pos 3)) ≡ false
  dlq-r3 = test_sym _ _ r3-dlq

  -- Where the dead letter queue has a name of its own, each key that the program publishes jobs
  -- with reaches exactly the one queue of that name: the job queue, the dead letter queue and the
  -- three delay queues.
  pub reached-plan :
      (reached cfg.job_exchange cfg.job_queue (plan cfg) ≡ cfg.job_queue ∷ [])
      × (reached cfg.job_exchange cfg.job_dlq (plan cfg) ≡ cfg.job_dlq ∷ [])
      × (reached cfg.job_exchange (retry_queue_name cfg (pos 1)) (plan cfg)
          ≡ retry_queue_name cfg (pos 1) ∷ [])
      × (reached cfg.job_exchange (retry_queue_name cfg (pos 2)) (plan cfg)
          ≡ retry_queue_name cfg (pos 2) ∷ [])
      × (reached cfg.job_exchange (retry_queue_name cfg (pos 3)) (plan cfg)
          ≡ retry_queue_name cfg (pos 3) ∷ [])
  reached-plan = (
    simp (eq_refl, r1-jobs, r2-jobs, r3-jobs, dlq-jobs),
    simp (eq_refl, jobs-dlq, r1-dlq, r2-dlq, r3-dlq),
    simp (eq_refl, dlq-r1, test_sym _ _ r1-r2, test_sym _ _ r1-r3, test_sym _ _ r1-jobs),
    simp (eq_refl, dlq-r2, r1-r2, test_sym _ _ r2-r3, test_sym _ _ r2-jobs),
    simp (eq_refl, dlq-r3, r1-r3, r2-r3, test_sym _ _ r3-jobs),
  )

  -- Where the dead letter queue has a name of its own, the dead letters of each delay queue arrive
  -- at exactly the job queue, and those of the job queue at exactly the dead letter queue.
  pub dead_letters-plan :
      (dead_letters (retry_queue_name cfg (pos 1)) (plan cfg) ≡ cfg.job_queue ∷ [])
      × (dead_letters (retry_queue_name cfg (pos 2)) (plan cfg) ≡ cfg.job_queue ∷ [])
      × (dead_letters (retry_queue_name cfg (pos 3)) (plan cfg) ≡ cfg.job_queue ∷ [])
      × (dead_letters cfg.job_queue (plan cfg) ≡ cfg.job_dlq ∷ [])
  dead_letters-plan = (
    simp (eq_refl, dlq-r1, r1-jobs, r2-jobs, r3-jobs, dlq-jobs),
    simp (eq_refl, dlq-r2, r1-r2, r1-jobs, r2-jobs, r3-jobs, dlq-jobs),
    simp (eq_refl, dlq-r3, r1-r3, r2-r3, r1-jobs, r2-jobs, r3-jobs, dlq-jobs),
    simp (eq_refl, dlq-jobs, r1-jobs, r2-jobs, r3-jobs, jobs-dlq, r1-dlq, r2-dlq, r3-dlq),
  )
