-- ===== src/Queue/Plan.antt =====
-- The topology of `setup` as a flat list, and what it means for a message: which queues a routing key
-- reaches, and where a queue sends its dead letters.
use pdf_generator.Prelude.{
  ℕ, String, ◌≡◌, refl, inl, inr, Bool, true, false, List, [], ◌∷◌, Option, none, some,
}
use pdf_generator.Prelude.Int.{pos}
use pdf_generator.Go.{Result, ok, err, Failure, Result-cases}
use pdf_generator.World.Amqp.{TableValue, Declaration, exchange_declare, queue_declare, queue_bind}
use pdf_generator.World.{Outside, Log, declared, M, pure}
use pdf_generator.Queue.Connection.{RabbitMqConfig, RabbitMq}
use pdf_generator.Queue.Topology.{declare_then, retry_queue_name, dead_letter_to, retry_args, setup}

-- A durable queue that is bound to the job exchange under its own name.
abbrev own_queue :
    RabbitMqConfig → String → List (String × TableValue) → List Declaration → List Declaration
own_queue cfg name args rest =
    queue_declare name true false false args ∷ queue_bind name name cfg.job_exchange ∷ rest

abbrev pub plan : RabbitMqConfig → List Declaration
plan cfg =
    exchange_declare cfg.job_exchange "direct"
    ∷ own_queue cfg cfg.job_dlq [] (
        own_queue cfg (retry_queue_name cfg (pos 1)) (retry_args cfg (pos 1000)) (
          own_queue cfg (retry_queue_name cfg (pos 2)) (retry_args cfg (pos 5000)) (
            own_queue cfg (retry_queue_name cfg (pos 3)) (retry_args cfg (pos 10000)) (
              own_queue cfg cfg.job_queue (dead_letter_to cfg.job_exchange cfg.job_dlq)
                (exchange_declare cfg.event_exchange "fanout" ∷ [])))))

abbrev pub if_ok {ℓ κ} : {A : Type ℓ} {B : Type κ} → Result A → B → B → B
if_ok (ok _) b c = b
if_ok (err _) b c = c

-- The log after the declarations of a list up to the first that is refused.
abbrev pub declare_all : Outside → Option ℕ → List Declaration → Log → Log
declare_all o ch [] log = log
declare_all o ch (d ∷ ds) log =
    let log' : Log = declared ch d (o.declare log ch d) ∷ log in
    if_ok (o.declare log ch d) (declare_all o ch ds log') log'

-- Whether all of them are accepted.
abbrev pub accepted_all : Outside → Option ℕ → List Declaration → Log → Bool
accepted_all o ch [] log = true
accepted_all o ch (d ∷ ds) log =
    let rest = accepted_all o ch ds (declared ch d (o.declare log ch d) ∷ log) in
    if_ok (o.declare log ch d) rest false

abbrev pub is_nil : Failure → Bool
is_nil none = true
is_nil (some _) = false

record Follows (o : Outside) (ch : Option ℕ) (m : M Failure) (ds : List Declaration) : Type 0 where
  at :
      (log : Log)
      → ((m log).1 ≡ declare_all o ch ds log) × (is_nil (m log).0 ≡ accepted_all o ch ds log)

Follows-cons :
    (o : Outside) (ch : Option ℕ) (d : Declaration) (before : String) {m : M Failure}
    {ds : List Declaration}
    → Follows o ch m ds
    → Follows o ch (declare_then o ch d before m) (d ∷ ds)
Follows-cons o ch d before {m} {ds} f = record {
  at = λ log. elim (Result-cases (o.declare log ch d)) [
    | inl (name, e) ↦ rw e (f.at (declared ch d (ok name) ∷ log))
    | inr (e', e) ↦ rw e (refl, refl)
  ];
}

setup-Follows : (o : Outside) (r : RabbitMq) → Follows o r.ch (setup o r) (plan r.cfg)
unfolding setup
setup-Follows o r = step _ (
    step _ (
      step _ (step _ (step _ (step _ (step _ (step _ (step _ (step _ (step _ (step _ done)))))))))))
  where
    step :
        {d : Declaration} (before : String) {m : M Failure} {ds : List Declaration}
        → Follows o r.ch m ds
        → Follows o r.ch (declare_then o r.ch d before m) (d ∷ ds)
    step = Follows-cons o r.ch _

    done : Follows o r.ch (pure none) []
    done = record { at = λ log. (refl, refl) }

-- `setup` makes the declarations of the plan in order up to the first that the broker refuses, and
-- returns nil exactly where all are accepted.
pub setup-plan :
    (o : Outside) (r : RabbitMq) (log : Log)
    → ((setup o r log).1 ≡ declare_all o r.ch (plan r.cfg) log)
      × (is_nil (setup o r log).0 ≡ accepted_all o r.ch (plan r.cfg) log)
setup-plan o r log = (setup-Follows o r).at log
