-- ===== src/Database/Evolution.antt =====
-- What can become of a row that is there: which columns stay, and which way its status goes.
use text.Mathlib.Text.{◌==◌ as str_eq}
use text.Mathlib.TextEquality.{eq_iff}
use pdf_generator.Prelude.{
  String, ◌≡◌, ◌≢◌, refl, sym, ◌∙◌, Bool-cases, Option, none, some, inl, inr, All, update_key, ℕ,
}
use pdf_generator.Go.{Result}
use pdf_generator.Domain.{Job, JobStatus, pending, Time}
use pdf_generator.World.Sql.{Statement, insert_job, set_status, bump_retry}
use pdf_generator.World.{Outside, Act, Log, executed}
use pdf_generator.World.Extends.{same, more}
use pdf_generator.Repository.Postgres.{new_job_repository}
use pdf_generator.Database.Table.{
  Table, apply, Replay, start, applied, refused, passed, insert_row, change, with_status,
  with_retry,
}
use pdf_generator.Database.Acts.{IsFree, Stores}
use pdf_generator.Database.History.{History, History-All}

-- A row before and after: the columns of the request stay, and a job that was begun is not pending again.
pub record Evolves (old new : Job) : Type 0 where
  pub id : new.id ≡ old.id
  pub owner : new.user_id ≡ old.user_id
  pub template : new.template_name ≡ old.template_name
  pub payload : new.payload ≡ old.payload
  pub allowed : new.max_retries ≡ old.max_retries
  pub created : new.created_at ≡ old.created_at
  pub begun : new.status ≡ pending → old.status ≡ pending

Evolves-refl : (job : Job) → Evolves job job
Evolves-refl job = record {
  id = refl;
  owner = refl;
  template = refl;
  payload = refl;
  allowed = refl;
  created = refl;
  begun = λ h. h;
}

Evolves-trans : {a b c : Job} → Evolves a b → Evolves b c → Evolves a c
Evolves-trans f g = record {
  id = g.id ∙ f.id;
  owner = g.owner ∙ f.owner;
  template = g.template ∙ f.template;
  payload = g.payload ∙ f.payload;
  allowed = g.allowed ∙ f.allowed;
  created = g.created ∙ f.created;
  begun = λ h. f.begun (g.begun h);
}

-- The row is still there, as what it has become.
abbrev pub Lives : Job → Option Job → Type 0
Lives job none = ⊥
Lives job (some new) = Evolves job new

-- No statement sets the status back.
abbrev IsForward : Act → Type 0
IsForward (executed (set_status id status path msg now time) r) = status ≢ pending
IsForward _ = Unit

abbrev IsForwardStatement : Statement → Type 0
IsForwardStatement (set_status id status path msg now time) = status ≢ pending
IsForwardStatement _ = Unit

with_status-Lives :
    (job : Job) (row : Option Job) (status : JobStatus) (path msg : Option String) (now : Time)
    (time : Option Time)
    → status ≢ pending
    → Lives job row
    → Lives job (change (with_status status path msg now time) row)
with_status-Lives job none status path msg now time h v = v
with_status-Lives job (some row) status path msg now time h v = Evolves-trans v (record {
  id = refl;
  owner = refl;
  template = refl;
  payload = refl;
  allowed = refl;
  created = refl;
  begun = λ q. absurd (h q);
})

with_retry-Lives :
    (job : Job) (row : Option Job) (now : Time)
    → Lives job row
    → Lives job (change (with_retry now) row)
with_retry-Lives job none now v = v
with_retry-Lives job (some row) now v = Evolves-trans v (record {
  id = refl;
  owner = refl;
  template = refl;
  payload = refl;
  allowed = refl;
  created = refl;
  begun = λ q. q;
})

insert_row-Lives :
    (job added : Job) (row : Option Job) → Lives job row → Lives job (insert_row added row)
insert_row-Lives job added none v = absurd v
insert_row-Lives job added (some row) v = v

-- A change of the row of one id.
update_key-Lives :
    (job : Job) (t : Table) (key id : String) (row : Option Job)
    → (Lives job (t key) → Lives job row)
    → Lives job (t id)
    → Lives job (update_key t key row id)
update_key-Lives job t key id row h v = elim (Bool-cases (str_eq key id)) [
  | inl this ↦ rw this (h (rw (sym ((eq_iff key id).0 this)) at v))
  | inr another ↦ rw another v
]

apply-Lives :
    (job : Job) (s : Statement) (t : Table) (id : String)
    → IsForwardStatement s
    → Lives job (t id)
    → Lives job (apply s t id)
unfolding apply
apply-Lives job (insert_job added) t id h v =
    update_key-Lives job t added.id id _ (insert_row-Lives job added (t added.id)) v
apply-Lives job (set_status key status path msg now time) t id h v =
    update_key-Lives job t key id _ (with_status-Lives job (t key) status path msg now time h) v
apply-Lives job (bump_retry key now) t id h v =
    update_key-Lives job t key id _ (with_retry-Lives job (t key) now) v

forward : (s : Statement) (r : Result ℕ) → IsForward (executed s r) → IsForwardStatement s
forward (insert_job job) r h = tt
forward (set_status id status path msg now time) r h = h
forward (bump_retry id now) r h = tt

Replay-Lives :
    {t₀ t : Table} {log : Log} (job : Job) (id : String)
    → Replay t₀ log t
    → All IsForward log
    → Lives job (t₀ id)
    → Lives job (t id)
Replay-Lives job id start h v = v
Replay-Lives job id (applied {t} s r e) h v =
    apply-Lives job s t id (forward s r h.0) (Replay-Lives job id e h.1 v)
Replay-Lives job id (refused s _ e) h v = Replay-Lives job id e h.1 v
Replay-Lives job id (passed a _ e) h v = Replay-Lives job id e h.1 v

IsForward-IsFree : IsFree IsForward
IsForward-IsFree (executed s r) h = cc
IsForward-IsFree _ h = tt

new_job_repository-Stores : (o : Outside) → Stores IsForward (new_job_repository o)
unfolding new_job_repository
new_job_repository-Stores o = record {
  to_pending = λ job h. record { at = λ log. more _ tt same };
  to_processing = λ id. record { at = λ log. more _ (λ e. cc) (more _ tt same) };
  to_completed = λ id path. record { at = λ log. more _ (λ e. cc) (more _ tt same) };
  to_failed = λ id text. record { at = λ log. more _ (λ e. cc) (more _ tt same) };
  increment_retry = λ id. record { at = λ log. more _ tt (more _ tt same) };
}

-- Whatever calls of `CreateJob` and of `processMessage` follow, by any services and pools over
-- PostgreSQL and whatever the outside answers, a row that is in the table at first stays in it: its id,
-- owner, template, payload, allowed retries and time of creation never change, and once its status is not
-- pending it is never pending again.
pub rows-evolve :
    (o : Outside) (t₀ t : Table) {log : Log} (id : String) (job : Job)
    → History o log
    → Replay t₀ log t
    → t₀ id ≡ some job
    → Lives job (t id)
rows-evolve o t₀ t id job h r there =
    Replay-Lives job id r (History-All IsForward-IsFree o (new_job_repository-Stores o) h)
      (rw there (Evolves-refl job))
