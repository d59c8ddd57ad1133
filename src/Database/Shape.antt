-- ===== src/Database/Shape.antt =====
-- Which rows the program stores: the columns of a row fit its status.
use text.Mathlib.Text.{◌==◌ as str_eq}
use pdf_generator.Prelude.{String, Option, none, some, ◌≡◌, update_key, All, Bool-cases, inl, inr}
use pdf_generator.Domain.{Job, JobStatus, pending, processing, completed, failed, Time}
use pdf_generator.World.Sql.{Statement, insert_job, set_status, bump_retry}
use pdf_generator.World.{Outside, Act, Log, executed}
use pdf_generator.World.Extends.{same, more}
use pdf_generator.Repository.Postgres.{new_job_repository}
use pdf_generator.Database.Table.{
  Table, apply, Replay, start, applied, refused, passed, insert_row, change, with_status,
  with_retry,
}
use pdf_generator.Database.Acts.{IsFree, Stores}

abbrev pub IsPresent {ℓ} : {A : Type ℓ} → Option A → Type 0
IsPresent none = ⊥
IsPresent (some _) = Unit

abbrev pub IsAbsent {ℓ} : {A : Type ℓ} → Option A → Type 0
IsAbsent none = Unit
IsAbsent (some _) = ⊥

-- A file exactly in a completed row, an error exactly in a failed one, and the time of completion
-- exactly in these two.
abbrev pub Fits : JobStatus → Option String → Option String → Option Time → Type 0
Fits pending path msg time = IsAbsent path × IsAbsent msg × IsAbsent time
Fits processing path msg time = IsAbsent path × IsAbsent msg × IsAbsent time
Fits completed path msg time = IsPresent path × IsAbsent msg × IsPresent time
Fits failed path msg time = IsAbsent path × IsPresent msg × IsPresent time

abbrev pub IsRow : Job → Type 0
IsRow job = Fits job.status job.file_path job.error_message job.completed_at

abbrev OfRow : Option Job → Type 0
OfRow none = Unit
OfRow (some job) = IsRow job

-- Every row of a table fits.
abbrev pub IsValid : Table → Type 0
IsValid t = (id : String) → OfRow (t id)

-- The statements that keep this.
abbrev pub IsShaped : Statement → Type 0
IsShaped (insert_job job) = job.status ≡ pending
IsShaped (set_status id status path msg now time) = Fits status path msg time
IsShaped (bump_retry id now) = Unit

abbrev pub IsShapedAct : Act → Type 0
IsShapedAct (executed s _) = IsShaped s
IsShapedAct _ = Unit

insert_row-fits :
    (job : Job) (row : Option Job) → job.status ≡ pending → OfRow row → OfRow (insert_row job row)
insert_row-fits job none h v = rw h (tt, tt, tt)
insert_row-fits job (some old) h v = v

with_status-Fits :
    (status : JobStatus) (path msg : Option String) (now : Time) (time : Option Time)
    (row : Option Job)
    → Fits status path msg time
    → OfRow (change (with_status status path msg now time) row)
with_status-Fits status path msg now time none h = tt
with_status-Fits status path msg now time (some job) h = h

with_retry-fits : (now : Time) (row : Option Job) → OfRow row → OfRow (change (with_retry now) row)
with_retry-fits now none v = tt
with_retry-fits now (some job) v = v

update_key-IsValid :
    (t : Table) (id : String) (row : Option Job)
    → OfRow row
    → IsValid t
    → IsValid (update_key t id row)
update_key-IsValid t id row h v id' = elim (Bool-cases (str_eq id id')) [
  | inl this ↦ rw this h
  | inr another ↦ rw another (v id')
]

pub apply-IsValid : (s : Statement) (t : Table) → IsShaped s → IsValid t → IsValid (apply s t)
unfolding apply
apply-IsValid (insert_job job) t h v =
    update_key-IsValid t job.id _ (insert_row-fits job (t job.id) h (v job.id)) v
apply-IsValid (set_status id status path msg now time) t h v =
    update_key-IsValid t id _ (with_status-Fits status path msg now time (t id) h) v
apply-IsValid (bump_retry id now) t h v =
    update_key-IsValid t id _ (with_retry-fits now (t id) (v id)) v

pub Replay-IsValid :
    {t₀ t : Table} {log : Log} → Replay t₀ log t → All IsShapedAct log → IsValid t₀ → IsValid t
Replay-IsValid start h v = v
Replay-IsValid (applied {t} s r e) h v = apply-IsValid s t h.0 (Replay-IsValid e h.1 v)
Replay-IsValid (refused s _ e) h v = Replay-IsValid e h.1 v
Replay-IsValid (passed a _ e) h v = Replay-IsValid e h.1 v

pub IsShapedAct-IsFree : IsFree IsShapedAct
IsShapedAct-IsFree (executed s r) h = cc
IsShapedAct-IsFree _ h = tt

-- The PostgreSQL repository stores rows that fit.
pub new_job_repository-Stores : (o : Outside) → Stores IsShapedAct (new_job_repository o)
unfolding new_job_repository
new_job_repository-Stores o = record {
  to_pending = λ job h. record { at = λ log. more _ h same };
  to_processing = λ id. record { at = λ log. more _ (tt, tt, tt) (more _ tt same) };
  to_completed = λ id path. record { at = λ log. more _ (tt, tt, tt) (more _ tt same) };
  to_failed = λ id text. record { at = λ log. more _ (tt, tt, tt) (more _ tt same) };
  increment_retry = λ id. record { at = λ log. more _ tt (more _ tt same) };
}
