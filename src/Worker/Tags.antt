-- ===== src/Worker/Tags.antt =====
-- The settlements of each tag: processing a delivery adds one to its own, and none to the others.
use pdf_generator.Prelude.{
  ℕ, suc, ◌+◌, ◌≡◌, refl, sym, subst, Bool, true, false, ◌||◌, [], ◌∷◌, arith, inl, inr, count_if,
  count_if-either, ◌==◌, Bool-cases,
}
use pdf_generator.World.{Outside, Act, acked, nacked, Log}
use pdf_generator.Repository.Postgres.{new_job_repository}
use pdf_generator.Repository.Quiet.{IsQuiet, new_job_repository-IsQuiet}
use pdf_generator.Worker.Pool.{Pool, Delivery, process_message}
use pdf_generator.Worker.Settlement.{settles, process_message-settles, message-Once}

-- A delivery with the tag.
abbrev pub has_tag : ℕ → Delivery → Bool
has_tag tag d = d.tag == tag

-- The settlements of one of two tags.
abbrev settles_either : ℕ → ℕ → Act → Bool
settles_either tag other a = settles tag a || settles other a

either_apart :
    (tag other : ℕ)
    → (tag == other) ≡ false
    → (a : Act) → settles tag a ≡ true
    → settles other a ≡ false
either_apart tag other apart (acked t _ _) h = ground arith
either_apart tag other apart (nacked t _ _ _) h = ground arith
either_apart tag other apart _ h = cc

module _ (o : Outside) where
  tag-IsQuiet : (tag : ℕ) → IsQuiet (settles tag) (new_job_repository o)
  tag-IsQuiet tag = new_job_repository-IsQuiet o (settles tag) (record {
    no_clock = λ t. refl;
    no_exec = λ s r. refl;
    no_row = λ id r. refl;
    no_rows = λ user_id limit offset r. refl;
  })

  either-IsQuiet : (tag other : ℕ) → IsQuiet (settles_either tag other) (new_job_repository o)
  either-IsQuiet tag other = new_job_repository-IsQuiet o (settles_either tag other) (record {
    no_clock = λ t. refl;
    no_exec = λ s r. refl;
    no_row = λ id r. refl;
    no_rows = λ user_id limit offset r. refl;
  })

-- The two repositories of a pool are the one that `main` makes.
pub record IsWired (o : Outside) (p : Pool) : Type 0 where
  pub repo : p.repo ≡ new_job_repository o
  pub processor_repo : p.processor.repo ≡ new_job_repository o

module _ (o : Outside) (p : Pool) (w : IsWired o p) where
  own_tag :
      (d : Delivery) (log : Log)
      → count_if (settles d.tag) (process_message o p d log).1 ≡ suc (count_if (settles d.tag) log)
  own_tag d log =
      process_message-settles o p d log (subst (IsQuiet _) (sym w.repo) (tag-IsQuiet o d.tag))
        (subst (IsQuiet _) (sym w.processor_repo) (tag-IsQuiet o d.tag))

  both_tags :
      (d : Delivery) (tag : ℕ) (log : Log)
      → count_if (settles_either d.tag tag) (process_message o p d log).1
        ≡ suc (count_if (settles_either d.tag tag) log)
  both_tags d tag log =
      (message-Once o (settles_either d.tag tag)
          (record { no_clock = λ t. refl; no_publish = λ q f. refl; no_pdf = λ path ops f. refl }) p
          d (subst (IsQuiet _) (sym w.repo) (either-IsQuiet o d.tag tag))
          (subst (IsQuiet _) (sym w.processor_repo) (either-IsQuiet o d.tag tag))
          (record { on_ack = λ b f. ground arith; on_nack = λ b c f. ground arith })).at
        log

  pub process_message-tags :
      (d : Delivery) (tag : ℕ) (log : Log)
      → count_if (settles tag) (process_message o p d log).1
        ≡ count_if (has_tag tag) (d ∷ []) + count_if (settles tag) log
  process_message-tags d tag log = elim (Bool-cases (d.tag == tag)) [
    | inl same ↦
        let e : d.tag ≡ tag = ground arith in
        rw same (
          omega (
            arith,
            subst
                (λ t.
                  count_if (settles t) (process_message o p d log).1
                  ≡ suc (count_if (settles t) log))
                e (own_tag d log),
          ))
    | inr apart ↦
        let split =
          count_if-either (settles d.tag) (settles tag) log (either_apart d.tag tag apart) in
        let split' =
          count_if-either (settles d.tag) (settles tag) (process_message o p d log).1
            (either_apart d.tag tag apart) in
        rw apart (omega (arith, split, split', own_tag d log, both_tags d tag log))
  ]
