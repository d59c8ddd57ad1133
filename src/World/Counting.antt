-- ===== src/World/Counting.antt =====
-- How many acts of a kind an action adds to the log: none, or exactly one. The rules follow the
-- shape of a do block; a kind is a Boolean test on acts.
use pdf_generator.Prelude.{suc, ◌≡◌, ◌∙◌, Bool, true, false, ap, if◌then◌else◌, count_if}
use pdf_generator.World.{Act, Log, ◌>>=◌, ◌>>◌, pure}

module _ {ℓ} {A : Type ℓ} where
  pub record Silent (kind : Act → Bool) (m : Log → A × Log) : Type ℓ where
    pub at : (log : Log) → count_if kind (m log).1 ≡ count_if kind log

  pub record Once (kind : Act → Bool) (m : Log → A × Log) : Type ℓ where
    pub at : (log : Log) → count_if kind (m log).1 ≡ suc (count_if kind log)

module _ {ℓ} {A : Type ℓ} {kind : Act → Bool} where
  pub Silent-pure : (a : A) → Silent kind (pure a)
  Silent-pure a = record { at = λ log i. count_if kind log }

  pub Silent-if :
      (b : Bool) {m n : Log → A × Log}
      → Silent kind m
      → Silent kind n
      → Silent kind (if b then m else n)
  Silent-if true s t = s
  Silent-if false s t = t

module _ {ℓ κ} {A : Type ℓ} {B : Type κ} {kind : Act → Bool} where
  pub Silent-bind :
      {m : Log → A × Log} {f : A → Log → B × Log}
      → Silent kind m
      → ((a : A) → Silent kind (f a))
      → Silent kind (m >>= f)
  Silent-bind {m} s t = record { at = λ log. (t (m log).0).at (m log).1 ∙ s.at log }

  pub Silent-then :
      {m : Log → A × Log} {n : Log → B × Log} → Silent kind m → Silent kind n → Silent kind (m >> n)
  Silent-then {m} s t = record { at = λ log. t.at (m log).1 ∙ s.at log }

  pub Once-bind_first :
      {m : Log → A × Log} {f : A → Log → B × Log}
      → Once kind m
      → ((a : A) → Silent kind (f a))
      → Once kind (m >>= f)
  Once-bind_first {m} s t = record { at = λ log. (t (m log).0).at (m log).1 ∙ s.at log }

  pub Once-then_first :
      {m : Log → A × Log} {n : Log → B × Log} → Once kind m → Silent kind n → Once kind (m >> n)
  Once-then_first {m} s t = record { at = λ log. t.at (m log).1 ∙ s.at log }

  pub Once-bind_last :
      {m : Log → A × Log} {f : A → Log → B × Log}
      → Silent kind m
      → ((a : A) → Once kind (f a))
      → Once kind (m >>= f)
  Once-bind_last {m} s t = record { at = λ log. (t (m log).0).at (m log).1 ∙ ap suc (s.at log) }

pub ruleset counting_rules = (
  Silent-pure, Silent-if, Silent-bind, Silent-then, Once-bind_first, Once-then_first,
  Once-bind_last,
)
