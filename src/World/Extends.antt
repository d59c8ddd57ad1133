-- ===== src/World/Extends.antt =====
-- Which acts an action may add to the log: `Only P m` says that each of them satisfies P.
use mathlib.Core.List.{Memᴰ}
use pdf_generator.Prelude.{All, Bool, true, false, ◌∷◌, ◌⊎◌, inl, inr, refl, if◌then◌else◌, ◌≡◌}
use pdf_generator.World.{Act, Log, ◌>>=◌, ◌>>◌, pure}

pub data Extends (P : Act → Type 0) (log : Log) : Log → Type 0 where
  same : Extends P log log
  more : {log' : Log} (a : Act) → P a → Extends P log log' → Extends P log (a ∷ log')

module _ {P : Act → Type 0} where
  pub Extends-trans :
      {log log' log'' : Log} → Extends P log log' → Extends P log' log'' → Extends P log log''
  Extends-trans e same = e
  Extends-trans e (more a p e') = more a p (Extends-trans e e')

  -- An act of the longer log is old, or satisfies P.
  pub Extends-mem : {log log' : Log} {a : Act} → Extends P log log' → Memᴰ a log' → Memᴰ a log ⊎ P a
  Extends-mem same m = inl m
  Extends-mem (more b p e) (Memᴰ.head q) = inr (rw q p)
  Extends-mem (more b p e) (Memᴰ.tail m) = Extends-mem e m

module _ {ℓ} {A : Type ℓ} where
  pub record Only (P : Act → Type 0) (m : Log → A × Log) : Type ℓ where
    pub at : (log : Log) → Extends P log (m log).1

module _ {ℓ} {A : Type ℓ} {P : Act → Type 0} where
  pub Only-pure : (a : A) → Only P (pure a)
  Only-pure a = record { at = λ log. same }

  pub Only-if :
      (b : Bool) {m n : Log → A × Log}
      → (b ≡ true → Only P m)
      → (b ≡ false → Only P n)
      → Only P (if b then m else n)
  Only-if true s t = s refl
  Only-if false s t = t refl

module _ {ℓ κ} {A : Type ℓ} {B : Type κ} {P : Act → Type 0} where
  pub Only-bind :
      {m : Log → A × Log} {f : A → Log → B × Log}
      → Only P m
      → ((a : A) → Only P (f a))
      → Only P (m >>= f)
  Only-bind {m} s t = record { at = λ log. Extends-trans (s.at log) ((t (m log).0).at (m log).1) }

  pub Only-then : {m : Log → A × Log} {n : Log → B × Log} → Only P m → Only P n → Only P (m >> n)
  Only-then {m} s t = record { at = λ log. Extends-trans (s.at log) (t.at (m log).1) }

-- What holds of every act of a log holds of every act of a longer one.
pub Extends-All : {P : Act → Type 0} {log log' : Log} → Extends P log log' → All P log → All P log'
Extends-All same h = h
Extends-All (more a p e) h = (p, Extends-All e h)
