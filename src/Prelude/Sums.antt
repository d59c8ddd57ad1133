-- ===== src/Prelude/Sums.antt =====
-- Sums of a function over the numbers below a bound.
use Prim.Native.Nat.{ℕ, zero, suc, ◌+◌, ◌<◌}
use mathlib.Core.Path.{◌≡◌, refl}
use mathlib.Core.Logic.{◌≢◌}
use native.Mathlib.Decide.{dec_lt}
use native.Mathlib.Omega.{arith}
use pdf_generator.Prelude.Maps.{update}

abbrev pub sum_below : (ℕ → ℕ) → ℕ → ℕ
sum_below f zero = 0
sum_below f (suc n) = f n + sum_below f n

pub sum_below-eq :
    (f g : ℕ → ℕ) (n : ℕ) → ((i : ℕ) → i < n → f i ≡ g i) → sum_below f n ≡ sum_below g n
sum_below-eq f g zero h = refl
sum_below-eq f g (suc n) h =
    omega (arith, h n (omega arith), sum_below-eq f g n (λ i lt. h i (omega arith)))

-- A sum in which one term is another.
pub sum_below-change :
    (f g : ℕ → ℕ) (n k : ℕ)
    → k < n
    → ((i : ℕ) → k ≢ i → f i ≡ g i)
    → sum_below f n + g k ≡ sum_below g n + f k
sum_below-change f g zero k lt h = absurd (omega arith)
sum_below-change f g (suc n) k lt h = elim (dec_lt k n) [
  | yes below ↦
      omega (arith, sum_below-change f g n k below h, h n (λ e. absurd (omega (arith, e))))
  | no last ↦ ground (arith, sum_below-eq f g n (λ i small. h i (λ e. absurd (omega (arith, e)))))
]

module _ {ℓ} {A : Type ℓ} (w : A → ℕ) (f : ℕ → A) (k : ℕ) (v : A) where
  pub sum_below-update :
      (n : ℕ)
      → k < n
      → sum_below (λ i. w (update f k v i)) n + w (f k) ≡ sum_below (λ i. w (f i)) n + w v
  sum_below-update n lt =
      ground (arith, sum_below-change (λ i. w (update f k v i)) (λ i. w (f i)) n k lt)

pub sum_below-zero : (f : ℕ → ℕ) (n : ℕ) → ((i : ℕ) → i < n → f i ≡ 0) → sum_below f n ≡ 0
sum_below-zero f zero h = refl
sum_below-zero f (suc n) h =
    omega (arith, h n (omega arith), sum_below-zero f n (λ i lt. h i (omega arith)))

-- A sum that is 0 has no term that is not.
pub sum_below-none : (f : ℕ → ℕ) (n : ℕ) → sum_below f n ≡ 0 → (i : ℕ) → i < n → f i ≡ 0
sum_below-none f zero h i lt = absurd (omega arith)
sum_below-none f (suc n) h i lt = elim (dec_lt i n) [
  | yes below ↦ sum_below-none f n (omega arith) i below
  | no last ↦ ground arith
]
