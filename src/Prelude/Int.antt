-- ===== src/Prelude/Int.antt =====
-- Go's `int`: an integer, with the wrap-around of 64 bits written out at each addition.
use Prim.Native.Nat.{ℕ, suc, ◌+◌, ◌-◌, ◌^◌, ◌≤◌}
use mathlib.Core.Bool.{Bool}
use native.Mathlib.Omega.{arith}
use pdf_generator.Prelude.Tests.{ltb, leb, if◌then◌else◌}

-- `negsuc n` is -(n + 1).
pub data ℤ : Type 0 where
  pos : ℕ → ℤ
  negsuc : ℕ → ℤ

abbrev pub pos_part : ℤ → ℕ
pos_part (pos n) = n
pos_part (negsuc n) = 0

abbrev pub neg_part : ℤ → ℕ
neg_part (pos n) = 0
neg_part (negsuc n) = suc n

abbrev pub sub_ℕ : ℕ → ℕ → ℤ
sub_ℕ a b = if leb b a then pos (a - b) else negsuc (b - a - 1)

infix 50 ◌≤ℤ◌
abbrev pub ◌≤ℤ◌ : ℤ → ℤ → Type 0
a ≤ℤ b = pos_part a + neg_part b ≤ pos_part b + neg_part a

abbrev pub leb_ℤ : ℤ → ℤ → Bool
leb_ℤ a b = leb (pos_part a + neg_part b) (pos_part b + neg_part a)

abbrev pub ltb_ℤ : ℤ → ℤ → Bool
ltb_ℤ a b = ltb (pos_part a + neg_part b) (pos_part b + neg_part a)

-- The values of an `int64`.
abbrev pub IsInt64 : ℤ → Type 0
IsInt64 (pos n) = suc n ≤ 2 ^ 63
IsInt64 (negsuc n) = suc n ≤ 2 ^ 63

-- A sum of two `int64` values, brought back into range by 2^64.
abbrev pub wrap64 : ℤ → ℤ
wrap64 (pos n) = if ltb n (2 ^ 63) then pos n else sub_ℕ n (2 ^ 64)
wrap64 (negsuc n) = if ltb n (2 ^ 63) then negsuc n else sub_ℕ (2 ^ 64) (suc n)

unfoldable pub int_add : ℤ → ℤ → ℤ
int_add a b = wrap64 (sub_ℕ (pos_part a + pos_part b) (neg_part a + neg_part b))

pub int_add-IsInt64 : (a b : ℤ) → IsInt64 a → IsInt64 b → IsInt64 (int_add a b)
unfolding int_add
int_add-IsInt64 (pos a) (pos b) h k = ground arith
int_add-IsInt64 (pos a) (negsuc b) h k = ground arith
int_add-IsInt64 (negsuc a) (pos b) h k = ground arith
int_add-IsInt64 (negsuc a) (negsuc b) h k = ground arith
