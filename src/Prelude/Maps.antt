-- ===== src/Prelude/Maps.antt =====
-- A function changed at one argument: a store by address, and a map by text.
use Prim.Native.Nat.{ℕ}
use Prim.Native.String.{String}
use text.Mathlib.Text.{◌==◌ as str_eq}
use pdf_generator.Prelude.Tests.{◌==◌, if◌then◌else◌}

abbrev pub update {ℓ} : {A : Type ℓ} → (ℕ → A) → ℕ → A → ℕ → A
update f c v i = if c == i then v else f i

abbrev pub update_key {ℓ} : {A : Type ℓ} → (String → A) → String → A → String → A
update_key f k v j = if str_eq k j then v else f j
