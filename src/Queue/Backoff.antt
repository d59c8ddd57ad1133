-- ===== src/Queue/Backoff.antt =====
-- The delays between the attempts of `handleReconnect`.
use native.Mathlib.Nat.{pow-succ'}
use pdf_generator.Prelude.{ℕ, zero, suc, ◌*◌, ◌^◌, ◌≡◌, refl, arith, ltb, if◌then◌else◌}
use pdf_generator.Queue.Reconnect.{second, next_backoff}

-- The delay before attempt k, from 0.
abbrev pub delay : ℕ → ℕ
delay zero = second
delay (suc k) = next_backoff (delay k)

doubled :
    (p : ℕ)
    → next_backoff (if ltb 30 p then 30 * second else p * second)
      ≡ (if ltb 30 (2 * p) then 30 * second else 2 * p * second)
unfolding next_backoff
doubled p = ground arith

-- The delay before attempt k is 2 ^ k seconds, or 30 seconds where that is more.
pub delay-pow : (k : ℕ) → delay k ≡ (if ltb 30 (2 ^ k) then 30 * second else 2 ^ k * second)
delay-pow zero = refl
delay-pow (suc k) = rw (delay-pow k, doubled (2 ^ k), pow-succ' 2 k)
