-- ===== src/Middleware/RateLimit.antt =====
-- `RateLimiter`, `getLimiter` cut where the read lock is given back, and `RateLimit`.
use pdf_generator.Prelude.{update_key, ℕ, suc, String, Bool, [], Option, none, some, if◌then◌else◌}
use pdf_generator.Handler.Response.{Response, refuse}

-- `visitors` is the map, `next` the address of the next limiter that is made.
pub record RateLimiter : Type 0 where
  pub visitors : String → Option ℕ
  pub next : ℕ

unfoldable pub new_rate_limiter : RateLimiter
new_rate_limiter = record { visitors = λ _. none; next = 0 }

-- `getLimiter`: the part under the write lock, with its second look.
unfoldable pub insert_limiter : RateLimiter → String → ℕ × RateLimiter
insert_limiter rl key = elim (rl.visitors key) [
  | some limiter ↦ (limiter, rl)
  | none ↦
      (rl.next, record { visitors = update_key rl.visitors key (some rl.next); next = suc rl.next })
]

-- `getLimiter` with nothing in between.
unfoldable pub get_limiter : RateLimiter → String → ℕ × RateLimiter
get_limiter rl key = elim (rl.visitors key) [
  | some limiter ↦ (limiter, rl)
  | none ↦ insert_limiter rl key
]

-- The user where the request has one, and the address of the client otherwise.
abbrev pub limit_key : String → Option String → String
limit_key client_ip none = client_ip
limit_key client_ip (some user_id) = user_id

-- `RateLimit`: the refusal, or `none` where the request goes on. `allow` is `Allow()`.
unfoldable pub rate_limit :
    (ℕ → Bool) → RateLimiter → String → Option String → Option Response × RateLimiter
rate_limit allow rl client_ip user_id =
    let (limiter, rl') = get_limiter rl (limit_key client_ip user_id) in
    (if allow limiter then none else some (refuse 429 "rate limit exceeded" []), rl')
