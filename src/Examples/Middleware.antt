-- ===== src/Examples/Middleware.antt =====
-- internal/middleware/rate_limit.go at concrete inputs: two calls for one key that both miss it.
use pdf_generator.Prelude.{ℕ, String, ◌≡◌, ◌↔◌, refl}
use pdf_generator.Middleware.RateLimit.{new_rate_limiter, insert_limiter}
use pdf_generator.Middleware.Visitors.{
  Calls, no_calls, with_call, missed, returned, Reached, at_start, after, miss, insert,
  one_limiter_per_key,
}

abbrev both_missed : Calls
unfolding new_rate_limiter
both_missed =
    with_call (with_call no_calls 0 no_calls.table (missed "ann")) 1 no_calls.table (missed "ann")

abbrev one_inserted : Calls
unfolding new_rate_limiter insert_limiter
one_inserted = with_call both_missed 0 (insert_limiter both_missed.table "ann").1 (returned "ann" 0)

abbrev both_returned : Calls
unfolding new_rate_limiter insert_limiter
both_returned =
    with_call one_inserted 1 (insert_limiter one_inserted.table "ann").1 (returned "ann" 0)

reached : Reached both_returned
unfolding new_rate_limiter insert_limiter
reached =
    after
      (after
        (after (after at_start (miss no_calls 0 "ann" refl refl))
          (miss (with_call no_calls 0 no_calls.table (missed "ann")) 1 "ann" refl refl))
        (insert both_missed 0 "ann" refl))
      (insert one_inserted 1 "ann" refl)

one_limiter_per_key_example : (◌≡◌ {A = ℕ} 0 0) ↔ (◌≡◌ {A = String} "ann" "ann")
unfolding new_rate_limiter insert_limiter
one_limiter_per_key_example = one_limiter_per_key 0 1 "ann" "ann" 0 0 reached refl refl
