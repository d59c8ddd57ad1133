-- ===== src/Middleware/Visitors.antt =====
-- The limiters that overlapping calls of `getLimiter` return.
use text.Mathlib.TextEquality.{eq_iff}
use pdf_generator.Prelude.{
  update_key, ℕ, suc, ◌<◌, String, ◌≡◌, ◌↔◌, sym, ap, ◌∙◌, none, some, arith, if◌then◌else◌, ◌==◌,
  inl, inr, Option-cases,
}
use pdf_generator.Middleware.RateLimit.{RateLimiter, new_rate_limiter, insert_limiter}

-- How far a call has come: not begun, missed the key under the read lock, returned a limiter.
pub data Call : Type 0 where
  idle : Call
  missed : String → Call
  returned : String → ℕ → Call

pub record Calls : Type 0 where
  pub table : RateLimiter
  pub call : ℕ → Call

abbrev pub with_call : Calls → ℕ → RateLimiter → Call → Calls
with_call s i rl c = record { table = rl; call = λ j. if i == j then c else s.call j }

pub data CallStep : Calls → Calls → Type 0 where
  hit :
      (s : Calls) (i : ℕ) (key : String) (limiter : ℕ)
      → s.call i ≡ idle
      → s.table.visitors key ≡ some limiter
      → CallStep s (with_call s i s.table (returned key limiter))
  miss :
      (s : Calls) (i : ℕ) (key : String)
      → s.call i ≡ idle
      → s.table.visitors key ≡ none
      → CallStep s (with_call s i s.table (missed key))
  insert :
      (s : Calls) (i : ℕ) (key : String)
      → s.call i ≡ missed key
      → CallStep s (
          with_call s i
            (insert_limiter s.table key).1
            (returned key (insert_limiter s.table key).0))

abbrev pub no_calls : Calls
no_calls = record { table = new_rate_limiter; call = λ _. idle }

pub data Reached : Calls → Type 0 where
  at_start : Reached no_calls
  after : {s t : Calls} → Reached s → CallStep s t → Reached t

-- Every limiter of the map is old, no two keys share one, and a returned limiter is in the map.
record IsTable (s : Calls) : Type 0 where
  old : (key : String) (l : ℕ) → s.table.visitors key ≡ some l → l < s.table.next
  own :
      (key key' : String) (l : ℕ)
      → s.table.visitors key ≡ some l
      → s.table.visitors key' ≡ some l
      → key ≡ key'
  kept : (i : ℕ) (key : String) (l : ℕ) → s.call i ≡ returned key l → s.table.visitors key ≡ some l

hit-IsTable :
    (s : Calls) (i : ℕ) (key : String) (limiter : ℕ)
    → s.table.visitors key ≡ some limiter
    → IsTable s
    → IsTable (with_call s i s.table (returned key limiter))
hit-IsTable s i key limiter e v = record {
  old = v.old;
  own = v.own;
  kept = λ j k l h. ground (arith, v.kept j k l);
}

miss-IsTable :
    (s : Calls) (i : ℕ) (key : String) → IsTable s → IsTable (with_call s i s.table (missed key))
miss-IsTable s i key v = record {
  old = v.old;
  own = v.own;
  kept = λ j k l h. ground (arith, v.kept j k l);
}

-- The table with a new limiter under a key.
abbrev extended : RateLimiter → String → RateLimiter
extended rl key = record {
  visitors = update_key rl.visitors key (some rl.next);
  next = suc rl.next;
}

extended-IsTable :
    (s : Calls) (i : ℕ) (key : String)
    → s.table.visitors key ≡ none
    → IsTable s
    → IsTable (with_call s i (extended s.table key) (returned key s.table.next))
extended-IsTable s i key e v = record {
  old = λ k l h. ground (arith, v.old k l);
  own = λ k k' l h h'.
      ground (arith, v.old k l, v.old k' l, v.own k k' l, eq_iff key k, eq_iff key k');
  kept = λ j k l h. ground (arith, v.kept j k l, eq_iff key k, e);
}

step-IsTable : {s t : Calls} → CallStep s t → IsTable s → IsTable t
unfolding insert_limiter
step-IsTable (hit s i key limiter idle_ e) v = hit-IsTable s i key limiter e v
step-IsTable (miss s i key idle_ e) v = miss-IsTable s i key v
step-IsTable (insert s i key missed_) v = elim (Option-cases (s.table.visitors key)) [
  | inl e ↦ rw (e, insert_limiter) (extended-IsTable s i key e v)
  | inr (limiter, e) ↦ rw (e, insert_limiter) (hit-IsTable s i key limiter e v)
]

reached-IsTable : {s : Calls} → Reached s → IsTable s
unfolding new_rate_limiter
reached-IsTable at_start = record {
  old = λ key l h. cc;
  own = λ key key' l h h'. cc;
  kept = λ i key l h. cc;
}
reached-IsTable (after r step) = step-IsTable step (reached-IsTable r)

some_inj : {l l' : ℕ} → some l ≡ some l' → l ≡ l'
some_inj h = cc

-- However calls of `getLimiter` overlap, two that have returned have the same limiter exactly where
-- they were made for the same key.
pub one_limiter_per_key :
    {s : Calls} (i j : ℕ) (key key' : String) (l l' : ℕ)
    → Reached s
    → s.call i ≡ returned key l
    → s.call j ≡ returned key' l'
    → (l ≡ l') ↔ (key ≡ key')
one_limiter_per_key {s} i j key key' l l' r a b =
    let v = reached-IsTable r in
    (
      λ same. v.own key key' l (v.kept i key l a) (rw (sym same) at (v.kept j key' l' b)),
      λ same. some_inj (sym (v.kept i key l a) ∙ ap s.table.visitors same ∙ v.kept j key' l' b),
    )
