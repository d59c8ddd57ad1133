-- ===== src/Sse/Limit.antt =====
-- The limit on connections: it holds where calls do not overlap, and not where they do.
use native.Mathlib.Decide.{dec_lt}
use pdf_generator.Prelude.{
  ℕ, zero, suc, ◌^◌, ◌≤◌, ◌<◌, ◌≡◌, refl, ap, ◌∙◌, none, arith, ◌⊎◌, inl, inr, String,
}
use pdf_generator.Prelude.Int.{ℤ, pos, int_add}
use pdf_generator.Go.{ok, err, sentinel, err_sse_max_connections}
use pdf_generator.Sse.Broker.{Broker, new_client, register, count_up, new_broker, subscribe}
use pdf_generator.Sse.System.{
  created, registered, live, Sys, at_phase, admit, insert, count, initial, Reach, here, next,
}

int_add-suc : (n : ℕ) → suc n < 2 ^ 63 → int_add (pos n) (pos 1) ≡ pos (suc n)
unfolding int_add
int_add-suc n h = ground arith

-- Where the count n is at most the limit m, below 2 ^ 63, a call of `Subscribe` that nothing
-- overlaps either finds the limit reached, is refused and changes nothing, or finds room, returns
-- the new client and counts one more.
pub subscribe_limit :
    (b : Broker) (user_id : String) (n m : ℕ)
    → b.active ≡ pos n
    → b.max_connections ≡ pos m
    → n ≤ m
    → m < 2 ^ 63
    → ((n ≡ m) × (subscribe b user_id ≡ (err (sentinel err_sse_max_connections), b)))
      ⊎ ((n < m)
          × ((subscribe b user_id).0 ≡ ok b.next)
          × ((subscribe b user_id).1.active ≡ pos (suc n)))
unfolding subscribe new_client register count_up
subscribe_limit b user_id n m active limit within small = elim (dec_lt n m) [
  | yes room ↦ inr (room, ground arith, ground (arith, int_add-suc n))
  | no full ↦ inl (omega arith, ground arith)
]

-- A state in which k requests have passed the test of the limit, and the first j are counted.
record Crowd (m : ℤ) (n k j : ℕ) : Type 0 where
  sys : Sys
  reach : Reach (initial m n) sys
  active : sys.broker.active ≡ pos j
  limit : sys.broker.max_connections ≡ m
  size : sys.broker.next ≡ k
  quiet : sys.sending ≡ none
  waiting : (i : ℕ) → j ≤ i → i < k → sys.phase i ≡ created

admit_all : (m n k : ℕ) → 1 ≤ m → Crowd (pos m) n k 0
unfolding new_broker new_client
admit_all m n zero h = record {
  sys = initial (pos m) n;
  reach = here;
  active = refl;
  limit = refl;
  size = refl;
  quiet = refl;
  waiting = λ i low high. absurd (omega arith);
}
admit_all m n (suc k) h =
    let c = admit_all m n k h in
    record {
      sys = at_phase c.sys c.sys.broker.next (new_client c.sys.broker "") created;
      reach = next c.reach (admit c.sys "" (ground (arith, c.active, c.limit)));
      active = c.active;
      limit = c.limit;
      size = ap suc c.size;
      quiet = c.quiet;
      waiting = λ i low high. ground (arith, c.waiting i, c.size);
    }

serve_all : (m n k j : ℕ) → 1 ≤ m → j ≤ k → k < 2 ^ 63 → Crowd (pos m) n k j
unfolding register count_up
serve_all m n k zero h few small = admit_all m n k h
serve_all m n k (suc j) h few small =
    let c = serve_all m n k j h (omega arith) small in
    let s' = at_phase c.sys j (register c.sys.broker j) registered in
    record {
      sys = at_phase s' j (count_up s'.broker) live;
      reach =
          next (next c.reach (insert c.sys j (c.waiting j (omega arith) few) c.quiet))
            (count s' j (ground arith));
      active = ap (λ a. int_add a (pos 1)) c.active ∙ int_add-suc j (omega arith);
      limit = c.limit;
      size = c.size;
      quiet = c.quiet;
      waiting = λ i low high. ground (arith, c.waiting i);
    }

-- Whatever the limit, from 1 on, a state can be reached in which any number k below 2 ^ 63 of
-- clients are counted.
pub limit_exceeded :
    (m n k : ℕ)
    → 1 ≤ m
    → k < 2 ^ 63
    → (s : Sys) × Reach (initial (pos m) n) s
      × (s.broker.active ≡ pos k)
      × (s.broker.max_connections ≡ pos m)
limit_exceeded m n k h small =
    let c = serve_all m n k k h (omega arith) small in (c.sys, c.reach, c.active, c.limit)
