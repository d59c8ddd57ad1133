-- ===== src/Sse/Progress.antt =====
-- A broadcast under way can always end, and so can `Unsubscribe`, which waits for it.
use pdf_generator.Prelude.{
  update, ℕ, ◌≡◌, refl, ap, ◌∙◌, true, List, [], ◌∷◌, none, some, Option-cases, inl, inr, arith,
  String,
}
use pdf_generator.Prelude.Int.{ℤ}
use pdf_generator.Domain.{JobEvent}
use pdf_generator.Sse.Broker.{members, deregister, close_events}
use pdf_generator.Sse.Delivery.{In, offer_open}
use pdf_generator.Sse.System.{
  Phase, leaving, removed, shut, gone, Sys, at_phase, Step, remove, shut_events, uncount, send,
  finish, initial, Reach, here, next,
}
use pdf_generator.Sse.Invariant.{Inv, is_listed}
use pdf_generator.Sse.Safety.{Step-Inv, Reach-Inv, listed-open}

abbrev join : {s t u : Sys} → Reach s t → Reach t u → Reach s u
join r here = r
join r (next r' st) = next (join r r') st

-- A way on which no client changes its phase, to a state without a broadcast.
record Quiet (s : Sys) : Type 0 where
  last : Sys
  path : Reach s last
  inv : Inv last
  over : last.sending ≡ none
  same_phase : last.phase ≡ s.phase

Quiet-step : {s t : Sys} → Step s t → t.phase ≡ s.phase → Quiet t → Quiet s
Quiet-step st same q = record {
  last = q.last;
  path = join (next here st) q.path;
  inv = q.inv;
  over = q.over;
  same_phase = q.same_phase ∙ same;
}

broadcast_ends : (e : JobEvent) (cs : List ℕ) (s : Sys) → Inv s → s.sending ≡ some (e, cs) → Quiet s
broadcast_ends e [] s v q =
    let st = finish s e q in
    record { last = _; path = next here st; inv = Step-Inv st v; over = refl; same_phase = refl }
broadcast_ends e (c ∷ cs) s v q =
    let (owner, mapped) = v.pending e (c ∷ cs) q c (inl refl) in
    let (client, sent, opened) =
      offer_open s.broker.client_buffer e (s.broker.store c) (v.opened c (listed-open _ mapped)) in
    let st = send s e c cs client q sent in
    Quiet-step st refl (broadcast_ends e cs _ (Step-Inv st v) refl)

to_quiet : (s : Sys) → Inv s → Quiet s
to_quiet s v = elim (Option-cases s.sending) [
  | inl idle ↦ record { last = s; path = here; inv = v; over = idle; same_phase = refl }
  | inr ((e, cs), busy) ↦ broadcast_ends e cs s v busy
]

phase_here : (f : ℕ → Phase) (c : ℕ) (p : Phase) → update f c p c ≡ p
phase_here f c p = ground arith

gone_unlisted : {p : Phase} → p ≡ gone → is_listed p ≡ true → ⊥
gone_unlisted e h = cc (rw e at h)

-- In every state that interleaved steps reach, a client that has closed `done` can come to the end of
-- `Unsubscribe`, after the broadcast under way has served its clients, if there is one, and is in no set of
-- the map then: no deadlock.
pub unsubscribe-ends :
    (m : ℤ) (n : ℕ) {s : Sys}
    → Reach (initial m n) s
    → (c : ℕ) → s.phase c ≡ leaving
    → (t : Sys) × Reach s t
      × (t.phase c ≡ gone)
      × ((u : String) → In c (members (t.broker.clients u)) → ⊥)
unsubscribe-ends m n {s} r c leaves =
    let q = to_quiet s (Reach-Inv m n r) in
    let first = remove q.last c (ap (λ f. f c) q.same_phase ∙ leaves) q.over in
    let second =
      shut_events (at_phase q.last c (deregister q.last.broker c) removed) c
        (phase_here q.last.phase c removed) in
    let third =
      uncount
        (at_phase (at_phase q.last c (deregister q.last.broker c) removed) c
          (close_events (deregister q.last.broker c) c) shut)
        c (phase_here (update q.last.phase c removed) c shut) in
    let v = Step-Inv third (Step-Inv second (Step-Inv first q.inv)) in
    (
      _,
      next (next (next q.path first) second) third,
      phase_here (update (update q.last.phase c removed) c shut) c gone,
      λ u inside.
          gone_unlisted (phase_here (update (update q.last.phase c removed) c shut) c gone)
            (v.listed u c inside).1,
    )
