-- ===== src/Sse/InOrder.antt =====
-- What reaches a client, and in which order: the steps that send or take, and the whole.
use mathlib.Core.List.{append_assoc}
use text.Mathlib.TextEquality.{eq_iff}
use pdf_generator.Prelude.{
  update, ℕ, ◌≡◌, ◌≢◌, refl, sym, ap, subst, ◌∙◌, List, [], ◌∷◌, ◌++◌, some, arith, String, true,
  ◌⊎◌, inl, inr, Sublistᴰ, Sublistᴰ-nil, Sublistᴰ-keep_both, keep_if, ◌==◌, ==_iff, Bool-cases,
  if◌then◌else◌,
}
use pdf_generator.Prelude.Int.{ℤ}
use pdf_generator.Domain.{JobEvent}
use pdf_generator.Sse.Broker.{Client, offer, receive, new_broker}
use pdf_generator.Sse.Delivery.{In, Distinct, update_ne}
use pdf_generator.Sse.System.{
  Sys, stored, Step, admit, insert, count, leave, remove, shut_events, uncount, start, send,
  send_late, finish, take, initial, Reach, here, next,
}
use pdf_generator.Sse.Invariant.{Inv}
use pdf_generator.Sse.Safety.{Reach-Inv}
use pdf_generator.Sse.Unique.{sent_inj, IsUnique, Reach-IsUnique}
use pdf_generator.Sse.History.{step_broadcast, step_received, broadcast_on, received_on, is_for}
use pdf_generator.Sse.Ordered.{
  IsOrdered, SameView-IsOrdered, IsOrdered-admit, IsOrdered-insert, IsOrdered-count,
  IsOrdered-leave, IsOrdered-remove, IsOrdered-shut, IsOrdered-uncount, IsOrdered-finish,
  IsOrdered-start,
}

offer-events :
    (size : ℕ) (e : JobEvent) (c c' : Client)
    → offer size e c ≡ some c'
    → (c'.user_id ≡ c.user_id) × ((c'.events ≡ c.events) ⊎ (c'.events ≡ c.events ++ e ∷ []))
unfolding offer
offer-events size e c c' h = ground arith

receive-events :
    (c c' : Client) (e : JobEvent)
    → receive c ≡ some (e, c')
    → (c'.user_id ≡ c.user_id) × (c.events ≡ e ∷ c'.events)
unfolding receive
receive-events c c' e h = ground arith

is_for-own : (user_id : String) (e : JobEvent) → user_id ≡ e.user_id → is_for user_id e ≡ true
is_for-own user_id e h = (eq_iff e.user_id user_id).1 (sym h)

module _ (s : Sys) (got : ℕ → List JobEvent) (sent : List JobEvent) (h : IsOrdered s sent got)
    (v : Inv s) where
  -- What one send leaves: the client as it was, or with the event as its last one.
  IsOrdered-send :
      (e : JobEvent) (c : ℕ) (cs : List ℕ) (client : Client)
      → s.sending ≡ some (e, c ∷ cs)
      → Distinct (c ∷ cs)
      → client.user_id ≡ (s.broker.store c).user_id
      → (client.events ≡ (s.broker.store c).events)
        ⊎ (client.events ≡ (s.broker.store c).events ++ e ∷ [])
      → IsOrdered (record (stored s c client) { sending = some (e, cs) }) sent got
  IsOrdered-send e c cs client q (new, distinct) user events = record {
    order = λ x. elim (Bool-cases (c == x)) [
      | inl same ↦ rw same (
          subst (λ y. Sublistᴰ (got y ++ client.events) (events_of client)) ((==_iff c x).0 same)
            served)
      | inr other ↦ rw other (h.order x)
    ];
    pending = λ e' cs' q'.
        let (before, split, rest) = h.pending e (c ∷ cs) q in
        let (same_event, same_rest) = sent_inj q' in
        (
          before,
          rw (← same_event) split,
          λ x m.
              let inside : In x cs = rw same_rest m in
              let other : c ≢ x = λ is_c. new (rw is_c inside) in
              rw (update_ne s.broker.store c client x other) (rest x (inr inside)),
        );
    fresh = λ x p.
        let (_, listed) = v.pending e (c ∷ cs) q c (inl refl) in
        let other : c ≢ x = λ is_c. ground arith in
        rw (update_ne s.broker.store c client x other) (h.fresh x p);
  }
    where
      events_of : Client → List JobEvent
      events_of x = keep_if (is_for x.user_id) sent

      served : Sublistᴰ (got c ++ client.events) (keep_if (is_for client.user_id) sent)
      served =
          let (before, split, rest) = h.pending e (c ∷ cs) q in
          let (owner, listed) = v.pending e (c ∷ cs) q c (inl refl) in
          elim events [
            | inl kept ↦ rw (user, kept) (h.order c)
            | inr added ↦
                rw
                  (
                    user,
                    added,
                    sym (append_assoc (got c) (s.broker.store c).events (e ∷ [])),
                    split,
                  )
                  (Sublistᴰ-keep_both _ e before (is_for-own _ e owner) (rest c (inl refl)))
          ]

  IsOrdered-take :
      (c : ℕ) (e : JobEvent) (client : Client)
      → receive (s.broker.store c) ≡ some (e, client)
      → IsOrdered (stored s c client) sent (λ x. if c == x then got x ++ e ∷ [] else got x)
  IsOrdered-take c e client received =
      let (user, events) = receive-events _ _ _ received in
      SameView-IsOrdered
        (record {
          events = λ x. taken_at x events;
          users = λ x. ground arith;
          same_sending = refl;
          new = λ x p. elim (Bool-cases (c == x)) [
            | inl same ↦ absurd (ground (arith, events, h.fresh x p))
            | inr other ↦ rw other (h.fresh x p)
          ];
        })
        h
    where
      taken_at :
          (x : ℕ)
          → (s.broker.store c).events ≡ e ∷ client.events
          → (if c == x then got x ++ e ∷ [] else got x) ++ (update s.broker.store c client x).events
            ≡ got x ++ (s.broker.store x).events
      taken_at x events = elim (Bool-cases (c == x)) [
        | inl same ↦ rw same (
            append_assoc (got x) (e ∷ []) client.events
            ∙ ap (λ es. got x ++ es)
                (sym events ∙ ap (λ y. (s.broker.store y).events) ((==_iff c x).0 same)))
        | inr other ↦ rw other refl
      ]

Step-IsOrdered :
    {s t : Sys} (st : Step s t) (sent : List JobEvent) (got : ℕ → List JobEvent)
    → Inv s
    → IsUnique s
    → IsOrdered s sent got
    → IsOrdered t (step_broadcast st sent) (λ c. step_received c st (got c))
Step-IsOrdered (admit s user_id room) sent got v u h = IsOrdered-admit s got sent h v user_id
Step-IsOrdered (insert s c p q) sent got v u h = IsOrdered-insert s got sent h c p
Step-IsOrdered (count s c p) sent got v u h = IsOrdered-count s got sent h c p
Step-IsOrdered (leave s c p) sent got v u h = IsOrdered-leave s got sent h c p
Step-IsOrdered (remove s c p q) sent got v u h = IsOrdered-remove s got sent h c p
Step-IsOrdered (shut_events s c p) sent got v u h = IsOrdered-shut s got sent h c p
Step-IsOrdered (uncount s c p) sent got v u h = IsOrdered-uncount s got sent h c p
Step-IsOrdered (start s e q) sent got v u h = IsOrdered-start s got sent h e
Step-IsOrdered (send s e c cs client q offered) sent got v u h =
    let (user, events) = offer-events _ _ _ _ offered in
    IsOrdered-send s got sent h v e c cs client q (u.pending e (c ∷ cs) q) user events
Step-IsOrdered (send_late s e c cs client q offered) sent got v u h =
    let (user, events) = offer-events _ _ _ _ offered in
    IsOrdered-send s got sent h v e c cs _ q (u.pending e (c ∷ cs) q) user events
Step-IsOrdered (finish s e q) sent got v u h = IsOrdered-finish s got sent h
Step-IsOrdered (take s c e client received) sent got v u h =
    IsOrdered-take s got sent h v c e client received

initial-IsOrdered : (m : ℤ) (n : ℕ) → IsOrdered (initial m n) [] (λ _. [])
unfolding new_broker
initial-IsOrdered m n = record {
  order = λ c. Sublistᴰ-nil [];
  pending = λ e cs q. cc;
  fresh = λ c p. (refl, refl);
}

Reach-IsOrdered :
    (m : ℤ) (n : ℕ) {s : Sys} (r : Reach (initial m n) s)
    → IsOrdered s (broadcast_on r) (λ c. received_on c r)
Reach-IsOrdered m n here = initial-IsOrdered m n
Reach-IsOrdered m n (next r st) =
    Step-IsOrdered st (broadcast_on r) (λ c. received_on c r) (Reach-Inv m n r)
      (Reach-IsUnique m n r) (Reach-IsOrdered m n r)

-- In every interleaving, what a client's stream has taken, followed by what waits in its buffer, is the
-- list of the events broadcast so far for its user, in that order, with some left out: no event comes
-- twice, out of turn, or from another user.
pub received-in_order :
    (m : ℤ) (n : ℕ) {s : Sys} (r : Reach (initial m n) s) (c : ℕ)
    → Sublistᴰ
        (received_on c r ++ (s.broker.store c).events)
        (keep_if (is_for (s.broker.store c).user_id) (broadcast_on r))
received-in_order m n r c = (Reach-IsOrdered m n r).order c
