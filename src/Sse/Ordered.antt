-- ===== src/Sse/Ordered.antt =====
-- The order of events at a client: the invariant, and the steps that send nothing.
use pdf_generator.Prelude.{
  update, ℕ, ◌≡◌, refl, sym, ap, ◌∙◌, List, [], ◌∷◌, ◌++◌, Option, none, some, arith, String, true,
  false, Sublistᴰ, Sublistᴰ-nil, Sublistᴰ-keep_later, keep_if, ◌==◌, Bool, if◌then◌else◌,
}
use pdf_generator.Domain.{JobEvent}
use pdf_generator.Sse.Broker.{
  no_client, members, new_client, register, count_up, close_done, deregister, close_events,
  count_down,
}
use pdf_generator.Sse.Delivery.{In}
use pdf_generator.Sse.System.{
  absent, created, registered, live, leaving, removed, shut, gone, Sys, at_phase,
}
use pdf_generator.Sse.Invariant.{Inv}
use pdf_generator.Sse.History.{is_for}

-- What a client's stream has taken, and what waits for it.
abbrev pub offered_to : Sys → (ℕ → List JobEvent) → ℕ → List JobEvent
offered_to s got c = got c ++ (s.broker.store c).events

abbrev pub events_for : Sys → ℕ → List JobEvent → List JobEvent
events_for s c sent = keep_if (is_for (s.broker.store c).user_id) sent

pub record IsOrdered (s : Sys) (sent : List JobEvent) (got : ℕ → List JobEvent) : Type 0 where
  pub order : (c : ℕ) → Sublistᴰ (offered_to s got c) (events_for s c sent)
  -- the clients still to be served have at most what was broadcast before
  pub pending :
      (e : JobEvent) (cs : List ℕ)
      → s.sending ≡ some (e, cs)
      → (before : List JobEvent) × (sent ≡ before ++ e ∷ [])
        × ((c : ℕ) → In c cs → Sublistᴰ (offered_to s got c) (events_for s c before))
  pub fresh : (c : ℕ) → s.phase c ≡ absent → (got c ≡ []) × ((s.broker.store c).events ≡ [])

-- Two states between which nothing is sent.
pub record SameView (s t : Sys) (got got' : ℕ → List JobEvent) : Type 0 where
  pub events : (c : ℕ) → offered_to t got' c ≡ offered_to s got c
  pub users : (c : ℕ) → (t.broker.store c).user_id ≡ (s.broker.store c).user_id
  pub same_sending : t.sending ≡ s.sending
  pub new : (c : ℕ) → t.phase c ≡ absent → (got' c ≡ []) × ((t.broker.store c).events ≡ [])

pub SameView-IsOrdered :
    {s t : Sys} {got got' : ℕ → List JobEvent} {sent : List JobEvent}
    → SameView s t got got'
    → IsOrdered s sent got
    → IsOrdered t sent got'
SameView-IsOrdered {s} {t} {sent} v h = record {
  order = λ c. rw (v.events c, v.users c) (h.order c);
  pending = λ e cs q.
      let (before, split, rest) = h.pending e cs (sym v.same_sending ∙ q) in
      (before, split, λ c m. rw (v.events c, v.users c) (rest c m));
  fresh = v.new;
}

-- A step that changes no buffer, takes nothing and leaves the clients that are not begun alone.
quiet_step :
    (s t : Sys) (got : ℕ → List JobEvent) (sent : List JobEvent)
    → ((c : ℕ) → (t.broker.store c).events ≡ (s.broker.store c).events)
    → ((c : ℕ) → (t.broker.store c).user_id ≡ (s.broker.store c).user_id)
    → t.sending ≡ s.sending
    → ((c : ℕ) → t.phase c ≡ absent → s.phase c ≡ absent)
    → IsOrdered s sent got
    → IsOrdered t sent got
quiet_step s t got sent events users sending absences h =
    SameView-IsOrdered
      (record {
        events = λ c. ap (λ es. got c ++ es) (events c);
        users = users;
        same_sending = sending;
        new = λ c q.
            let (none_got, none_waits) = h.fresh c (absences c q) in
            (none_got, events c ∙ none_waits);
      })
      h

module _ (s : Sys) (got : ℕ → List JobEvent) (sent : List JobEvent) (h : IsOrdered s sent got) where
  pub IsOrdered-insert :
      (c : ℕ)
      → s.phase c ≡ created
      → IsOrdered (at_phase s c (register s.broker c) registered) sent got
  unfolding register
  IsOrdered-insert c p =
      quiet_step s _ got sent (λ x. refl) (λ x. refl) refl (λ x q. ground arith) h

  pub IsOrdered-count :
      (c : ℕ) → s.phase c ≡ registered → IsOrdered (at_phase s c (count_up s.broker) live) sent got
  unfolding count_up
  IsOrdered-count c p = quiet_step s _ got sent (λ x. refl) (λ x. refl) refl (λ x q. ground arith) h

  pub IsOrdered-leave :
      (c : ℕ) → s.phase c ≡ live → IsOrdered (at_phase s c (close_done s.broker c) leaving) sent got
  unfolding close_done
  IsOrdered-leave c p =
      quiet_step s _ got sent (λ x. ground arith) (λ x. ground arith) refl (λ x q. ground arith) h

  pub IsOrdered-remove :
      (c : ℕ)
      → s.phase c ≡ leaving
      → IsOrdered (at_phase s c (deregister s.broker c) removed) sent got
  unfolding deregister
  IsOrdered-remove c p =
      quiet_step s _ got sent (λ x. refl) (λ x. refl) refl (λ x q. ground arith) h

  pub IsOrdered-shut :
      (c : ℕ)
      → s.phase c ≡ removed
      → IsOrdered (at_phase s c (close_events s.broker c) shut) sent got
  unfolding close_events
  IsOrdered-shut c p =
      quiet_step s _ got sent (λ x. ground arith) (λ x. ground arith) refl (λ x q. ground arith) h

  pub IsOrdered-uncount :
      (c : ℕ) → s.phase c ≡ shut → IsOrdered (at_phase s c (count_down s.broker) gone) sent got
  unfolding count_down
  IsOrdered-uncount c p =
      quiet_step s _ got sent (λ x. refl) (λ x. refl) refl (λ x q. ground arith) h

  pub IsOrdered-finish : IsOrdered (record s { sending = none }) sent got
  IsOrdered-finish = record { order = h.order; pending = λ e cs q. cc; fresh = h.fresh }

  pub IsOrdered-start :
      (e : JobEvent)
      → IsOrdered
          (record s { sending = some (e, members (s.broker.clients e.user_id)) })
          (sent ++ e ∷ [])
          got
  IsOrdered-start e = record {
    order = λ c. Sublistᴰ-keep_later _ e sent (h.order c);
    pending = λ e' cs q. (sent, ap (λ x. sent ++ x ∷ []) (event_of q), λ c m. h.order c);
    fresh = h.fresh;
  }
    where
      event_of :
          {e' : JobEvent} {cs cs' : List ℕ}
          → ◌≡◌ {A = Option (JobEvent × List ℕ)} (some (e, cs)) (some (e', cs'))
          → e ≡ e'
      event_of q = cc

module _ (s : Sys) (got : ℕ → List JobEvent) (sent : List JobEvent) (h : IsOrdered s sent got)
    (v : Inv s) where
  pub IsOrdered-admit :
      (user_id : String)
      → IsOrdered (at_phase s s.broker.next (new_client s.broker user_id) created) sent got
  unfolding new_client
  IsOrdered-admit user_id = record {
    order = λ c. carried c sent (h.order c);
    pending = λ e cs q.
        let (before, split, rest) = h.pending e cs q in
        (before, split, λ c m. carried c before (rest c m));
    fresh = λ c q. ground (arith, h.fresh c);
  }
    where
      by_test :
          (b : Bool) (c : ℕ) (xs : List JobEvent)
          → Sublistᴰ (offered_to s got c) (events_for s c xs)
          → (b ≡ true → got c ≡ [])
          → Sublistᴰ
              (got c
                ++ (if b then record no_client { user_id = user_id } else s.broker.store c).events)
              (keep_if
                (is_for
                  (if b then record no_client { user_id = user_id } else s.broker.store c).user_id)
                xs)
      by_test true c xs k none_got = rw (none_got refl) (Sublistᴰ-nil _)
      by_test false c xs k none_got = k

      carried :
          (c : ℕ) (xs : List JobEvent)
          → Sublistᴰ (offered_to s got c) (events_for s c xs)
          → Sublistᴰ
              (got c
                ++ (update s.broker.store s.broker.next
                    (record no_client { user_id = user_id })
                    c).events)
              (keep_if
                (is_for
                  (update s.broker.store s.broker.next
                    (record no_client { user_id = user_id })
                    c).user_id)
                xs)
      carried c xs k =
          by_test (s.broker.next == c) c xs k (λ same. ground (arith, h.fresh c, v.fresh c))
