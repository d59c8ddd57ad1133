-- ===== src/Sse/Invariant.antt =====
-- What holds between two steps: the invariant, and the steps but for those of a send.
use text.Mathlib.TextEquality.{eq_iff}
use pdf_generator.Prelude.{
  ℕ, ◌≤◌, ◌≡◌, ◌≢◌, refl, Bool, true, false, List, ◌∷◌, Option, none, some, arith, String,
}
use pdf_generator.Prelude.Int.{ℤ}
use pdf_generator.Domain.{JobEvent}
use pdf_generator.Sse.Broker.{
  Client, members, shrink, new_client, register, count_up, close_done, deregister, close_events,
  count_down, new_broker,
}
use pdf_generator.Sse.Delivery.{In, In-delete}
use pdf_generator.Sse.System.{
  Phase, absent, created, registered, live, leaving, removed, shut, gone, Sys, at_phase, stored,
  initial,
}

-- In the map, or at most about to be taken out.
abbrev pub is_listed : Phase → Bool
is_listed registered = true
is_listed live = true
is_listed leaving = true
is_listed _ = false

-- The channel of events exists and is not closed.
abbrev pub is_open : Phase → Bool
is_open absent = false
is_open shut = false
is_open gone = false
is_open _ = true

pub record Inv (s : Sys) : Type 0 where
  pub listed :
      (u : String) (c : ℕ)
      → In c (members (s.broker.clients u))
      → ((s.broker.store c).user_id ≡ u) × (is_listed (s.phase c) ≡ true)
  pub opened : (c : ℕ) → is_open (s.phase c) ≡ true → (s.broker.store c).events_closed ≡ false
  pub pending :
      (e : JobEvent) (cs : List ℕ)
      → s.sending ≡ some (e, cs)
      → (c : ℕ) → In c cs
      → ((s.broker.store c).user_id ≡ e.user_id) × (is_listed (s.phase c) ≡ true)
  pub fresh : (c : ℕ) → s.broker.next ≤ c → s.phase c ≡ absent

pub initial-Inv : (m : ℤ) (n : ℕ) → Inv (initial m n)
unfolding new_broker
initial-Inv m n = record {
  listed = λ u c h. absurd h;
  opened = λ c h. refl;
  pending = λ e cs h. cc;
  fresh = λ c h. refl;
}

pub Inv-admit :
    (s : Sys) (user_id : String)
    → Inv s
    → Inv (at_phase s s.broker.next (new_client s.broker user_id) created)
unfolding new_client
Inv-admit s user_id v = record {
  listed = λ u c m. ground (arith, v.listed u c m, v.fresh s.broker.next);
  opened = λ c h. ground (arith, v.opened c);
  pending = λ e cs h c m. ground (arith, v.pending e cs h c m, v.fresh s.broker.next);
  fresh = λ c h. ground (arith, v.fresh c);
}

pub Inv-insert :
    (s : Sys) (c : ℕ)
    → s.phase c ≡ created
    → s.sending ≡ none
    → Inv s
    → Inv (at_phase s c (register s.broker c) registered)
unfolding register
Inv-insert s c p q v = record {
  listed = λ u x m. ground (
    arith,
    eq_iff (s.broker.store c).user_id u,
    In-delete c x (members (s.broker.clients (s.broker.store c).user_id)),
    v.listed u x,
  );
  opened = λ x h. ground (arith, v.opened x, v.opened c);
  pending = λ e cs h x m. cc;
  fresh = λ x h. ground (arith, v.fresh x);
}

pub Inv-count :
    (s : Sys) (c : ℕ) → s.phase c ≡ registered → Inv s → Inv (at_phase s c (count_up s.broker) live)
unfolding count_up
Inv-count s c p v = record {
  listed = λ u x m. ground (arith, v.listed u x m);
  opened = λ x h. ground (arith, v.opened x, v.opened c);
  pending = λ e cs h x m. ground (arith, v.pending e cs h x m);
  fresh = λ x h. ground (arith, v.fresh x);
}

pub Inv-leave :
    (s : Sys) (c : ℕ)
    → s.phase c ≡ live
    → Inv s
    → Inv (at_phase s c (close_done s.broker c) leaving)
unfolding close_done
Inv-leave s c p v = record {
  listed = λ u x m. ground (arith, v.listed u x m);
  opened = λ x h. ground (arith, v.opened x, v.opened c);
  pending = λ e cs h x m. ground (arith, v.pending e cs h x m);
  fresh = λ x h. ground (arith, v.fresh x);
}

In-shrink :
    (o : Option (List ℕ)) (c x : ℕ) → In x (members (shrink o c)) → (x ≢ c) × In x (members o)
In-shrink none c x h = absurd h
In-shrink (some cs) c x h = ground (arith, In-delete c x cs)

pub Inv-remove :
    (s : Sys) (c : ℕ)
    → s.phase c ≡ leaving
    → s.sending ≡ none
    → Inv s
    → Inv (at_phase s c (deregister s.broker c) removed)
unfolding deregister
Inv-remove s c p q v = record {
  listed = λ u x m. ground (
    arith,
    eq_iff (s.broker.store c).user_id u,
    In-shrink (s.broker.clients (s.broker.store c).user_id) c x,
    v.listed u x,
  );
  opened = λ x h. ground (arith, v.opened x, v.opened c);
  pending = λ e cs h x m. cc;
  fresh = λ x h. ground (arith, v.fresh x);
}

pub Inv-shut :
    (s : Sys) (c : ℕ)
    → s.phase c ≡ removed
    → Inv s
    → Inv (at_phase s c (close_events s.broker c) shut)
unfolding close_events
Inv-shut s c p v = record {
  listed = λ u x m. ground (arith, v.listed u x m);
  opened = λ x h. ground (arith, v.opened x);
  pending = λ e cs h x m. ground (arith, v.pending e cs h x m);
  fresh = λ x h. ground (arith, v.fresh x);
}

pub Inv-uncount :
    (s : Sys) (c : ℕ) → s.phase c ≡ shut → Inv s → Inv (at_phase s c (count_down s.broker) gone)
unfolding count_down
Inv-uncount s c p v = record {
  listed = λ u x m. ground (arith, v.listed u x m);
  opened = λ x h. ground (arith, v.opened x);
  pending = λ e cs h x m. ground (arith, v.pending e cs h x m);
  fresh = λ x h. ground (arith, v.fresh x);
}

pub Inv-start :
    (s : Sys) (e : JobEvent)
    → Inv s
    → Inv (record s { sending = some (e, members (s.broker.clients e.user_id)) })
Inv-start s e v = record {
  listed = v.listed;
  opened = v.opened;
  pending = λ e' cs h x m. ground (arith, v.listed e.user_id x);
  fresh = v.fresh;
}

pub Inv-stored :
    (s : Sys) (c : ℕ) (client : Client)
    → client.user_id ≡ (s.broker.store c).user_id
    → client.events_closed ≡ (s.broker.store c).events_closed
    → Inv s
    → Inv (stored s c client)
Inv-stored s c client same_user same_closed v = record {
  listed = λ u x m. ground (arith, v.listed u x m);
  opened = λ x h. ground (arith, v.opened x h);
  pending = λ e cs h x m. ground (arith, v.pending e cs h x m);
  fresh = v.fresh;
}

pub Inv-sending :
    (s : Sys) (e : JobEvent) (c : ℕ) (cs : List ℕ)
    → s.sending ≡ some (e, c ∷ cs)
    → Inv s
    → Inv (record s { sending = some (e, cs) })
Inv-sending s e c cs q v = record {
  listed = v.listed;
  opened = v.opened;
  pending = λ e' cs' h x m. ground (arith, v.pending e (c ∷ cs) q x);
  fresh = v.fresh;
}
