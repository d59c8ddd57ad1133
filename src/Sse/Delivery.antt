-- ===== src/Sse/Delivery.antt =====
-- Where an event goes: to the open clients of its user that have room, and to no one else.
use native.Mathlib.Decide.{dec_lt}
use pdf_generator.Prelude.{
  update, ℕ, ◌≤◌, ◌<◌, ◌≡◌, ◌≢◌, refl, sym, ap, ◌∙◌, true, false, List, [], ◌∷◌, ◌++◌, some, arith,
  ◌⊎◌, inl, inr, ltb, ◌==◌, length, length-append, Bool-cases,
}
use pdf_generator.Domain.{JobEvent}
use pdf_generator.Sse.Broker.{Client, Broker, members, delete, offer, offer_all, broadcast}

-- Membership in a set.
abbrev pub In : ℕ → List ℕ → Type 0
In c [] = ⊥
In c (x ∷ xs) = (c ≡ x) ⊎ In c xs

pub In-delete : (c x : ℕ) (xs : List ℕ) → In x (delete c xs) → (x ≢ c) × In x xs
In-delete c x [] h = absurd h
In-delete c x (y ∷ ys) h = ground (arith, In-delete c x ys)

-- No client stands twice in a list.
abbrev pub Distinct : List ℕ → Type 0
Distinct [] = Unit
Distinct (x ∷ xs) = (In x xs → ⊥) × Distinct xs

pub Distinct-delete : (c : ℕ) (xs : List ℕ) → Distinct xs → Distinct (delete c xs)
Distinct-delete c [] h = tt
Distinct-delete c (x ∷ xs) (new, h) = elim (Bool-cases (c == x)) [
  | inl same ↦ rw same (Distinct-delete c xs h)
  | inr other ↦ rw other ((λ m. new (In-delete c x xs m).1), Distinct-delete c xs h)
]

-- The channels of events that a broadcast may meet are open.
abbrev pub Open : Broker → List ℕ → Type 0
Open b cs = (c : ℕ) → In c cs → (b.store c).events_closed ≡ false

pub offer_open :
    (size : ℕ) (e : JobEvent) (c : Client)
    → c.events_closed ≡ false
    → (c' : Client) × (offer size e c ≡ some c') × (c'.events_closed ≡ false)
unfolding offer
offer_open size e c h = elim (Bool-cases c.done) [
  | inl gone ↦ (c, rw gone, h)
  | inr here ↦ elim (Bool-cases (ltb (length c.events) size)) [
    | inl room ↦ (record c { events = c.events ++ e ∷ [] }, rw (here, h, room), h)
    | inr full ↦ (c, rw (here, h, full), h)
  ]
]

update_self : (f : ℕ → Client) (c : ℕ) (v : Client) → update f c v c ≡ v
update_self f c v = ground arith

pub update_ne : (f : ℕ → Client) (c : ℕ) (v : Client) (x : ℕ) → c ≢ x → update f c v x ≡ f x
update_ne f c v x h = ground arith

abbrev put : Broker → ℕ → Client → Broker
put b c client = record b { store = update b.store c client }

put-Open :
    (b : Broker) (c : ℕ) (client : Client) (cs : List ℕ)
    → client.events_closed ≡ false
    → Open b cs
    → Open (put b c client) cs
put-Open b c client cs h open_cs x m = ground (arith, open_cs x m)

-- What a broadcast over a list does: each client of the list is offered the event once, and nothing
-- else changes.
pub record Offered (e : JobEvent) (cs : List ℕ) (b b' : Broker) : Type 0 where
  pub inside : (c : ℕ) → In c cs → offer b.client_buffer e (b.store c) ≡ some (b'.store c)
  pub elsewhere : (c : ℕ) → (In c cs → ⊥) → b'.store c ≡ b.store c
  pub same_clients : b'.clients ≡ b.clients
  pub same_active : b'.active ≡ b.active
  pub same_next : b'.next ≡ b.next
  pub same_limit : b'.max_connections ≡ b.max_connections
  pub same_size : b'.client_buffer ≡ b.client_buffer

Offered-cons :
    (e : JobEvent) (c : ℕ) (cs : List ℕ) (b b' : Broker) (client : Client)
    → (In c cs → ⊥)
    → offer b.client_buffer e (b.store c) ≡ some client
    → Offered e cs (put b c client) b'
    → Offered e (c ∷ cs) b b'
Offered-cons e c cs b b' client new sent rest = record {
  inside = λ x m. elim m [
    | inl same ↦
        rw same (sent ∙ ap some (sym (rest.elsewhere c new ∙ update_self b.store c client)))
    | inr later ↦
        rw (update_ne b.store c client x (λ s. new (rw (← s) at later))) at (rest.inside x later)
  ];
  elsewhere = λ x out.
      rest.elsewhere x (λ m. out (inr m)) ∙ update_ne b.store c client x (λ s. out (inl (sym s)));
  same_clients = rest.same_clients;
  same_active = rest.same_active;
  same_next = rest.same_next;
  same_limit = rest.same_limit;
  same_size = rest.same_size;
}

pub offer_all-Offered :
    (e : JobEvent) (cs : List ℕ) (b : Broker)
    → Distinct cs
    → Open b cs
    → (b' : Broker) × (offer_all e cs b ≡ some b') × Offered e cs b b'
unfolding offer_all
offer_all-Offered e [] b distinct open_cs = (
  b,
  refl,
  record {
    inside = λ c m. absurd m;
    elsewhere = λ c m. refl;
    same_clients = refl;
    same_active = refl;
    same_next = refl;
    same_limit = refl;
    same_size = refl;
  },
)
offer_all-Offered e (c ∷ cs) b (new, distinct) open_cs =
    let (client, sent, opened) = offer_open b.client_buffer e (b.store c) (open_cs c (inl refl)) in
    let (b', rest, offered) =
      offer_all-Offered e cs (put b c client) distinct
        (put-Open b c client cs opened (λ x m. open_cs x (inr m))) in
    (b', rw (sent, offer_all) rest, Offered-cons e c cs b b' client new sent offered)

-- A broadcast offers the event once to each client of its user.
pub broadcast-Offered :
    (b : Broker) (e : JobEvent)
    → Distinct (members (b.clients e.user_id))
    → Open b (members (b.clients e.user_id))
    → (b' : Broker) × (broadcast b e ≡ some b') × Offered e (members (b.clients e.user_id)) b b'
unfolding broadcast
broadcast-Offered b e distinct open_cs = offer_all-Offered e _ b distinct open_cs

-- An offer that does not panic keeps a buffer within its size, and keeps what waits in it, in
-- order, with at most the event behind it.
pub offer_bounds :
    (size : ℕ) (e : JobEvent) (c c' : Client)
    → length c.events ≤ size
    → offer size e c ≡ some c'
    → (length c'.events ≤ size) × ((c'.events ≡ c.events) ⊎ (c'.events ≡ c.events ++ e ∷ []))
unfolding offer
offer_bounds size e c c' fits sent = ground (arith, length-append c.events (e ∷ []))

-- A client that is not done and whose channel is open either has room and gets the event as its
-- last one, or has a full buffer and stays as it is.
pub offer-receives :
    (size : ℕ) (e : JobEvent) (c : Client)
    → c.done ≡ false
    → c.events_closed ≡ false
    → ((length c.events < size)
        × (offer size e c ≡ some (record c { events = c.events ++ e ∷ [] })))
      ⊎ ((size ≤ length c.events) × (offer size e c ≡ some c))
unfolding offer
offer-receives size e c here opened = elim (dec_lt (length c.events) size) [
  | yes room ↦ inl (room, ground arith)
  | no full ↦ inr (omega arith, ground arith)
]

-- What a broadcast to the clients of a list should do: one that has not left and has room has the event
-- behind those that wait, and everything else is as before.
pub record Delivered (e : JobEvent) (cs : List ℕ) (b b' : Broker) : Type 0 where
  pub received :
      (c : ℕ)
      → In c cs
      → (b.store c).done ≡ false
      → length (b.store c).events < b.client_buffer
      → b'.store c ≡ record (b.store c) { events = (b.store c).events ++ e ∷ [] }
  pub left_out : (c : ℕ) → In c cs → (b.store c).done ≡ true → b'.store c ≡ b.store c
  pub full :
      (c : ℕ) → In c cs → b.client_buffer ≤ length (b.store c).events → b'.store c ≡ b.store c
  pub elsewhere : (c : ℕ) → (In c cs → ⊥) → b'.store c ≡ b.store c
  pub same_rest : b' ≡ record b { store = b'.store }

some_inj : {c c' : Client} → some c ≡ some c' → c ≡ c'
some_inj e = cc

module _ (size : ℕ) (e : JobEvent) (c : Client) (opened : c.events_closed ≡ false) where
  offer_room :
      c.done ≡ false
      → length c.events < size
      → offer size e c ≡ some (record c { events = c.events ++ e ∷ [] })
  unfolding offer
  offer_room here room = ground arith

  offer_left : c.done ≡ true → offer size e c ≡ some c
  unfolding offer
  offer_left gone = rw gone refl

  offer_full : size ≤ length c.events → offer size e c ≡ some c
  unfolding offer
  offer_full full = ground arith

-- Where the clients of the event's user are distinct and have open channels, a broadcast does not
-- panic. Each of them that has not left and has room gets the event, once, behind those that wait; the
-- others, every other client, the map, the count and the next address are as they were.
pub broadcast-Delivered :
    (b : Broker) (e : JobEvent)
    → Distinct (members (b.clients e.user_id))
    → Open b (members (b.clients e.user_id))
    → (b' : Broker) × (broadcast b e ≡ some b') × Delivered e (members (b.clients e.user_id)) b b'
broadcast-Delivered b e distinct open_cs =
    let (b', sent, offered) = broadcast-Offered b e distinct open_cs in
    (
      b',
      sent,
      record {
        received = λ c m here room. some_inj (
            sym (offered.inside c m)
            ∙ offer_room b.client_buffer e (b.store c) (open_cs c m) here room);
        left_out = λ c m gone. some_inj (
            sym (offered.inside c m) ∙ offer_left b.client_buffer e (b.store c) (open_cs c m) gone);
        full = λ c m full. some_inj (
            sym (offered.inside c m) ∙ offer_full b.client_buffer e (b.store c) (open_cs c m) full);
        elsewhere = offered.elsewhere;
        same_rest = λ i. record {
          max_connections = offered.same_limit i;
          client_buffer = offered.same_size i;
          clients = offered.same_clients i;
          active = offered.same_active i;
          store = b'.store;
          next = offered.same_next i;
        };
      },
    )
