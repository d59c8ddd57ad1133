-- ===== src/Sse/Order.antt =====
-- Go ranges over a map in an order that it does not promise: the order does not matter to `broadcast`.
use pdf_generator.Prelude.{ℕ, ◌≡◌, sym, ap, ◌∙◌, List, some, inl, inr, ◌↔◌}
use pdf_generator.Domain.{JobEvent}
use pdf_generator.Sse.Broker.{Client, Broker, members, offer_all, broadcast}
use pdf_generator.Sse.Delivery.{In, Distinct, Open, Offered, offer_all-Offered}
use pdf_generator.Sse.Listen.{In-cases}

-- Two lists with the same clients.
abbrev pub SameClients : List ℕ → List ℕ → Type 0
SameClients cs cs' = (c : ℕ) → In c cs ↔ In c cs'

some_inj : {x y : Client} → some x ≡ some y → x ≡ y
some_inj h = cc

-- A broadcast is determined by which clients its list has.
Offered-store :
    (e : JobEvent) (cs cs' : List ℕ) (b x y : Broker)
    → SameClients cs cs'
    → Offered e cs b x
    → Offered e cs' b y
    → (c : ℕ) → x.store c ≡ y.store c
Offered-store e cs cs' b x y same p q c = elim (In-cases c cs) [
  | inl inside ↦ some_inj (sym (p.inside c inside) ∙ q.inside c ((same c).0 inside))
  | inr outside ↦ p.elsewhere c outside ∙ sym (q.elsewhere c (λ m. outside ((same c).1 m)))
]

-- Brokers that agree in every field, the store client by client.
Broker-eq :
    (x y : Broker)
    → x.max_connections ≡ y.max_connections
    → x.client_buffer ≡ y.client_buffer
    → x.clients ≡ y.clients
    → x.active ≡ y.active
    → ((c : ℕ) → x.store c ≡ y.store c)
    → x.next ≡ y.next
    → x ≡ y
Broker-eq x y limit size clients active store next = λ i. record {
  max_connections = limit i;
  client_buffer = size i;
  clients = clients i;
  active = active i;
  store = λ c. store c i;
  next = next i;
}

Offered-unique :
    (e : JobEvent) (cs cs' : List ℕ) (b x y : Broker)
    → SameClients cs cs'
    → Offered e cs b x
    → Offered e cs' b y
    → x ≡ y
Offered-unique e cs cs' b x y same p q =
    Broker-eq x y (p.same_limit ∙ sym q.same_limit) (p.same_size ∙ sym q.same_size)
      (p.same_clients ∙ sym q.same_clients) (p.same_active ∙ sym q.same_active)
      (Offered-store e cs cs' b x y same p q) (p.same_next ∙ sym q.same_next)

-- Where the clients of the event's user are distinct and have open channels, a loop over the same
-- clients in any other order, each once, ends in the very state in which `broadcast` ends.
pub broadcast-order :
    (b : Broker) (e : JobEvent) (cs : List ℕ)
    → Distinct (members (b.clients e.user_id))
    → Open b (members (b.clients e.user_id))
    → Distinct cs
    → SameClients (members (b.clients e.user_id)) cs
    → offer_all e cs b ≡ broadcast b e
unfolding broadcast
broadcast-order b e cs distinct open_cs distinct' same =
    let (x, sent, p) = offer_all-Offered e _ b distinct open_cs in
    let (y, sent', q) = offer_all-Offered e cs b distinct' (λ c m. open_cs c ((same c).1 m)) in
    sent' ∙ ap some (sym (Offered-unique e _ cs b x y same p q)) ∙ sym sent
