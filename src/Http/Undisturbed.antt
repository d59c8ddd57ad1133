-- ===== src/Http/Undisturbed.antt =====
-- What a stream keeps of the broker while it runs.
use pdf_generator.Prelude.{
  update, ℕ, ◌≡◌, refl, ap, ◌∙◌, true, List, [], ◌∷◌, some, ◌==◌, arith, Bool-cases, Option-cases,
  inl, inr,
}
use pdf_generator.Domain.{JobEvent}
use pdf_generator.World.{Outside}
use pdf_generator.Sse.Broker.{Client, Broker, receive}
use pdf_generator.Http.Context.{Context}
use pdf_generator.Http.Stream.{Turn, elsewhere, wake, leave, put_client, stream_loop}

-- The subscription of a client is as it was, and so are the map and the count.
pub record Keeps (client : ℕ) (b b' : Broker) : Type 0 where
  pub clients : b'.clients ≡ b.clients
  pub active : b'.active ≡ b.active
  pub user : (b'.store client).user_id ≡ (b.store client).user_id
  pub done : (b'.store client).done ≡ (b.store client).done
  pub closed : (b'.store client).events_closed ≡ (b.store client).events_closed

-- Other goroutines keep this while the handler waits.
abbrev pub AllKeep : ℕ → Broker → List Turn → Type 0
AllKeep client b [] = Unit
AllKeep client b (elsewhere b' ∷ turns) = Keeps client b b' × AllKeep client b turns
AllKeep client b (wake ∷ turns) = AllKeep client b turns
AllKeep client b (leave ∷ turns) = AllKeep client b turns

pub self_eq : (n : ℕ) → (n == n) ≡ true
self_eq n = ground arith

-- Taking an event leaves the subscription as it is.
receive_same :
    (c c' : Client) (e : JobEvent)
    → receive c ≡ some (e, c')
    → (c'.user_id ≡ c.user_id) × (c'.done ≡ c.done) × (c'.events_closed ≡ c.events_closed)
unfolding receive
receive_same c c' e h = ground arith

put_client-Keeps :
    (client : ℕ) (b b' : Broker) (e : JobEvent) (state : Client)
    → Keeps client b b'
    → receive (b'.store client) ≡ some (e, state)
    → Keeps client b (put_client b' client state)
put_client-Keeps client b b' e state k h =
    let (user, done, closed) = receive_same (b'.store client) state e h in
    record {
      clients = k.clients;
      active = k.active;
      user = ap (λ x. x.user_id) (update_self client state) ∙ user ∙ k.user;
      done = ap (λ x. x.done) (update_self client state) ∙ done ∙ k.done;
      closed = ap (λ x. x.events_closed) (update_self client state) ∙ closed ∙ k.closed;
    }
  where
    update_self : (c : ℕ) (v : Client) → update b'.store c v c ≡ v
    update_self c v = rw (self_eq c) refl

pub stream_loop-Keeps :
    (o : Outside) (client : ℕ) (b₀ : Broker) (turns : List Turn) (c : Context) (b : Broker)
    → AllKeep client b₀ turns
    → Keeps client b₀ b
    → Keeps client b₀ (stream_loop o client turns c b).1
unfolding stream_loop
stream_loop-Keeps o client b₀ [] c b all k = k
stream_loop-Keeps o client b₀ (elsewhere b' ∷ turns) c b (this, all) k =
    stream_loop-Keeps o client b₀ turns c b' all this
stream_loop-Keeps o client b₀ (leave ∷ turns) c b all k = k
stream_loop-Keeps o client b₀ (wake ∷ turns) c b all k =
    elim (Option-cases (receive (b.store client))) [
      | inl nothing ↦ elim (Bool-cases (b.store client).events_closed) [
        | inl shut ↦ rw (nothing, shut, stream_loop) k
        | inr opened ↦
            rw (nothing, opened, stream_loop) (stream_loop-Keeps o client b₀ turns c b all k)
      ]
      | inr (taken, h) ↦
          rw (h, stream_loop)
            (stream_loop-Keeps o client b₀ turns _ _ all
              (put_client-Keeps client b₀ b taken.0 taken.1 k h))
    ]

pub Keeps-refl : (client : ℕ) (b : Broker) → Keeps client b b
Keeps-refl client b = record {
  clients = refl;
  active = refl;
  user = refl;
  done = refl;
  closed = refl;
}
