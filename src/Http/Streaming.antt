-- ===== src/Http/Streaming.antt =====
-- What a stream leaves behind in the broker.
use text.Mathlib.Text.{◌==◌ as str_eq}
use text.Mathlib.TextEquality.{eq_iff}
use text.Mathlib.TextPositions.{eq_refl}
use pdf_generator.Prelude.{
  update_key, ℕ, suc, ◌<◌, ◌^◌, String, ◌≡◌, refl, ap, ◌∙◌, false, List, [], ◌∷◌, Option, none,
  some, arith, Bool-cases, inl, inr,
}
use pdf_generator.Prelude.Int.{pos, negsuc, int_add}
use pdf_generator.World.{Outside}
use pdf_generator.Sse.Broker.{
  no_client, Broker, members, delete, shrink, is_full, subscribe, unsubscribe, new_client, register,
  count_up, close_done, deregister, close_events, count_down,
}
use pdf_generator.Http.Context.{Context, Server}
use pdf_generator.Http.Stream.{
  Turn, stream_loop, end_stream, subscribed, stream, stream_headers, send_event,
}
use pdf_generator.Http.Undisturbed.{Keeps, AllKeep, self_eq, stream_loop-Keeps, Keeps-refl}

-- `Unsubscribe` of a client with open channels.
record Left (client : ℕ) (b left : Broker) : Type 0 where
  went : unsubscribe b client ≡ some left
  active : left.active ≡ int_add b.active (negsuc 0)
  clients :
      left.clients
      ≡ update_key b.clients
          (b.store client).user_id
          (shrink (b.clients (b.store client).user_id) client)

unsubscribe-Left :
    (client : ℕ) (b : Broker)
    → (b.store client).done ≡ false
    → (b.store client).events_closed ≡ false
    → (left : Broker) × Left client b left
unfolding unsubscribe count_down close_events deregister close_done
unsubscribe-Left client b done closed = (
  count_down (close_events (deregister (close_done b client) client) client),
  record { went = rw (done, closed) refl; active = refl; clients = rw (self_eq client) refl },
)

members-shrink : (cs : List ℕ) (c : ℕ) → members (shrink (some cs) c) ≡ delete c cs
members-shrink cs c = by_rest (delete c cs)
  where
    by_rest : (ds : List ℕ) → members (elim ds [ [] ↦ none | x ∷ xs ↦ some (x ∷ xs) ]) ≡ ds
    by_rest [] = refl
    by_rest (x ∷ xs) = refl

down_up : (n : ℕ) → suc n < 2 ^ 63 → int_add (int_add (pos n) (pos 1)) (negsuc 0) ≡ pos n
unfolding int_add
down_up n h = ground arith

delete_again : (c : ℕ) (ms : List ℕ) → delete c ms ≡ ms → delete c (c ∷ delete c ms) ≡ ms
delete_again c ms fresh = rw (self_eq c) (ap (delete c) fresh ∙ fresh)

-- The set of a user with a new client in it and then out of it again.
members_again :
    (clients : String → Option (List ℕ)) (user_id u : String) (c : ℕ)
    → delete c (members (clients user_id)) ≡ members (clients user_id)
    → members (
        update_key
          (update_key clients user_id (some (c ∷ delete c (members (clients user_id)))))
          user_id
          (shrink (some (c ∷ delete c (members (clients user_id)))) c)
          u)
      ≡ members (clients u)
members_again clients user_id u c fresh = elim (Bool-cases (str_eq user_id u)) [
  | inl same ↦ rw same (
      members-shrink (c ∷ delete c (members (clients user_id))) c
      ∙ delete_again c (members (clients user_id)) fresh
      ∙ ap (λ v. members (clients v)) ((eq_iff user_id u).0 same))
  | inr differs ↦ rw differs refl
]

-- The broker with a new connection of a user.
unfoldable pub joined : Broker → String → Broker
joined b user_id = count_up (register (new_client b user_id) b.next)

-- The handler of a user for whom there is room.
stream-joined :
    (o : Outside) (turns : List Turn) (c : Context) (s : Server) (user_id : String)
    → c.user_id ≡ some user_id
    → is_full s.broker ≡ false
    → stream o turns c s
      ≡ end_stream s.broker.next
          (stream_loop o s.broker.next turns
            (send_event "connected" "SSE connection established" (stream_headers c))
            (joined s.broker user_id))
          s
unfolding stream subscribed subscribe joined
stream-joined o turns c s user_id user room = rw (user, room) refl

joined_client :
    (b : Broker) (user_id : String)
    → ((joined b user_id).store b.next) ≡ record no_client { user_id = user_id }
unfolding joined count_up register new_client
joined_client b user_id = rw (self_eq b.next) refl

joined_clients :
    (b : Broker) (user_id : String)
    → (joined b user_id).clients
      ≡ update_key b.clients user_id (some (b.next ∷ delete b.next (members (b.clients user_id))))
unfolding joined count_up register new_client
joined_clients b user_id = rw (self_eq b.next) refl

end_left :
    (client : ℕ) (x : Context × Broker) (s : Server) (left : Broker)
    → unsubscribe x.1 client ≡ some left
    → end_stream client x s ≡ ((none, x.0), record s { broker = left })
unfolding end_stream
end_left client (c, b) s left h = rw (h, end_stream) refl

update_key_self :
    (f : String → Option (List ℕ)) (k : String) (v : Option (List ℕ)) → update_key f k v k ≡ v
update_key_self f k v = rw (eq_refl k) refl

joined_active :
    (b : Broker) (user_id : String) → (joined b user_id).active ≡ int_add b.active (pos 1)
unfolding joined count_up register new_client
joined_active b user_id = refl

-- What unsubscribing makes of a broker that kept a new connection.
members-Left :
    (b b' left : Broker) (user_id u : String)
    → delete b.next (members (b.clients user_id)) ≡ members (b.clients user_id)
    → Keeps b.next (joined b user_id) b'
    → Left b.next b' left
    → members (left.clients u) ≡ members (b.clients u)
members-Left b b' left user_id u fresh k l =
    ap (λ f. members (f u)) l.clients
    ∙ ap (λ v. members (update_key b'.clients v (shrink (b'.clients v) b.next) u))
        (k.user ∙ ap (λ x. x.user_id) (joined_client b user_id))
    ∙ ap (λ f. members (update_key f user_id (shrink (f user_id) b.next) u))
        (k.clients ∙ joined_clients b user_id)
    ∙ ap
        (λ v. members (
          update_key
            (update_key b.clients user_id
              (some (b.next ∷ delete b.next (members (b.clients user_id)))))
            user_id (shrink v b.next) u))
        (update_key_self b.clients user_id _)
    ∙ members_again b.clients user_id u b.next fresh

-- Where there is room, the number of connections is below the bound of `int64` and the address of the new
-- client is in no set, a stream of a user ends without a panic and gives back what it took, if the
-- other goroutines leave its subscription, the map and the count as they find them: the number of
-- connections is as before, and so is the set of connections of each user.
pub stream-restores :
    (o : Outside) (turns : List Turn) (c : Context) (s : Server) (user_id u : String) (n : ℕ)
    → c.user_id ≡ some user_id
    → is_full s.broker ≡ false
    → s.broker.active ≡ pos n
    → suc n < 2 ^ 63
    → delete s.broker.next (members (s.broker.clients user_id)) ≡ members (s.broker.clients user_id)
    → AllKeep s.broker.next (joined s.broker user_id) turns
    → ((stream o turns c s).0.0 ≡ none)
      × ((stream o turns c s).1.broker.active ≡ pos n)
      × (members ((stream o turns c s).1.broker.clients u) ≡ members (s.broker.clients u))
stream-restores o turns c s user_id u n user room count small fresh all =
    let b = joined s.broker user_id in
    let x =
      stream_loop o s.broker.next turns
        (send_event "connected" "SSE connection established" (stream_headers c)) b in
    let k = stream_loop-Keeps o s.broker.next b turns _ b all (Keeps-refl s.broker.next b) in
    let new = joined_client s.broker user_id in
    let (left, l) =
      unsubscribe-Left s.broker.next x.1 (k.done ∙ ap (λ y. y.done) new)
        (k.closed ∙ ap (λ y. y.events_closed) new) in
    let whole =
      stream-joined o turns c s user_id user room ∙ end_left s.broker.next x s left l.went in
    (
      ap (λ y. y.0.0) whole,
      ap (λ y. y.1.broker.active) whole
          ∙ l.active
          ∙ ap (λ a. int_add a (negsuc 0))
              (k.active ∙ joined_active s.broker user_id ∙ ap (λ a. int_add a (pos 1)) count)
          ∙ down_up n small,
      ap (λ y. members (y.1.broker.clients u)) whole
          ∙ members-Left s.broker x.1 left user_id u fresh k l,
    )
