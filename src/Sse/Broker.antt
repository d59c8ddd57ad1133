-- ===== src/Sse/Broker.antt =====
-- The `Broker` and its operations, cut at the points where another goroutine can come between. A
-- `*Client` is a number, and the store holds the objects; the two channels of a client are its
-- buffer of events, oldest first, and two flags. A negative buffer size, at which `make` panics, is
-- left out, and so is the hand-over to a waiting receiver of a buffer of size 0.
use Prim.Native.String.{String}
use pdf_generator.Prelude.{
  update, update_key, ℕ, suc, Bool, true, false, List, [], ◌∷◌, ◌++◌, Option, none, some,
  if◌then◌else◌, ltb, ◌==◌, length,
}
use pdf_generator.Prelude.Int.{ℤ, pos, negsuc, leb_ℤ, int_add}
use pdf_generator.Go.{Result, ok, err, sentinel, err_sse_max_connections}
use pdf_generator.Domain.{JobEvent}

pub record Client : Type 0 where
  pub user_id : String
  pub events : List JobEvent
  pub done : Bool
  pub events_closed : Bool

-- `clients` is the map of sets: `none` is a missing key. `next` is the next free address.
pub record Broker : Type 0 where
  pub max_connections : ℤ
  pub client_buffer : ℕ
  pub clients : String → Option (List ℕ)
  pub active : ℤ
  pub store : ℕ → Client
  pub next : ℕ

abbrev pub no_client : Client
no_client = record { user_id = ""; events = []; done = false; events_closed = false }

unfoldable pub new_broker : ℤ → ℕ → Broker
new_broker max_conns client_buffer = record {
  max_connections = max_conns;
  client_buffer = client_buffer;
  clients = λ _. none;
  active = pos 0;
  store = λ _. no_client;
  next = 0;
}

abbrev pub active_connections : Broker → ℤ
active_connections b = b.active

-- The set under a key; a missing key has none.
abbrev pub members : Option (List ℕ) → List ℕ
members none = []
members (some cs) = cs

-- `delete` of a set.
abbrev pub delete : ℕ → List ℕ → List ℕ
delete c [] = []
delete c (x ∷ xs) = let rest = delete c xs in if c == x then rest else x ∷ rest

-- `Subscribe`: the test of the limit.
abbrev pub is_full : Broker → Bool
is_full b = leb_ℤ b.max_connections b.active

-- `Subscribe`: `&Client{…}`; its address is the old `next`.
unfoldable pub new_client : Broker → String → Broker
new_client b user_id = record b {
  store = update b.store b.next (record no_client { user_id = user_id });
  next = suc b.next;
}

-- `Subscribe`: the part under the lock.
unfoldable pub register : Broker → ℕ → Broker
register b c =
    let user = (b.store c).user_id in
    record b {
      clients = update_key b.clients user (some (c ∷ delete c (members (b.clients user))));
    }

-- `b.active.Add(1)` and `b.active.Add(-1)`.
unfoldable pub count_up : Broker → Broker
count_up b = record b { active = int_add b.active (pos 1) }

unfoldable pub count_down : Broker → Broker
count_down b = record b { active = int_add b.active (negsuc 0) }

-- `Subscribe` with nothing in between.
unfoldable pub subscribe : Broker → String → Result ℕ × Broker
subscribe b user_id =
    if is_full b
    then (err (sentinel err_sse_max_connections), b)
    else (ok b.next, count_up (register (new_client b user_id) b.next))

-- `Unsubscribe`: `close(client.done)`.
unfoldable pub close_done : Broker → ℕ → Broker
close_done b c = record b { store = update b.store c (record (b.store c) { done = true }) }

-- The map without the client; a set that becomes empty goes with its key.
abbrev pub shrink : Option (List ℕ) → ℕ → Option (List ℕ)
shrink none c = none
shrink (some cs) c = elim (delete c cs) [ [] ↦ none | x ∷ xs ↦ some (x ∷ xs) ]

-- `Unsubscribe`: the part under the lock.
unfoldable pub deregister : Broker → ℕ → Broker
deregister b c =
    let user = (b.store c).user_id in
    record b { clients = update_key b.clients user (shrink (b.clients user) c) }

-- `Unsubscribe`: `close(client.Events)`.
unfoldable pub close_events : Broker → ℕ → Broker
close_events b c = record b {
  store = update b.store c (record (b.store c) { events_closed = true });
}

-- `Unsubscribe` with nothing in between; closing a closed channel panics: `none`.
unfoldable pub unsubscribe : Broker → ℕ → Option Broker
unsubscribe b c =
    if (b.store c).done
    then none
    else if (b.store c).events_closed
    then none
    else some (count_down (close_events (deregister (close_done b c) c) c))

-- One turn of the loop of `broadcast`: a client that is done, or whose buffer is full, is passed
-- over. A send on a closed channel panics: `none`.
unfoldable pub offer : ℕ → JobEvent → Client → Option Client
offer size e c =
    if c.done
    then some c
    else if c.events_closed
    then none
    else if ltb (length c.events) size
    then some (record c { events = c.events ++ e ∷ [] })
    else some c

-- The loop of `broadcast` over the set of one user.
unfoldable pub offer_all : JobEvent → List ℕ → Broker → Option Broker
offer_all e [] b = some b
offer_all e (c ∷ cs) b = elim (offer b.client_buffer e (b.store c)) [
  | none ↦ none
  | some client ↦ offer_all e cs (record b { store = update b.store c client })
]

unfoldable pub broadcast : Broker → JobEvent → Option Broker
broadcast b e = offer_all e (members (b.clients e.user_id)) b

-- The next event of a stream, in the order of arrival.
unfoldable pub receive : Client → Option (JobEvent × Client)
receive c = elim c.events [ [] ↦ none | e ∷ es ↦ some (e, record c { events = es }) ]
