-- ===== src/Sse/System.antt =====
-- Interleavings of subscribers, leaving clients, readers and the one goroutine that broadcasts. The
-- broadcaster holds the read lock for the whole of a broadcast, so no one takes the write lock then.
use pdf_generator.Prelude.{update, ℕ, ◌≡◌, false, List, [], ◌∷◌, Option, none, some, String}
use pdf_generator.Domain.{JobEvent}
use pdf_generator.Sse.Broker.{
  Client, Broker, members, is_full, new_client, register, count_up, close_done, deregister,
  close_events, count_down, offer, receive, new_broker,
}
use pdf_generator.Prelude.Int.{ℤ}

-- How far a client has come through `Subscribe` and `Unsubscribe`.
pub data Phase : Type 0 where
  absent created registered live leaving removed shut gone : Phase

-- `sending` is the event of the broadcast under way, with the clients still to be served.
pub record Sys : Type 0 where
  pub broker : Broker
  pub phase : ℕ → Phase
  pub sending : Option (JobEvent × List ℕ)

abbrev pub at_phase : Sys → ℕ → Broker → Phase → Sys
at_phase s c b p = record s { broker = b; phase = update s.phase c p }

abbrev pub stored : Sys → ℕ → Client → Sys
stored s c client = record s { broker = record s.broker { store = update s.broker.store c client } }

pub data Step : Sys → Sys → Type 0 where
  admit :
      (s : Sys) (user_id : String)
      → is_full s.broker ≡ false
      → Step s (at_phase s s.broker.next (new_client s.broker user_id) created)
  insert :
      (s : Sys) (c : ℕ)
      → s.phase c ≡ created
      → s.sending ≡ none
      → Step s (at_phase s c (register s.broker c) registered)
  count :
      (s : Sys) (c : ℕ) → s.phase c ≡ registered → Step s (at_phase s c (count_up s.broker) live)
  leave :
      (s : Sys) (c : ℕ) → s.phase c ≡ live → Step s (at_phase s c (close_done s.broker c) leaving)
  remove :
      (s : Sys) (c : ℕ)
      → s.phase c ≡ leaving
      → s.sending ≡ none
      → Step s (at_phase s c (deregister s.broker c) removed)
  shut_events :
      (s : Sys) (c : ℕ) → s.phase c ≡ removed → Step s (at_phase s c (close_events s.broker c) shut)
  uncount : (s : Sys) (c : ℕ) → s.phase c ≡ shut → Step s (at_phase s c (count_down s.broker) gone)
  start :
      (s : Sys) (e : JobEvent)
      → s.sending ≡ none
      → Step s (record s { sending = some (e, members (s.broker.clients e.user_id)) })
  send :
      (s : Sys) (e : JobEvent) (c : ℕ) (cs : List ℕ) (client : Client)
      → s.sending ≡ some (e, c ∷ cs)
      → offer s.broker.client_buffer e (s.broker.store c) ≡ some client
      → Step s (record (stored s c client) { sending = some (e, cs) })
  -- `done` is closed between the two `select`s, and the second one sends all the same
  send_late :
      (s : Sys) (e : JobEvent) (c : ℕ) (cs : List ℕ) (client : Client)
      → s.sending ≡ some (e, c ∷ cs)
      → offer s.broker.client_buffer e (record (s.broker.store c) { done = false }) ≡ some client
      → Step s (record (stored s c (record client { done = (s.broker.store c).done })) {
        sending = some (e, cs);
      })
  finish :
      (s : Sys) (e : JobEvent) → s.sending ≡ some (e, []) → Step s (record s { sending = none })
  take :
      (s : Sys) (c : ℕ) (e : JobEvent) (client : Client)
      → receive (s.broker.store c) ≡ some (e, client)
      → Step s (stored s c client)

abbrev pub initial : ℤ → ℕ → Sys
initial max_conns client_buffer = record {
  broker = new_broker max_conns client_buffer;
  phase = λ _. absent;
  sending = none;
}

pub data Reach (s : Sys) : Sys → Type 0 where
  here : Reach s s
  next : {t u : Sys} → Reach s t → Step t u → Reach s u
