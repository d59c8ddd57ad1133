-- ===== src/Sse/Safety.antt =====
-- What holds at every moment of every interleaving.
use pdf_generator.Prelude.{ℕ, ◌≡◌, refl, true, false, List, ◌∷◌, some, arith, inl}
use pdf_generator.Prelude.Int.{ℤ}
use pdf_generator.Domain.{JobEvent}
use pdf_generator.Sse.Broker.{Client, offer, receive}
use pdf_generator.Sse.System.{
  Phase, registered, live, leaving, Sys, stored, Step, admit, insert, count, leave, remove,
  shut_events, uncount, start, send, send_late, finish, take, initial, Reach, here, next,
}
use pdf_generator.Sse.Invariant.{
  is_listed, is_open, Inv, initial-Inv, Inv-admit, Inv-insert, Inv-count, Inv-leave, Inv-remove,
  Inv-shut, Inv-uncount, Inv-start, Inv-stored, Inv-sending,
}

offer_keeps :
    (size : ℕ) (e : JobEvent) (c c' : Client)
    → offer size e c ≡ some c'
    → (c'.user_id ≡ c.user_id) × (c'.events_closed ≡ c.events_closed)
unfolding offer
offer_keeps size e c c' h = ground arith

receive_keeps :
    (c c' : Client) (e : JobEvent)
    → receive c ≡ some (e, c')
    → (c'.user_id ≡ c.user_id) × (c'.events_closed ≡ c.events_closed)
unfolding receive
receive_keeps c c' e h = ground arith

pub Step-Inv : {s t : Sys} → Step s t → Inv s → Inv t
Step-Inv (admit s user_id room) v = Inv-admit s user_id v
Step-Inv (insert s c p q) v = Inv-insert s c p q v
Step-Inv (count s c p) v = Inv-count s c p v
Step-Inv (leave s c p) v = Inv-leave s c p v
Step-Inv (remove s c p q) v = Inv-remove s c p q v
Step-Inv (shut_events s c p) v = Inv-shut s c p v
Step-Inv (uncount s c p) v = Inv-uncount s c p v
Step-Inv (start s e q) v = Inv-start s e v
Step-Inv (send s e c cs client q sent) v =
    let (user, closed) = offer_keeps _ _ _ _ sent in
    Inv-sending (stored s c client) e c cs q (Inv-stored s c client user closed v)
Step-Inv (send_late s e c cs client q sent) v =
    let (user, closed) = offer_keeps _ _ _ _ sent in
    Inv-sending (stored s c _) e c cs q (Inv-stored s c _ user closed v)
Step-Inv (finish s e q) v = record {
  listed = v.listed;
  opened = v.opened;
  pending = λ e' cs h. cc;
  fresh = v.fresh;
}
Step-Inv (take s c e client got) v =
    let (user, closed) = receive_keeps _ _ _ got in Inv-stored s c client user closed v

pub Reach-Inv : (m : ℤ) (n : ℕ) {s : Sys} → Reach (initial m n) s → Inv s
Reach-Inv m n here = initial-Inv m n
Reach-Inv m n (next r st) = Step-Inv st (Reach-Inv m n r)

pub listed-open : (p : Phase) → is_listed p ≡ true → is_open p ≡ true
listed-open registered h = refl
listed-open live h = refl
listed-open leaving h = refl
listed-open _ h = cc

-- In every state that interleaved steps reach, the client that a broadcast under way serves next
-- has its channel of events open, so no send meets a closed channel, and belongs to the user of the
-- event.
pub no_send_on_closed :
    (m : ℤ) (n : ℕ) {s : Sys} {e : JobEvent} {c : ℕ} {cs : List ℕ}
    → Reach (initial m n) s
    → s.sending ≡ some (e, c ∷ cs)
    → ((s.broker.store c).events_closed ≡ false) × ((s.broker.store c).user_id ≡ e.user_id)
no_send_on_closed m n {e} {c} {cs} r q =
    let v = Reach-Inv m n r in
    let (user, mapped) = v.pending e (c ∷ cs) q c (inl refl) in
    (v.opened c (listed-open _ mapped), user)
