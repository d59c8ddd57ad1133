-- ===== src/Sse/Unique.antt =====
-- No client stands twice in a set of the map, or among the clients still to be served.
use text.Mathlib.Text.{◌==◌ as str_eq}
use pdf_generator.Prelude.{
  update_key, if◌then◌else◌, subst, Bool, ℕ, ◌≡◌, refl, List, [], ◌∷◌, Option, none, some, String,
  true, false,
}
use pdf_generator.Prelude.Int.{ℤ}
use pdf_generator.Domain.{JobEvent}
use pdf_generator.Sse.Broker.{
  members, shrink, delete, new_client, register, count_up, close_done, deregister, close_events,
  count_down, new_broker,
}
use pdf_generator.Sse.Delivery.{In-delete, Distinct, Distinct-delete}
use pdf_generator.Sse.System.{
  Sys, Step, admit, insert, count, leave, remove, shut_events, uncount, start, send, send_late,
  finish, take, initial, Reach, here, next,
}

pub record IsUnique (s : Sys) : Type 0 where
  pub mapped : (u : String) → Distinct (members (s.broker.clients u))
  pub pending : (e : JobEvent) (cs : List ℕ) → s.sending ≡ some (e, cs) → Distinct cs

initial-IsUnique : (m : ℤ) (n : ℕ) → IsUnique (initial m n)
unfolding new_broker
initial-IsUnique m n = record { mapped = λ u. tt; pending = λ e cs h. cc }

Distinct-shrink :
    (o : Option (List ℕ)) (c : ℕ) → Distinct (members o) → Distinct (members (shrink o c))
Distinct-shrink none c h = tt
Distinct-shrink (some cs) c h = by_rest (delete c cs) (Distinct-delete c cs h)
  where
    by_rest :
        (xs : List ℕ)
        → Distinct xs
        → Distinct
            (members (elim xs as (λ _. Option (List ℕ)) [ [] ↦ none | x ∷ ys ↦ some (x ∷ ys) ]))
    by_rest [] k = tt
    by_rest (x ∷ ys) k = k

Distinct-update :
    (f : String → Option (List ℕ)) (k : String) (o : Option (List ℕ))
    → Distinct (members o)
    → ((u : String) → Distinct (members (f u)))
    → (u : String) → Distinct (members (update_key f k o u))
Distinct-update f k o h all u = by_test (str_eq k u)
  where
    by_test : (b : Bool) → Distinct (members (if b then o else f u))
    by_test true = h
    by_test false = all u

pub sent_inj :
    {e e' : JobEvent} {cs cs' : List ℕ}
    → ◌≡◌ {A = Option (JobEvent × List ℕ)} (some (e, cs)) (some (e', cs'))
    → (e ≡ e') × (cs ≡ cs')
sent_inj h = (cc, cc)

Distinct-sent :
    {e e' : JobEvent} {cs cs' : List ℕ}
    → ◌≡◌ {A = Option (JobEvent × List ℕ)} (some (e, cs)) (some (e', cs'))
    → Distinct cs
    → Distinct cs'
Distinct-sent h d = subst Distinct (sent_inj h).1 d

Step-IsUnique : {s t : Sys} → Step s t → IsUnique s → IsUnique t
unfolding new_client register count_up close_done deregister close_events count_down
Step-IsUnique (admit s user_id room) v = record { mapped = v.mapped; pending = v.pending }
Step-IsUnique (insert s c p q) v = record {
  mapped =
      Distinct-update _ _ (some (c ∷ _))
        ((λ m. (In-delete c c _ m).0 refl), Distinct-delete c _ (v.mapped _)) v.mapped;
  pending = v.pending;
}
Step-IsUnique (count s c p) v = record { mapped = v.mapped; pending = v.pending }
Step-IsUnique (leave s c p) v = record { mapped = v.mapped; pending = v.pending }
Step-IsUnique (remove s c p q) v = record {
  mapped =
      Distinct-update _ _ (shrink _ c) (Distinct-shrink (s.broker.clients _) c (v.mapped _))
        v.mapped;
  pending = v.pending;
}
Step-IsUnique (shut_events s c p) v = record { mapped = v.mapped; pending = v.pending }
Step-IsUnique (uncount s c p) v = record { mapped = v.mapped; pending = v.pending }
Step-IsUnique (start s e q) v = record {
  mapped = v.mapped;
  pending = λ e' cs h. Distinct-sent h (v.mapped e.user_id);
}
Step-IsUnique (send s e c cs client q sent) v = record {
  mapped = v.mapped;
  pending = λ e' cs' h. Distinct-sent h (v.pending e (c ∷ cs) q).1;
}
Step-IsUnique (send_late s e c cs client q sent) v = record {
  mapped = v.mapped;
  pending = λ e' cs' h. Distinct-sent h (v.pending e (c ∷ cs) q).1;
}
Step-IsUnique (finish s e q) v = record { mapped = v.mapped; pending = λ e' cs h. cc }
Step-IsUnique (take s c e client got) v = record { mapped = v.mapped; pending = v.pending }

pub Reach-IsUnique : (m : ℤ) (n : ℕ) {s : Sys} → Reach (initial m n) s → IsUnique s
Reach-IsUnique m n here = initial-IsUnique m n
Reach-IsUnique m n (next r st) = Step-IsUnique st (Reach-IsUnique m n r)
