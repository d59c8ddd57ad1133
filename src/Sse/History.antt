-- ===== src/Sse/History.antt =====
-- What an interleaving has broadcast and what a client has received, in the order of the steps.
use text.Mathlib.Text.{◌==◌ as str_eq}
use pdf_generator.Prelude.{ℕ, String, Bool, List, [], ◌∷◌, ◌++◌, if◌then◌else◌, ◌==◌}
use pdf_generator.Domain.{JobEvent}
use pdf_generator.Sse.System.{Sys, Step, start, take, Reach, here, next}

abbrev pub step_broadcast : {s t : Sys} → Step s t → List JobEvent → List JobEvent
step_broadcast (start s e q) es = es ++ e ∷ []
step_broadcast _ es = es

abbrev pub step_received : {s t : Sys} → ℕ → Step s t → List JobEvent → List JobEvent
step_received c (take s x e client got) es = if x == c then es ++ e ∷ [] else es
step_received c _ es = es

-- The events whose broadcast has begun, and those that a client's stream has taken.
abbrev pub broadcast_on : {s t : Sys} → Reach s t → List JobEvent
broadcast_on here = []
broadcast_on (next r st) = step_broadcast st (broadcast_on r)

abbrev pub received_on : {s t : Sys} → ℕ → Reach s t → List JobEvent
received_on c here = []
received_on c (next r st) = step_received c st (received_on c r)

abbrev pub is_for : String → JobEvent → Bool
is_for user_id e = str_eq e.user_id user_id
