-- ===== src/Http/Passage.antt =====
-- The way of a request through the middleware of `r.Use`.
use text.Mathlib.Text.{◌==◌ as str_eq}
use pdf_generator.Prelude.{ℕ, String, ◌≡◌, refl, ◌∙◌, false, ◌∷◌, none, some}
use pdf_generator.World.{Outside, Log, clocked}
use pdf_generator.Http.Context.{Context, request_line, Server, Ended}
use pdf_generator.Http.Chain.{
  id_for, with_id, allow_origin, request_id, cors, line_of, log_request, logger, recover, recovery,
}
use pdf_generator.Http.Routes.{Api, Moment, Route, handle, is_protected, in_group, serve}

module _ (a : Api) (m : Moment) (route : Route) (c : Context) (s : Server) where
  -- The id of the request and the log after it was chosen.
  abbrev pub chosen_id : String × Log
  chosen_id = id_for a.outside (c.request.header "X-Request-ID") s.log

  -- The context and the server that reach the middleware of the group.
  abbrev pub reaching : Context
  reaching = allow_origin (with_id chosen_id.0 c)

  abbrev pub began : ℕ
  began = a.outside.now chosen_id.1

  abbrev pub at_group : Server
  at_group = record s { log = clocked began ∷ chosen_id.1 }

  -- What the middleware of the group and the handler make of it.
  abbrev pub handled : Ended × Server
  handled = in_group a m (is_protected route) (handle a m route) reaching at_group

  serve-handled :
      str_eq c.request.method "OPTIONS" ≡ false
      → serve a m route c s ≡ log_request a.outside began (recover handled)
  unfolding serve request_id cors logger recovery
  serve-handled h = rw h refl

-- What is left when a handler has ended without a panic.
abbrev pub finished : Outside → ℕ → Context → Server → Server
finished o began c s = record s {
  log = clocked (o.now s.log) ∷ s.log;
  lines = request_line (line_of c began (o.now s.log)) ∷ s.lines;
}

-- A request whose handler has ended so, when `Logger` is through.
abbrev pub settled : Outside → ℕ → Ended × Server → Ended × Server
settled o began x = ((none, x.0.1), finished o began x.0.1 x.1)

calm :
    (o : Outside) (began : ℕ) (x : Ended × Server)
    → x.0.0 ≡ none
    → log_request o began (recover x) ≡ settled o began x
unfolding log_request recover
calm o began ((none, c), s) h = refl
calm o began ((some p, c), s) h = cc

-- A request that is not a preflight and that no handler panics at ends as its handler leaves it, with
-- one line in the request log.
pub serve-calm :
    (a : Api) (m : Moment) (route : Route) (c : Context) (s : Server)
    → str_eq c.request.method "OPTIONS" ≡ false
    → (handled a m route c s).0.0 ≡ none
    → serve a m route c s ≡ settled a.outside (began a m route c s) (handled a m route c s)
serve-calm a m route c s h quiet =
    serve-handled a m route c s h
    ∙ calm a.outside (began a m route c s) (handled a m route c s) quiet
