-- ===== src/Http/Chain.antt =====
-- internal/middleware: request_id.go, cors.go, logger_miidleware.go and recovery_middleware.go, the
-- middleware of every request.
use text.Mathlib.Text.{◌==◌ as str_eq}
use pdf_generator.Prelude.{ℕ, String, Bool, false, ◌||◌, [], ◌∷◌, none, some, if◌then◌else◌, leb}
use pdf_generator.Go.Strings.{codes, to_lower, contains}
use pdf_generator.World.{Outside, M, clock, new_uuid}
use pdf_generator.Handler.Response.{refuse}
use pdf_generator.Http.Context.{
  Context, set_header, send_status, send_json, Panic, op_error, value, Level, info, warn,
  error_level, Line, Logged, request_line, panic_line, Server, Ended, Handler,
}

-- What asks the outside, on the log of the server.
abbrev pub on_log {ℓ} : {A : Type ℓ} → M A → Server → A × Server
on_log m s = let (a, log) = m s.log in (a, record s { log = log })

abbrev pub logged : Logged → Server → Server
logged l s = record s { lines = l ∷ s.lines }

-- `RequestID`: the id that the client sent, or a new one.
abbrev pub id_for : Outside → String → M String
id_for o given log = if str_eq given "" then new_uuid o log else (given, log)

abbrev pub with_id : String → Context → Context
with_id rid c = set_header "X-Request-ID" rid (record c { request_id = some rid })

unfoldable pub request_id : Outside → Handler → Handler
request_id o next c s =
    let (rid, s') = on_log (id_for o (c.request.header "X-Request-ID")) s in next (with_id rid c) s'

-- `CORS`: its five headers.
abbrev pub allow_origin : Context → Context
allow_origin c = set_header "Access-Control-Max-Age" "86400" (
    set_header "Access-Control-Expose-Headers" "Content-Length, X-Request-ID" (
      set_header "Access-Control-Allow-Headers"
        "Origin, Content-Type, Accept, Authorization, X-Request-ID"
        (set_header "Access-Control-Allow-Methods" "GET, POST, PUT, DELETE, OPTIONS"
          (set_header "Access-Control-Allow-Origin" "*" c))))

unfoldable pub cors : Handler → Handler
cors next c s =
    if str_eq c.request.method "OPTIONS"
    then ((none, send_status 204 (allow_origin c)), s)
    else next (allow_origin c) s

abbrev pub level_of : ℕ → Level
level_of status = if leb 500 status then error_level else if leb 400 status then warn else info

abbrev pub line_of : Context → ℕ → ℕ → Line
line_of c started ended = record {
  level = level_of c.status;
  method = c.request.method;
  path = c.request.path;
  query = c.request.raw_query;
  status = c.status;
  started = started;
  ended = ended;
  client_ip = c.request.client_ip;
  request_id = c.request_id;
  user_id = c.user_id;
}

-- `Logger` after `c.Next()`, which is not reached where the handler panics.
unfoldable pub log_request : Outside → ℕ → Ended × Server → Ended × Server
log_request o started ((some p, c), s) = ((some p, c), s)
log_request o started ((none, c), s) =
    let (ended, s') = on_log (clock o) s in
    ((none, c), logged (request_line (line_of c started ended)) s')

unfoldable pub logger : Outside → Handler → Handler
logger o next c s = let (started, s') = on_log (clock o) s in log_request o started (next c s')

-- `Recovery`: an error of a connection that the client has left.
abbrev pub is_broken_pipe : Panic → Bool
is_broken_pipe (value _) = false
is_broken_pipe (op_error none) = false
is_broken_pipe (op_error (some text)) =
    contains (to_lower text) (codes "broken pipe")
    || contains (to_lower text) (codes "connection reset")

-- The deferred function of `Recovery`.
unfoldable pub recover : Ended × Server → Ended × Server
recover ((none, c), s) = ((none, c), s)
recover ((some p, c), s) =
    let s' = logged (panic_line p c.request.path) s in
    if is_broken_pipe p
    then ((none, c), s')
    else ((none, send_json (refuse 500 "internal server error" []) c), s')

unfoldable pub recovery : Handler → Handler
recovery next c s = recover (next c s)
