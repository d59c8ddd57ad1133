-- ===== src/Http/Routes.antt =====
-- internal/router/router.go: `Setup`, and the handlers behind its routes. gin's choice of a route for a
-- method and a path is not part of this repository: a request comes with its `Route`, and with what
-- gin reads from it for that route.
use text.Mathlib.Text.{◌==◌ as str_eq}
use pdf_generator.Prelude.{ℕ, String, Bool, true, false, List, Option, none, some, if◌then◌else◌}
use pdf_generator.Prelude.Int.{ℤ}
use pdf_generator.Go.{Result, ok, err}
use pdf_generator.Go.Strconv.{atoi}
use pdf_generator.Domain.{Time, CreateJobRequest}
use pdf_generator.World.{Outside, M}
use pdf_generator.Token.Manager.{JwtLibrary, JwtConfig}
use pdf_generator.Service.PdfService.{PdfService}
use pdf_generator.Handler.Response.{Response, respond, health, ready}
use pdf_generator.Handler.Auth.{LoginRequest, login_handler, refresh_handler}
use pdf_generator.Handler.Pdf.{create_handler, get_handler, list_handler}
use pdf_generator.Http.Context.{send_json, value, Handler}
use pdf_generator.Http.Chain.{on_log, request_id, cors, logger, recovery}
use pdf_generator.Http.Guards.{jwt_auth, rate_limited}
use pdf_generator.Sse.Broker.{active_connections}
use pdf_generator.Http.Stream.{Turn, stream}

-- The routes of `Setup`, in its order, with what `ShouldBindJSON`, `c.Query` (`none` for a parameter
-- that is not there) and `c.Param` give.
pub data Route : Type 0 where
  -- GET /health and GET /ready
  get_health get_ready : Route
  -- POST /api/v1/auth/login and POST /api/v1/auth/refresh
  post_login : Result LoginRequest → Route
  post_refresh : Result String → Route
  -- POST /api/v1/jobs
  post_jobs : Result CreateJobRequest → Route
  -- GET /api/v1/jobs: limit, offset
  get_jobs : Option String → Option String → Route
  -- GET /api/v1/jobs/:id
  get_job : String → Route
  -- GET /api/v1/jobs/stream
  get_stream : List Turn → Route

-- What `Setup` and `NewHandlers` are given.
pub record Api : Type 0 where
  pub outside : Outside
  pub library : JwtLibrary
  pub jwt : JwtConfig
  pub svc : PdfService

-- What golang-jwt and the limiter see while one request is served: the moment, and the answer of
-- `Allow()` of each limiter.
pub record Moment : Type 0 where
  pub now : Time
  pub allow : ℕ → Bool

-- A handler that asks the outside and then answers.
abbrev pub answer : M Response → Handler
answer m c s = let (r, s') = on_log m s in ((none, send_json r c), s')

-- `userID.(string)` panics where no user was set.
abbrev pub with_user : (String → Handler) → Handler
with_user f c s = elim c.user_id [
  | none ↦ ((some (value "interface conversion: interface {} is nil, not string"), c), s)
  | some user_id ↦ f user_id c s
]

-- `CreateJob` looks at the body before the user.
unfoldable pub create_route : Api → Result CreateJobRequest → Handler
create_route a (err e) = answer (create_handler a.outside a.svc "" (err e))
create_route a (ok req) =
    with_user (λ user_id. answer (create_handler a.outside a.svc user_id (ok req)))

-- `GetJobStatus` looks at the id before the user.
unfoldable pub get_route : Api → String → Handler
get_route a job_id c s =
    if str_eq job_id ""
    then answer (get_handler a.svc "" "") c s
    else with_user (λ user_id. answer (get_handler a.svc user_id job_id)) c s

-- `limit, _ := strconv.Atoi(c.DefaultQuery(…))`.
abbrev pub query_number : Option String → String → ℤ
query_number none fallback = (atoi fallback).0
query_number (some text) fallback = (atoi text).0

unfoldable pub list_route : Api → Option String → Option String → Handler
list_route a limit offset = with_user (λ user_id.
    answer (list_handler a.svc user_id (query_number limit "20") (query_number offset "0")))

unfoldable pub health_route : Handler
health_route c s = ((none, send_json (respond 200 (health (active_connections s.broker))) c), s)

unfoldable pub ready_route : Handler
ready_route c s = ((none, send_json (respond 200 ready) c), s)

-- The handler of a route.
unfoldable pub handle : Api → Moment → Route → Handler
handle a m get_health = health_route
handle a m get_ready = ready_route
handle a m (post_login bound) = answer (login_handler a.outside a.library a.jwt bound)
handle a m (post_refresh bound) = answer (refresh_handler a.outside a.library a.jwt m.now bound)
handle a m (post_jobs bound) = create_route a bound
handle a m (get_jobs limit offset) = list_route a limit offset
handle a m (get_job job_id) = get_route a job_id
handle a m (get_stream turns) = stream a.outside turns

-- The routes of the group `/api/v1` with its two guards.
abbrev pub is_protected : Route → Bool
is_protected get_health = false
is_protected get_ready = false
is_protected (post_login _) = false
is_protected (post_refresh _) = false
is_protected (post_jobs _) = true
is_protected (get_jobs _ _) = true
is_protected (get_job _) = true
is_protected (get_stream _) = true

unfoldable pub guarded : Api → Moment → Handler → Handler
guarded a m h = jwt_auth a.library a.jwt m.now (rate_limited m.allow h)

abbrev pub in_group : Api → Moment → Bool → Handler → Handler
in_group a m true h = guarded a m h
in_group a m false h = h

-- A request through the middleware of `r.Use`, that of its group, and its handler.
unfoldable pub serve : Api → Moment → Route → Handler
serve a m route =
    request_id a.outside
      (cors (logger a.outside (recovery (in_group a m (is_protected route) (handle a m route)))))
