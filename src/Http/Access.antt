-- ===== src/Http/Access.antt =====
-- What the guards of `/api/v1` let through.
use text.Mathlib.Text.{◌==◌ as str_eq}
use pdf_generator.Prelude.{
  ℕ, String, ◌≡◌, refl, ap, ◌∙◌, Bool, true, false, [], ◌∷◌, none, some, if◌then◌else◌, Bool-cases,
  inl, inr,
}
use pdf_generator.Domain.{new_api_error}
use pdf_generator.World.{Outside, Act, clocked, drew_uuid, Log}
use pdf_generator.World.Extends.{Extends, same, more}
use pdf_generator.Repository.Postgres.{new_job_repository}
use pdf_generator.Token.Manager.{Claims}
use pdf_generator.Handler.Response.{api_error}
use pdf_generator.Handler.Pdf.{get_handler}
use pdf_generator.Handler.Status.{Row, answer as answer_of, expected_status, get_handler-status}
use pdf_generator.Middleware.RateLimit.{RateLimiter, rate_limit, get_limiter}
use pdf_generator.Http.Context.{Context, Server}
use pdf_generator.Http.Chain.{id_for}
use pdf_generator.Http.Guards.{
  Verdict, turned_away, identified, verdict, with_claims, act_on, jwt_auth, limited, rate_limited,
}
use pdf_generator.Http.Routes.{
  Api, Moment, Route, answer as reply, get_job, get_route, handle, is_protected, guarded, serve,
}
use pdf_generator.Http.Passage.{reaching, at_group, began, handled, settled, serve-calm}

-- What a request may ask of the outside before anyone is known.
abbrev pub IsIdle : Act → Type 0
IsIdle (clocked _) = Unit
IsIdle (drew_uuid _) = Unit
IsIdle _ = ⊥

id_for-Extends :
    (o : Outside) (given : String) (log : Log) → Extends IsIdle log (id_for o given log).1
id_for-Extends o given log = elim (Bool-cases (str_eq given "")) [
  | inl missing ↦ rw missing (more _ tt same)
  | inr sent ↦ rw sent same
]

-- What the guards and the handler of a protected route make of a request that is turned away.
turned_away_handled :
    (a : Api) (m : Moment) (route : Route) (c : Context) (s : Server) (message : String)
    → is_protected route ≡ true
    → verdict a.library a.jwt m.now (c.request.header "Authorization") ≡ turned_away message
    → handled a m route c s
      ≡ act_on
          (turned_away message)
          (rate_limited m.allow (handle a m route))
          (reaching a m route c s)
          (at_group a m route c s)
unfolding guarded jwt_auth
turned_away_handled a m route c s message h v = rw h (rw v refl)

-- What the server makes of a request for a protected route that is turned away.
pub serve-turned_away :
    (a : Api) (m : Moment) (route : Route) (c : Context) (s : Server) (message : String)
    → str_eq c.request.method "OPTIONS" ≡ false
    → is_protected route ≡ true
    → c.sent ≡ false
    → verdict a.library a.jwt m.now (c.request.header "Authorization") ≡ turned_away message
    → ((serve a m route c s).0.1.status ≡ 401)
      × ((serve a m route c s).0.1.bodies ≡ api_error (new_api_error 401 message []) ∷ c.bodies)
      × ((serve a m route c s).1.limiter ≡ s.limiter)
      × ((serve a m route c s).1.broker ≡ s.broker)
      × Extends IsIdle s.log (serve a m route c s).1.log
unfolding act_on
serve-turned_away a m route c s message h k fresh v =
    let e = turned_away_handled a m route c s message k v in
    let whole =
      serve-calm a m route c s h (ap (λ x. x.0.0) e)
      ∙ ap (settled a.outside (began a m route c s)) e in
    (
      ap (λ x. x.0.1.status) whole ∙ rw fresh refl,
      ap (λ x. x.0.1.bodies) whole,
      ap (λ x. x.1.limiter) whole,
      ap (λ x. x.1.broker) whole,
      rw whole (more _ tt (more _ tt (id_for-Extends a.outside _ s.log))),
    )

-- Once a user is known, the route is the handler.
pub get_route-handler :
    (a : Api) (user_id job_id : String) (c : Context) (s : Server)
    → c.user_id ≡ some user_id
    → get_route a job_id c s ≡ reply (get_handler a.svc user_id job_id) c s
unfolding get_route get_handler
get_route-handler a user_id job_id c s user = elim (Bool-cases (str_eq job_id "")) [
  | inl nameless ↦ rw nameless refl
  | inr named ↦ rw (named, user) refl
]

-- The answer of `Allow()` for a user.
unfoldable pub allowed : Moment → RateLimiter → String → Bool
allowed m limiter user_id = m.allow (get_limiter limiter user_id).0

-- The status that GET /api/v1/jobs/:id should have.
unfoldable pub expected_get : (String → Bool) → String → Row → Verdict → ℕ
expected_get allow job_id row (turned_away message) = 401
expected_get allow job_id row (identified claims) =
    let code = expected_status claims.user_id job_id row in
    if allow claims.user_id then code else 429

get_limited :
    (a : Api) (m : Moment) (claims : Claims) (job_id : String) (row : Row) (c : Context)
    (s : Server) (b : Bool)
    → c.sent ≡ false
    → a.svc.repo ≡ new_job_repository a.outside
    → a.outside.query_row s.log job_id ≡ answer_of row
    → allowed m s.limiter claims.user_id ≡ b
    → ((rate_limited m.allow (get_route a job_id) (with_claims claims c) s).0.0 ≡ none)
      × ((rate_limited m.allow (get_route a job_id) (with_claims claims c) s).0.1.status
          ≡ (if b then expected_status claims.user_id job_id row else 429))
unfolding allowed rate_limited rate_limit limited
get_limited a m claims job_id row c s true fresh repo read h =
    rw (h, get_route-handler a claims.user_id job_id)
      (
        refl,
        rw fresh (get_handler-status a.outside a.svc claims.user_id job_id row s.log repo read),
      )
get_limited a m claims job_id row c s false fresh repo read h = rw h (refl, rw fresh refl)

-- A request that the guards have let through or not.
get_group :
    (a : Api) (m : Moment) (job_id : String) (row : Row) (v : Verdict) (c : Context) (s : Server)
    → c.sent ≡ false
    → a.svc.repo ≡ new_job_repository a.outside
    → a.outside.query_row s.log job_id ≡ answer_of row
    → ((act_on v (rate_limited m.allow (get_route a job_id)) c s).0.0 ≡ none)
      × ((act_on v (rate_limited m.allow (get_route a job_id)) c s).0.1.status
          ≡ expected_get (allowed m s.limiter) job_id row v)
unfolding act_on expected_get
get_group a m job_id row (turned_away message) c s fresh repo read = (refl, rw fresh refl)
get_group a m job_id row (identified claims) c s fresh repo read =
    get_limited a m claims job_id row c s _ fresh repo read refl

-- Over PostgreSQL, and where nothing was sent before, the status of GET /api/v1/jobs/:id is 401 where
-- the header holds no valid access token, 429 where the limiter of the user does not allow the request,
-- and otherwise that of the job for the user whom the token names.
pub serve-status :
    (a : Api) (m : Moment) (job_id : String) (row : Row) (c : Context) (s : Server)
    → str_eq c.request.method "OPTIONS" ≡ false
    → c.sent ≡ false
    → a.svc.repo ≡ new_job_repository a.outside
    → a.outside.query_row (at_group a m (get_job job_id) c s).log job_id ≡ answer_of row
    → (serve a m (get_job job_id) c s).0.1.status
      ≡ expected_get
          (allowed m s.limiter)
          job_id
          row
          (verdict a.library a.jwt m.now (c.request.header "Authorization"))
unfolding handle guarded jwt_auth
serve-status a m job_id row c s h fresh repo read =
    let (calm, status) =
      get_group a m job_id row (verdict a.library a.jwt m.now (c.request.header "Authorization"))
        (reaching a m (get_job job_id) c s) (at_group a m (get_job job_id) c s) fresh repo read in
    ap (λ x. x.0.1.status) (serve-calm a m (get_job job_id) c s h calm) ∙ status
