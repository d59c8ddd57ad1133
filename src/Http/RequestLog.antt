-- ===== src/Http/RequestLog.antt =====
-- The request log: what `Logger` writes of every request.
use text.Mathlib.Text.{◌==◌ as str_eq}
use pdf_generator.Prelude.{
  String, ◌≡◌, refl, Bool, true, false, Option, none, some, Bool-cases, inl, inr,
}
use pdf_generator.Go.{ok, err}
use pdf_generator.Token.Manager.{Claims}
use pdf_generator.Handler.Response.{Response}
use pdf_generator.Middleware.RateLimit.{rate_limit}
use pdf_generator.Http.Context.{Context, Server, Ended, Handler}
use pdf_generator.Http.Guards.{
  Verdict, turned_away, identified, verdict, with_claims, act_on, jwt_auth, limited, rate_limited,
}
use pdf_generator.Http.Routes.{
  Api, Moment, Route, get_health, get_ready, post_login, post_refresh, post_jobs, get_jobs, get_job,
  get_stream, create_route, get_route, list_route, health_route, ready_route, handle, is_protected,
  guarded, in_group,
}
use pdf_generator.Http.Passage.{reaching, at_group, handled}

-- Whom a request is from: on a protected route, the user whom its token names.
abbrev pub user_of : Bool → Verdict → Option String → Option String
user_of true (identified claims) before = some claims.user_id
user_of _ _ before = before

-- A handler ended without a panic, wrote no line, and left the request and its id, with a user.
record IsNeat (user : Option String) (c : Context) (s : Server) (x : Ended × Server) : Type 0 where
  same : x.0.1.request ≡ c.request
  user_id : x.0.1.user_id ≡ user
  calm : x.0.0 ≡ none
  lines : x.1.lines ≡ s.lines
  id : x.0.1.request_id ≡ c.request_id

limited-IsNeat :
    (user : Option String) (r : Option Response) (next : Handler) (c : Context) (s : Server)
    → c.user_id ≡ user
    → IsNeat user c s (next c s)
    → IsNeat user c s (limited r next c s)
unfolding limited
limited-IsNeat user none next c s known h = h
limited-IsNeat user (some refusal) next c s known h = record {
  same = refl;
  user_id = known;
  calm = refl;
  lines = refl;
  id = refl;
}

act_on-IsNeat :
    (v : Verdict) (next : Handler) (c : Context) (s : Server)
    → ((claims : Claims) → IsNeat (some claims.user_id) c s (next (with_claims claims c) s))
    → IsNeat (user_of true v c.user_id) c s (act_on v next c s)
unfolding act_on
act_on-IsNeat (turned_away message) next c s h = record {
  same = refl;
  user_id = refl;
  calm = refl;
  lines = refl;
  id = refl;
}
act_on-IsNeat (identified claims) next c s h = h claims

-- Whether a route is `/jobs/stream`.
abbrev pub is_stream : Route → Bool
is_stream (get_stream _) = true
is_stream _ = false

module _ (a : Api) (m : Moment) where
  public-IsNeat :
      (route : Route) (c : Context) (s : Server)
      → is_protected route ≡ false
      → IsNeat c.user_id c s (handle a m route c s)
  unfolding handle health_route ready_route
  public-IsNeat get_health c s h = record {
    same = refl;
    user_id = refl;
    calm = refl;
    lines = refl;
    id = refl;
  }
  public-IsNeat get_ready c s h = record {
    same = refl;
    user_id = refl;
    calm = refl;
    lines = refl;
    id = refl;
  }
  public-IsNeat (post_login _) c s h = record {
    same = refl;
    user_id = refl;
    calm = refl;
    lines = refl;
    id = refl;
  }
  public-IsNeat (post_refresh _) c s h = record {
    same = refl;
    user_id = refl;
    calm = refl;
    lines = refl;
    id = refl;
  }
  public-IsNeat (post_jobs _) c s h = cc
  public-IsNeat (get_jobs _ _) c s h = cc
  public-IsNeat (get_job _) c s h = cc
  public-IsNeat (get_stream _) c s h = cc

  -- Where a user is set, no handler but that of the stream panics.
  user-IsNeat :
      (route : Route) (claims : Claims) (c : Context) (s : Server)
      → is_protected route ≡ true
      → is_stream route ≡ false
      → IsNeat
          (some claims.user_id)
          (with_claims claims c)
          s
          (handle a m route (with_claims claims c) s)
  unfolding handle create_route list_route get_route
  user-IsNeat get_health claims c s h k = cc
  user-IsNeat get_ready claims c s h k = cc
  user-IsNeat (post_login _) claims c s h k = cc
  user-IsNeat (post_refresh _) claims c s h k = cc
  user-IsNeat (post_jobs (err e)) claims c s h k = record {
    same = refl;
    user_id = refl;
    calm = refl;
    lines = refl;
    id = refl;
  }
  user-IsNeat (post_jobs (ok req)) claims c s h k = record {
    same = refl;
    user_id = refl;
    calm = refl;
    lines = refl;
    id = refl;
  }
  user-IsNeat (get_jobs _ _) claims c s h k = record {
    same = refl;
    user_id = refl;
    calm = refl;
    lines = refl;
    id = refl;
  }
  user-IsNeat (get_job job_id) claims c s h k = elim (Bool-cases (str_eq job_id "")) [
    | inl nameless ↦
        rw nameless (record { same = refl; user_id = refl; calm = refl; lines = refl; id = refl })
    | inr named ↦
        rw named (record { same = refl; user_id = refl; calm = refl; lines = refl; id = refl })
  ]
  user-IsNeat (get_stream _) claims c s h k = cc

  -- What `JWTAuth` makes of the header of a request.
  abbrev pub verdict_of : Context → Verdict
  verdict_of c = verdict a.library a.jwt m.now (c.request.header "Authorization")

  group-IsNeat :
      (is_in : Bool) (route : Route) (c : Context) (s : Server)
      → is_protected route ≡ is_in
      → is_stream route ≡ false
      → IsNeat
          (user_of is_in (verdict_of c) c.user_id)
          c
          s
          (in_group a m is_in (handle a m route) c s)
  unfolding guarded jwt_auth rate_limited
  group-IsNeat false route c s h k = public-IsNeat route c s h
  group-IsNeat true route c s h k = act_on-IsNeat _ _ c s λ claims.
      let n =
        limited-IsNeat (some claims.user_id)
          (rate_limit m.allow s.limiter c.request.client_ip (some claims.user_id)).0
          (handle a m route) (with_claims claims c)
          (record s {
            limiter = (rate_limit m.allow s.limiter c.request.client_ip (some claims.user_id)).1;
          })
          refl (user-IsNeat route claims c _ h k) in
      record { same = n.same; user_id = n.user_id; calm = n.calm; lines = n.lines; id = n.id }

pub handled-calm :
    (a : Api) (m : Moment) (route : Route) (c : Context) (s : Server)
    → is_stream route ≡ false
    → (handled a m route c s).0.0 ≡ none
handled-calm a m route c s k =
    (group-IsNeat a m (is_protected route) route (reaching a m route c s) (at_group a m route c s)
      refl k).calm
