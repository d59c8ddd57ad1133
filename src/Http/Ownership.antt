-- ===== src/Http/Ownership.antt =====
-- Whose jobs GET /api/v1/jobs/:id shows.
use text.Mathlib.Text.{◌==◌ as str_eq}
use pdf_generator.Prelude.{
  String, ◌≡◌, refl, sym, ap, ◌∙◌, Bool, true, false, List, ◌∷◌, Bool-cases, inl, inr, arith,
}
use pdf_generator.Go.{Result, ok, err}
use pdf_generator.Domain.{JobStatusResponse}
use pdf_generator.World.{Log}
use pdf_generator.Token.Manager.{Claims}
use pdf_generator.Handler.Response.{Body, job_status, handle_error, refuse_kind}
use pdf_generator.Handler.Pdf.{get_handler, status_result}
use pdf_generator.Service.PdfService.{PdfService}
use pdf_generator.Service.Access.{get_job_status_own}
use pdf_generator.Middleware.RateLimit.{rate_limit}
use pdf_generator.Http.Context.{Context, Server}
use pdf_generator.Http.Guards.{
  Verdict, turned_away, identified, verdict, with_claims, act_on, jwt_auth, limited, rate_limited,
}
use pdf_generator.Http.Routes.{Api, Moment, get_job, get_route, handle, guarded, serve}
use pdf_generator.Http.RequestLog.{handled-calm}
use pdf_generator.Http.Passage.{reaching, at_group, serve-calm}
use pdf_generator.Http.Access.{get_route-handler, allowed}

status_body :
    (x : Result JobStatusResponse) (r : JobStatusResponse)
    → (status_result x).body ≡ job_status r
    → x ≡ ok r
unfolding handle_error refuse_kind
status_body (ok y) r h = cc
status_body (err e) r h = ground arith

get_handler-own :
    (svc : PdfService) (user_id job_id : String) (log : Log) (r : JobStatusResponse)
    → (get_handler svc user_id job_id log).0.body ≡ job_status r
    → r.user_id ≡ user_id
unfolding get_handler
get_handler-own svc user_id job_id log r h = elim (Bool-cases (str_eq job_id "")) [
  | inl nameless ↦ cc (rw nameless at h)
  | inr named ↦ get_job_status_own svc user_id job_id log r (status_body _ r (rw named at h))
]

same_head : (b d : Body) (bs : List Body) → b ∷ bs ≡ d ∷ bs → b ≡ d
same_head b d bs h = cc

limited_own :
    (a : Api) (m : Moment) (claims : Claims) (job_id : String) (r : JobStatusResponse) (c : Context)
    (s : Server) (b : Bool)
    → allowed m s.limiter claims.user_id ≡ b
    → (rate_limited m.allow (get_route a job_id) (with_claims claims c) s).0.1.bodies
      ≡ job_status r ∷ c.bodies
    → r.user_id ≡ claims.user_id
unfolding allowed rate_limited rate_limit limited
limited_own a m claims job_id r c s true h shown =
    get_handler-own a.svc claims.user_id job_id s.log r
      (same_head _ _ c.bodies (rw (h, get_route-handler a claims.user_id job_id) at shown))
limited_own a m claims job_id r c s false h shown = cc (rw h at shown)

group_own :
    (a : Api) (m : Moment) (job_id : String) (r : JobStatusResponse) (v : Verdict) (c : Context)
    (s : Server)
    → (act_on v (rate_limited m.allow (get_route a job_id)) c s).0.1.bodies
      ≡ job_status r ∷ c.bodies
    → (claims : Claims) × (v ≡ identified claims) × (r.user_id ≡ claims.user_id)
unfolding act_on
group_own a m job_id r (turned_away message) c s h = cc
group_own a m job_id r (identified claims) c s h =
    (claims, refl, limited_own a m claims job_id r c s _ refl h)

-- Whatever the database answers, a job that GET /api/v1/jobs/:id shows belongs to the user whom the
-- valid access token of the request names, and there is such a token.
pub serve-own :
    (a : Api) (m : Moment) (job_id : String) (r : JobStatusResponse) (c : Context) (s : Server)
    → str_eq c.request.method "OPTIONS" ≡ false
    → (serve a m (get_job job_id) c s).0.1.bodies ≡ job_status r ∷ c.bodies
    → (claims : Claims) × (verdict a.library a.jwt m.now (c.request.header "Authorization")
        ≡ identified claims)
      × (r.user_id ≡ claims.user_id)
unfolding handle guarded jwt_auth
serve-own a m job_id r c s h shown =
    let whole =
      serve-calm a m (get_job job_id) c s h (handled-calm a m (get_job job_id) c s refl) in
    group_own a m job_id r _ (reaching a m (get_job job_id) c s) (at_group a m (get_job job_id) c s)
      (ap (λ x. x.0.1.bodies) (sym whole) ∙ shown)
