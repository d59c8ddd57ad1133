-- ===== src/Http/Pages.antt =====
-- Which rows GET /api/v1/jobs asks for.
use text.Mathlib.Text.{◌==◌ as str_eq}
use pdf_generator.Prelude.{String, ◌≡◌, refl, false, Option, none, some, Bool-cases, inl, inr}
use pdf_generator.Prelude.Int.{ℤ, pos, ◌≤ℤ◌}
use pdf_generator.World.{Outside, Act, Log, clocked, drew_uuid, selected_rows}
use pdf_generator.World.Extends.{Extends, Extends-trans, same, more}
use pdf_generator.Repository.Postgres.{new_job_repository, get_by_user_id}
use pdf_generator.Token.Manager.{Claims}
use pdf_generator.Handler.Response.{Response}
use pdf_generator.Handler.Pdf.{list_handler}
use pdf_generator.Service.PdfService.{PdfService, list_jobs}
use pdf_generator.Service.Access.{page_bounds}
use pdf_generator.Http.Context.{Context, Server}
use pdf_generator.Http.Chain.{id_for}
use pdf_generator.Http.Guards.{
  Verdict, identified, verdict, with_claims, act_on, jwt_auth, limited, rate_limited,
}
use pdf_generator.Http.Routes.{
  Api, Moment, get_jobs, list_route, handle, guarded, serve, query_number,
}
use pdf_generator.Http.RequestLog.{handled-calm}
use pdf_generator.Http.Passage.{reaching, at_group, serve-calm}

-- The clock, an id for the request, and a page of at most 100 rows of one user.
abbrev pub IsPageOf : String → Act → Type 0
IsPageOf user_id (clocked _) = Unit
IsPageOf user_id (drew_uuid _) = Unit
IsPageOf user_id (selected_rows user limit offset _) =
    (user ≡ user_id) × (pos 1 ≤ℤ limit) × (limit ≤ℤ pos 100) × (pos 0 ≤ℤ offset)
IsPageOf user_id _ = ⊥

page-IsPageOf :
    (o : Outside) (svc : PdfService) (user_id : String) (limit offset : ℤ) (log : Log)
    → svc.repo ≡ new_job_repository o
    → Extends (IsPageOf user_id) log (list_handler svc user_id limit offset log).1
unfolding list_handler list_jobs new_job_repository get_by_user_id
page-IsPageOf o svc user_id limit offset log repo =
    let (low, high, first, _, _, _) = page_bounds limit offset in
    rw repo (more _ (refl, low, high, first) same)

limited-IsPageOf :
    (a : Api) (claims : Claims) (limit offset : Option String) (refusal : Option Response)
    (c : Context) (s : Server)
    → a.svc.repo ≡ new_job_repository a.outside
    → Extends
        (IsPageOf claims.user_id)
        s.log
        (limited refusal (list_route a limit offset) (with_claims claims c) s).1.log
unfolding limited list_route
limited-IsPageOf a claims limit offset (some r) c s repo = same
limited-IsPageOf a claims limit offset none c s repo =
    page-IsPageOf a.outside a.svc claims.user_id (query_number limit "20") (query_number offset "0")
      s.log repo

group-IsPageOf :
    (a : Api) (m : Moment) (claims : Claims) (limit offset : Option String) (v : Verdict)
    (c : Context) (s : Server)
    → v ≡ identified claims
    → a.svc.repo ≡ new_job_repository a.outside
    → Extends
        (IsPageOf claims.user_id)
        s.log
        (act_on v (rate_limited m.allow (list_route a limit offset)) c s).1.log
unfolding act_on rate_limited
group-IsPageOf a m claims limit offset v c s known repo =
    rw known (limited-IsPageOf a claims limit offset _ c _ repo)

id_for-IsPageOf :
    (o : Outside) (given user_id : String) (log : Log)
    → Extends (IsPageOf user_id) log (id_for o given log).1
id_for-IsPageOf o given user_id log = elim (Bool-cases (str_eq given "")) [
  | inl missing ↦ rw missing (more _ tt same)
  | inr sent ↦ rw sent same
]

-- Over PostgreSQL, and whatever the two numbers in the query are, also where they are no numbers or out
-- of range, a request for the list of jobs with a valid access token asks for nothing but the rows of
-- the user whom the token names, between 1 and 100 of them from an offset of at least 0, besides the
-- clock and an id for the request.
pub serve-IsPageOf :
    (a : Api) (m : Moment) (limit offset : Option String) (claims : Claims) (c : Context)
    (s : Server)
    → str_eq c.request.method "OPTIONS" ≡ false
    → verdict a.library a.jwt m.now (c.request.header "Authorization") ≡ identified claims
    → a.svc.repo ≡ new_job_repository a.outside
    → Extends (IsPageOf claims.user_id) s.log (serve a m (get_jobs limit offset) c s).1.log
unfolding handle guarded jwt_auth
serve-IsPageOf a m limit offset claims c s h known repo =
    let route = get_jobs limit offset in
    let whole = serve-calm a m route c s h (handled-calm a m route c s refl) in
    rw whole (
      more _ tt (
        Extends-trans
          (more _ tt
            (id_for-IsPageOf a.outside (c.request.header "X-Request-ID") claims.user_id s.log))
          (group-IsPageOf a m claims limit offset _ (reaching a m route c s)
            (at_group a m route c s) known repo)))
