-- ===== src/Http/Login.antt =====
-- From the login to the job: a request with a token that was issued.
use Prim.Native.String.{◌++◌}
use text.Mathlib.Text.{◌==◌ as str_eq}
use text.Mathlib.TextEquality.{eq_iff}
use Prim.Native.Char.{Char}
use text.Mathlib.TextLemmas.{nil-append, cons-append}
use pdf_generator.Prelude.{
  String, ◌+◌, ◌*◌, ◌<◌, ◌≡◌, refl, ap, ◌∙◌, false, Bool-cases, if◌then◌else◌, inl, inr,
}
use pdf_generator.Go.{ok}
use pdf_generator.Domain.{Time}
use pdf_generator.World.{Log}
use pdf_generator.Queue.Reconnect.{second}
use pdf_generator.Token.Manager.{
  Claims, TokenPair, JwtConfig, JwtLibrary, generate_token_pair, validate_access_token,
}
use pdf_generator.Token.Validity.{IsScheme, access_token-valid}
use pdf_generator.Repository.Postgres.{new_job_repository}
use pdf_generator.Handler.Status.{Row, answer, expected_status}
use pdf_generator.Http.Context.{Context, Server}
use pdf_generator.Http.Guards.{identified, verdict}
use pdf_generator.Http.Routes.{Api, Moment, get_job, serve}
use pdf_generator.Http.Passage.{at_group}
use pdf_generator.Http.Access.{allowed, expected_get, serve-status}

-- The header that the client sends with a token.
abbrev pub bearer_header : String → String
bearer_header token = "Bearer " ++ token

bearer_codes :
    (token : String)
    → bearer_header token
      ≡ String.◌∷◌ "B" (
          String.◌∷◌ "e" (
            String.◌∷◌ "a"
              (String.◌∷◌ "r" (String.◌∷◌ "e" (String.◌∷◌ "r" (String.◌∷◌ " " token))))))
bearer_codes token =
    cons-append "B" "earer " token
    ∙ ap (String.◌∷◌ "B") (
        cons-append "e" "arer " token
        ∙ ap (String.◌∷◌ "e") (
            cons-append "a" "rer " token
            ∙ ap (String.◌∷◌ "a") (
                cons-append "r" "er " token
                ∙ ap (String.◌∷◌ "r") (
                    cons-append "e" "r " token
                    ∙ ap (String.◌∷◌ "e") (
                        cons-append "r" " " token
                        ∙ ap (String.◌∷◌ "r")
                            (cons-append " " "" token ∙ ap (String.◌∷◌ " ") (nil-append token)))))))

cons-empty : (c : Char) (s : String) → str_eq (String.◌∷◌ c s) "" ≡ false
cons-empty c s = elim (Bool-cases (str_eq (String.◌∷◌ c s) "")) [
  | inl same ↦ cc ((eq_iff (String.◌∷◌ c s) "").0 same)
  | inr different ↦ different
]

-- A header with a valid access token identifies its user.
header-identified :
    (lib : JwtLibrary) (cfg : JwtConfig) (now : Time) (token : String) (claims : Claims)
    → validate_access_token lib cfg now token ≡ ok claims
    → verdict lib cfg now (bearer_header token) ≡ identified claims
unfolding verdict
header-identified lib cfg now token claims valid =
    rw (bearer_codes token) (rw (cons-empty "B" _) (rw valid refl))

-- Under a signature scheme as documented and over PostgreSQL, a request for a job with an access token
-- that was issued to a user, before the date of the token, is answered with the status of that job for
-- that user, or with 429 where the limiter of the user does not allow it.
pub serve-issued :
    (a : Api) (m : Moment) (email user_id job_id : String) (row : Row) (log : Log)
    (pair : TokenPair) (c : Context) (s : Server)
    → IsScheme a.library
    → (generate_token_pair a.outside a.library a.jwt user_id email log).0 ≡ ok pair
    → m.now < a.library.numeric_date (a.outside.now log + a.jwt.access_ttl) * second
    → c.request.header "Authorization" ≡ bearer_header pair.access_token
    → str_eq c.request.method "OPTIONS" ≡ false
    → c.sent ≡ false
    → a.svc.repo ≡ new_job_repository a.outside
    → a.outside.query_row (at_group a m (get_job job_id) c s).log job_id ≡ answer row
    → (serve a m (get_job job_id) c s).0.1.status
      ≡ (if allowed m s.limiter user_id then expected_status user_id job_id row else 429)
unfolding expected_get
serve-issued a m email user_id job_id row log pair c s scheme issued early header h fresh repo
      read =
    let (claims, valid, user) =
      access_token-valid a.outside a.library scheme a.jwt user_id email log pair issued m.now
        early in
    serve-status a m job_id row c s h fresh repo read
    ∙ ap (λ v. expected_get (allowed m s.limiter) job_id row v)
        (ap (verdict a.library a.jwt m.now) header
          ∙ header-identified a.library a.jwt m.now pair.access_token claims valid)
    ∙ ap (λ u. if allowed m s.limiter u then expected_status u job_id row else 429) user
