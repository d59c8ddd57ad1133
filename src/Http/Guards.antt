-- ===== src/Http/Guards.antt =====
-- `JWTAuth` and `RateLimit`, the middleware of the routes that need a user.
use text.Mathlib.Text.{◌==◌ as str_eq}
use pdf_generator.Prelude.{ℕ, String, Bool, List, [], ◌∷◌, Option, none, some, if◌then◌else◌}
use pdf_generator.Go.{Result, ok, err}
use pdf_generator.Go.Strings.{codes, to_lower, same_codes, split_at_space}
use pdf_generator.Domain.{Time}
use pdf_generator.Token.Manager.{Claims, JwtLibrary, JwtConfig, validate_access_token}
use pdf_generator.Handler.Response.{Response, refuse}
use pdf_generator.Middleware.RateLimit.{rate_limit}
use pdf_generator.Http.Context.{Context, send_json, Handler}

-- What `JWTAuth` makes of a header: the message of the refusal, or the claims.
pub data Verdict : Type 0 where
  turned_away : String → Verdict
  identified : Claims → Verdict

-- The token, where there are two parts and the first is "bearer" in any case.
abbrev pub bearer_token : List String → Option String
bearer_token [] = none
bearer_token (scheme ∷ []) = none
bearer_token (scheme ∷ token ∷ []) =
    if same_codes (to_lower scheme) (codes "bearer") then some token else none
bearer_token (scheme ∷ token ∷ more ∷ parts) = none

abbrev claims_verdict : Result Claims → Verdict
claims_verdict (err e) = turned_away "invalid or expired token"
claims_verdict (ok claims) = identified claims

abbrev token_verdict : JwtLibrary → JwtConfig → Time → Option String → Verdict
token_verdict lib cfg now none = turned_away "invalid authorization format"
token_verdict lib cfg now (some token) = claims_verdict (validate_access_token lib cfg now token)

unfoldable pub verdict : JwtLibrary → JwtConfig → Time → String → Verdict
verdict lib cfg now header =
    if str_eq header ""
    then turned_away "authorization header required"
    else token_verdict lib cfg now (bearer_token (split_at_space header))

abbrev pub with_claims : Claims → Context → Context
with_claims claims c = record c { user_id = some claims.user_id; email = some claims.email }

unfoldable pub act_on : Verdict → Handler → Handler
act_on (turned_away message) next c s = ((none, send_json (refuse 401 message []) c), s)
act_on (identified claims) next c s = next (with_claims claims c) s

-- `JWTAuth`; `now` is the moment at which golang-jwt validates.
unfoldable pub jwt_auth : JwtLibrary → JwtConfig → Time → Handler → Handler
jwt_auth lib cfg now next c s =
    act_on (verdict lib cfg now (c.request.header "Authorization")) next c s

-- `RateLimit`; `allow` is the answer of `Allow()` of each limiter.
unfoldable pub limited : Option Response → Handler → Handler
limited none next c s = next c s
limited (some refusal) next c s = ((none, send_json refusal c), s)

unfoldable pub rate_limited : (ℕ → Bool) → Handler → Handler
rate_limited allow next c s =
    let (refusal, limiter) = rate_limit allow s.limiter c.request.client_ip c.user_id in
    limited refusal next c (record s { limiter = limiter })
