-- ===== src/Handler/Auth.antt =====
-- internal/handler/auth_handler.go. The body that `ShouldBindJSON` reads is an argument, and so is the
-- moment at which golang-jwt validates.
use pdf_generator.Prelude.{String, []}
use pdf_generator.Go.{Result, ok, err}
use pdf_generator.Domain.{Time}
use pdf_generator.World.{Outside, M, ◌>>=◌, pure, new_uuid}
use pdf_generator.Token.Manager.{
  Claims, TokenPair, JwtConfig, JwtLibrary, generate_token_pair, validate_refresh_token,
}
use pdf_generator.Handler.Response.{Response, tokens, respond, refuse}

-- The password is read and not used.
pub record LoginRequest : Type 0 where
  pub email : String
  pub password : String

abbrev pub pair_response : Result TokenPair → Response
pair_response (ok pair) = respond 200 (tokens pair)
pair_response (err e) = refuse 500 "token generation failed" []

unfoldable pub login_handler : Outside → JwtLibrary → JwtConfig → Result LoginRequest → M Response
login_handler o lib cfg (err _) = pure (refuse 400 "invalid request" [])
login_handler o lib cfg (ok req) = do
  user_id ← new_uuid o
  pair ← generate_token_pair o lib cfg user_id req.email
  pure (pair_response pair)

-- The part of `Refresh` after `ValidateRefreshToken`.
unfoldable pub refresh_validated : Outside → JwtLibrary → JwtConfig → Result Claims → M Response
refresh_validated o lib cfg (err _) = pure (refuse 401 "invalid refresh token" [])
refresh_validated o lib cfg (ok claims) = do
  pair ← generate_token_pair o lib cfg claims.user_id claims.email
  pure (pair_response pair)

unfoldable pub refresh_handler :
    Outside → JwtLibrary → JwtConfig → Time → Result String → M Response
refresh_handler o lib cfg now (err _) = pure (refuse 400 "invalid request" [])
refresh_handler o lib cfg now (ok refresh_token) =
    refresh_validated o lib cfg (validate_refresh_token lib cfg now refresh_token)
