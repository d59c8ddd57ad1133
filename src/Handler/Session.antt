-- ===== src/Handler/Session.antt =====
-- A session from the login to a refresh of its tokens.
use pdf_generator.Prelude.{String, ◌+◌, ◌<◌, ◌*◌, ◌≡◌, ◌≢◌, refl}
use pdf_generator.Go.{ok}
use pdf_generator.Domain.{Time}
use pdf_generator.World.{Outside, Log}
use pdf_generator.Queue.Reconnect.{second}
use pdf_generator.Token.Manager.{
  Claims, TokenPair, JwtConfig, JwtLibrary, generate_token_pair, validate_refresh_token,
}
use pdf_generator.Token.Validity.{IsScheme, token_pair-valid, token_pair-separate}
use pdf_generator.Handler.Auth.{pair_response, refresh_validated, refresh_handler}

module _ (o : Outside) (lib : JwtLibrary) (scheme : IsScheme lib) (cfg : JwtConfig)
    (user_id email : String) (log : Log) (pair : TokenPair)
    (issued : (generate_token_pair o lib cfg user_id email log).0 ≡ ok pair) where
  refreshed_as :
      (c : Claims) (later : Time) (log' : Log)
      → validate_refresh_token lib cfg later pair.refresh_token ≡ ok c
      → c.user_id ≡ user_id
      → c.email ≡ email
      → refresh_handler o lib cfg later (ok pair.refresh_token) log' ≡ (
        pair_response (generate_token_pair o lib cfg user_id email log').0,
        (generate_token_pair o lib cfg user_id email log').1,
      )
  unfolding refresh_handler refresh_validated
  refreshed_as c later log' valid user mail = rw valid (rw (user, mail) refl)

  -- Under a signature scheme as documented, and while both tokens of a pair are valid, a request to
  -- refresh with its refresh token is answered as the issue of a new pair for the same user and the
  -- same email address.
  pub refresh_handler-same_user :
      (later : Time) (log' : Log)
      → later < lib.numeric_date (o.now log + cfg.access_ttl) * second
      → later < lib.numeric_date (o.now log + cfg.refresh_ttl) * second
      → refresh_handler o lib cfg later (ok pair.refresh_token) log' ≡ (
        pair_response (generate_token_pair o lib cfg user_id email log').0,
        (generate_token_pair o lib cfg user_id email log').1,
      )
  refresh_handler-same_user later log' early early' =
      let (a, r, _, valid, _, _, user, mail) =
        token_pair-valid o lib scheme cfg user_id email log pair issued later early early' in
      refreshed_as r later log' valid user mail

  -- Under a signature scheme as documented, and where the two secrets differ, a request to refresh
  -- with an access token is answered with the status 401, at any time, and nothing is asked of the
  -- outside.
  pub refresh_handler-refuses :
      (later : Time) (log' : Log)
      → cfg.access_secret ≢ cfg.refresh_secret
      → ((refresh_handler o lib cfg later (ok pair.access_token) log').0.code ≡ 401)
        × ((refresh_handler o lib cfg later (ok pair.access_token) log').1 ≡ log')
  unfolding refresh_handler refresh_validated
  refresh_handler-refuses later log' differ =
      let (_, (e, refused)) =
        token_pair-separate o lib scheme cfg user_id email log pair issued later differ in
      (rw refused refl, rw refused refl)
