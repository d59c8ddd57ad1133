-- ===== src/Token/Manager.antt =====
-- `Manager`: issuing and validating tokens. Times to live are not negative.
use Prim.Native.String.{◌++◌}
use pdf_generator.Prelude.{ℕ, String, Bool, ◌+◌, if◌then◌else◌}
use pdf_generator.Go.{Result, ok, err, other, wrap}
use pdf_generator.Domain.{Time}
use pdf_generator.World.{Outside, M, ◌>>=◌, pure, clock}

-- Dates are seconds.
pub record Claims : Type 0 where
  pub user_id : String
  pub email : String
  pub expires_at : ℕ
  pub issued_at : ℕ
  pub issuer : String

pub record TokenPair : Type 0 where
  pub access_token : String
  pub refresh_token : String
  pub expires_at : ℕ

-- internal/config/config.go: `JWTConfig`.
pub record JwtConfig : Type 0 where
  pub access_secret : String
  pub refresh_secret : String
  pub access_ttl : ℕ
  pub refresh_ttl : ℕ

pub record ParsedToken : Type 0 where
  pub claims : Claims
  pub valid : Bool

-- `NewNumericDate`, `NewWithClaims(SigningMethodHS256, …).SignedString` and `ParseWithClaims` at a
-- moment, whose key function sees whether the method is HMAC, and its name.
pub record JwtLibrary : Type 0 where
  pub numeric_date : Time → ℕ
  pub sign : Claims → String → Result String
  pub parse : Time → String → (Bool → String → Result String) → Result ParsedToken

unfoldable pub claims_for : JwtLibrary → String → String → Time → ℕ → Claims
claims_for lib user_id email now ttl = record {
  user_id = user_id;
  email = email;
  expires_at = lib.numeric_date (now + ttl);
  issued_at = lib.numeric_date now;
  issuer = "pdf-generator";
}

-- `GenerateTokenPair` after the refresh token has been signed.
unfoldable pub pair_signed : Claims → String → Result String → Result TokenPair
pair_signed access access_token (err e) = err (wrap "sign refresh token: " e)
pair_signed access access_token (ok refresh_token) = ok (record {
  access_token = access_token;
  refresh_token = refresh_token;
  expires_at = access.expires_at;
})

-- `GenerateTokenPair` after the access token has been signed.
unfoldable pub access_signed :
    JwtLibrary → JwtConfig → String → String → Time → Result String → Result TokenPair
access_signed lib cfg user_id email now (err e) = err (wrap "sign access token: " e)
access_signed lib cfg user_id email now (ok access_token) =
    pair_signed (claims_for lib user_id email now cfg.access_ttl) access_token
      (lib.sign (claims_for lib user_id email now cfg.refresh_ttl) cfg.refresh_secret)

unfoldable pub token_pair_at : JwtLibrary → JwtConfig → String → String → Time → Result TokenPair
token_pair_at lib cfg user_id email now =
    access_signed lib cfg user_id email now
      (lib.sign (claims_for lib user_id email now cfg.access_ttl) cfg.access_secret)

unfoldable pub generate_token_pair :
    Outside → JwtLibrary → JwtConfig → String → String → M (Result TokenPair)
generate_token_pair o lib cfg user_id email = do
  now ← clock o
  pure (token_pair_at lib cfg user_id email now)

-- The key function of `validate`.
abbrev pub key_for : String → Bool → String → Result String
key_for secret is_hmac alg =
    if is_hmac then ok secret else err (other ("unexpected signing method: " ++ alg))

-- The part of `validate` after `ParseWithClaims`.
unfoldable pub check_token : Result ParsedToken → Result Claims
check_token (err e) = err (wrap "parse token: " e)
check_token (ok token) = if token.valid then ok token.claims else err (other "invalid token claims")

unfoldable pub validate_token : JwtLibrary → Time → String → String → Result Claims
validate_token lib now token secret = check_token (lib.parse now token (key_for secret))

unfoldable pub validate_access_token : JwtLibrary → JwtConfig → Time → String → Result Claims
validate_access_token lib cfg now token = validate_token lib now token cfg.access_secret

unfoldable pub validate_refresh_token : JwtLibrary → JwtConfig → Time → String → Result Claims
validate_refresh_token lib cfg now token = validate_token lib now token cfg.refresh_secret
