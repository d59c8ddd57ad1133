-- ===== src/Examples/Token.antt =====
-- internal/pkg/jwt/jwt.go and internal/handler/auth_handler.go at concrete inputs: a scheme that signs
-- one set of claims, with the secret as the signature.
use text.Mathlib.Text.{◌==◌ as str_eq}
use text.Mathlib.TextEquality.{eq_iff}
use text.Mathlib.TextPositions.{eq_refl}
use pdf_generator.Prelude.{
  ℕ, String, ◌≡◌, ◌≢◌, ◌<◌, ◌≤◌, ◌*◌, ◌/◌, refl, sym, ◌∙◌, Bool, true, false, ◌&&◌, [], arith, ltb,
  ◌==◌, if◌then◌else◌, Bool-cases, inl, inr,
}
use pdf_generator.Go.{GoError, Result, ok, err, other}
use pdf_generator.Domain.{Time}
use pdf_generator.Queue.Reconnect.{second}
use pdf_generator.Token.Manager.{
  Claims, TokenPair, JwtConfig, ParsedToken, JwtLibrary, claims_for, pair_signed, access_signed,
  token_pair_at, generate_token_pair, validate_access_token,
}
use pdf_generator.Token.Validity.{IsScheme, refresh_token-passes}
use pdf_generator.Examples.Samples.{outside}

abbrev pub known : Claims
known = record {
  user_id = "ann";
  email = "ann@example.org";
  expires_at = 900;
  issued_at = 0;
  issuer = "pdf-generator";
}

abbrev is_known : Claims → Bool
is_known c =
    str_eq c.user_id "ann"
    && str_eq c.email "ann@example.org"
    && c.expires_at == 900
    && c.issued_at == 0
    && str_eq c.issuer "pdf-generator"

abbrev sign : Claims → String → Result String
sign c secret = if is_known c then ok secret else err (other "unknown claims")

abbrev parsed : Time → String → Result String → Result ParsedToken
parsed now token (err e) = err e
parsed now token (ok secret) =
    if str_eq secret token
    then if ltb now (900 * second)
      then ok (record { claims = known; valid = true })
      else err (other "token is expired")
    else err (other "signature is invalid")

abbrev pub library : JwtLibrary
library = record {
  numeric_date = λ t. t / second;
  sign = sign;
  parse = λ now token key. parsed now token (key true "HS256");
}

known_fields :
    (user email issuer : String) (expires issued : ℕ)
    → is_known (record {
      user_id = user;
      email = email;
      expires_at = expires;
      issued_at = issued;
      issuer = issuer;
    })
      ≡ true
    → record {
      user_id = user;
      email = email;
      expires_at = expires;
      issued_at = issued;
      issuer = issuer;
    }
      ≡ known
known_fields user email issuer expires issued h =
    ground (arith, eq_iff user "ann", eq_iff email "ann@example.org", eq_iff issuer "pdf-generator")

signed_known :
    (c : Claims) (secret token : String) → sign c secret ≡ ok token → (c ≡ known) × (secret ≡ token)
signed_known c secret token h = elim (Bool-cases (is_known c)) [
  | inl yes_ ↦ (known_fields _ _ _ _ _ yes_, cc (rw yes_ at h))
  | inr no_ ↦ cc (rw no_ at h)
]

early_enough : (now : Time) → now < 900 * second → ltb now (900 * second) ≡ true
early_enough now h = ground arith

too_late : (now : Time) → 900 * second ≤ now → ltb now (900 * second) ≡ false
too_late now h = ground arith

differs : (s t : String) → s ≢ t → str_eq s t ≡ false
differs s t h = ground (arith, eq_iff s t)

accepted :
    (now : Time) (token : String)
    → now < 900 * second
    → parsed now token (ok token) ≡ ok (record { claims = known; valid = true })
accepted now token h = rw (eq_refl token) (rw (early_enough now h) refl)

expired :
    (now : Time) (token : String) (key : Result String)
    → 900 * second ≤ now
    → (e : GoError) × (parsed now token key ≡ err e)
expired now token (err e) h = (e, refl)
expired now token (ok secret) h = elim (Bool-cases (str_eq secret token)) [
  | inl same ↦ (other "token is expired", rw same (rw (too_late now h) refl))
  | inr wrong ↦ (other "signature is invalid", rw wrong refl)
]

pub scheme : IsScheme library
scheme = record {
  accepts = λ now c secret token key s k early.
      let (is_c, is_token) = signed_known c secret token s in
      rw (k, is_token, is_c) (accepted now token (rw is_c at early));
  expires = λ now c secret token key s late.
      let (is_c, _) = signed_known c secret token s in
      expired now token (key true "HS256") (rw is_c at late);
  rejects = λ now c secret other_secret token key s k differ.
      let (_, is_token) = signed_known c secret token s in
      (
        other "signature is invalid",
        rw k (rw (differs other_secret token (λ same. differ (is_token ∙ sym same))) refl),
      );
}

abbrev pub jwt_config : JwtConfig
jwt_config = record {
  access_secret = "access";
  refresh_secret = "refresh";
  access_ttl = 900 * second;
  refresh_ttl = 900 * second;
}

abbrev pub pair : TokenPair
pair = record { access_token = "access"; refresh_token = "refresh"; expires_at = 900 }

pub issued : (generate_token_pair outside library jwt_config "ann" "ann@example.org" []).0 ≡ ok pair
unfolding generate_token_pair token_pair_at access_signed pair_signed claims_for
issued = refl

different : (s t : String) → str_eq s t ≡ false → s ≢ t
different s t h = ground (arith, eq_iff s t)

-- One secret for both purposes.
abbrev one_secret : JwtConfig
one_secret = record jwt_config { access_secret = "refresh" }

issued_alike :
    (generate_token_pair outside library one_secret "ann" "ann@example.org" []).0
    ≡ ok (record pair { access_token = "refresh" })
unfolding generate_token_pair token_pair_at access_signed pair_signed claims_for
issued_alike = refl

refresh_token-passes_example :
    (r : Claims) × (validate_access_token library one_secret 5 "refresh" ≡ ok r)
    × (r.user_id ≡ "ann")
refresh_token-passes_example =
    refresh_token-passes outside library scheme one_secret "ann" "ann@example.org" []
      (record pair { access_token = "refresh" }) issued_alike 5 refl (omega arith)
