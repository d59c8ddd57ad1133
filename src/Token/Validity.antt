-- ===== src/Token/Validity.antt =====
-- Which tokens of a pair are valid, for what and how long.
use pdf_generator.Prelude.{ℕ, String, ◌≡◌, ◌≢◌, ◌<◌, ◌≤◌, ◌*◌, ◌+◌, refl, sym, ◌∙◌, ap, Bool, true}
use pdf_generator.Go.{GoError, Result, ok, err, wrap}
use pdf_generator.Domain.{Time}
use pdf_generator.World.{Outside, Log}
use pdf_generator.Queue.Reconnect.{second}
use pdf_generator.Token.Manager.{
  Claims, TokenPair, JwtConfig, JwtLibrary, claims_for, pair_signed, access_signed, token_pair_at,
  generate_token_pair, key_for, check_token, validate_token, validate_access_token,
  validate_refresh_token,
}

-- What golang-jwt documents of HMAC tokens with an expiry date: with the key that signed it a token
-- is valid before the date and refused from it on, and with another key it is refused.
pub record IsScheme (lib : JwtLibrary) : Type 0 where
  pub accepts :
      (now : Time) (c : Claims) (secret token : String) (key : Bool → String → Result String)
      → lib.sign c secret ≡ ok token
      → key true "HS256" ≡ ok secret
      → now < c.expires_at * second
      → lib.parse now token key ≡ ok (record { claims = c; valid = true })
  pub expires :
      (now : Time) (c : Claims) (secret token : String) (key : Bool → String → Result String)
      → lib.sign c secret ≡ ok token
      → c.expires_at * second ≤ now
      → (e : GoError) × (lib.parse now token key ≡ err e)
  pub rejects :
      (now : Time) (c : Claims) (secret other_secret token : String)
      (key : Bool → String → Result String)
      → lib.sign c secret ≡ ok token
      → key true "HS256" ≡ ok other_secret
      → secret ≢ other_secret
      → (e : GoError) × (lib.parse now token key ≡ err e)

-- Both tokens of a pair are signatures of the claims.
record IsSigned (lib : JwtLibrary) (cfg : JwtConfig) (user_id email : String) (now : Time)
    (pair : TokenPair) : Type 0 where
  access :
      lib.sign (claims_for lib user_id email now cfg.access_ttl) cfg.access_secret
      ≡ ok pair.access_token
  refresh :
      lib.sign (claims_for lib user_id email now cfg.refresh_ttl) cfg.refresh_secret
      ≡ ok pair.refresh_token

pair_tokens :
    (access refresh : String) (date : ℕ) (pair : TokenPair)
    → ok (record { access_token = access; refresh_token = refresh; expires_at = date }) ≡ ok pair
    → (access ≡ pair.access_token) × (refresh ≡ pair.refresh_token)
pair_tokens access refresh date pair h = (
  ap (λ (p : TokenPair). p.access_token) (ok_inj h),
  ap (λ (p : TokenPair). p.refresh_token) (ok_inj h),
)
  where
    ok_inj : {p q : TokenPair} → ok p ≡ ok q → p ≡ q
    ok_inj h = cc

module _ (lib : JwtLibrary) (cfg : JwtConfig) (user_id email : String) (now : Time)
    (pair : TokenPair) where
  access_signed-IsSigned :
      (access refresh : Result String)
      → lib.sign (claims_for lib user_id email now cfg.access_ttl) cfg.access_secret ≡ access
      → lib.sign (claims_for lib user_id email now cfg.refresh_ttl) cfg.refresh_secret ≡ refresh
      → access_signed lib cfg user_id email now access ≡ ok pair
      → IsSigned lib cfg user_id email now pair
  unfolding access_signed pair_signed
  access_signed-IsSigned (err e) refresh a r h = cc
  access_signed-IsSigned (ok access) (err e) a r h = cc (rw r at h)
  access_signed-IsSigned (ok access) (ok refresh) a r h =
      let (first, second_) = pair_tokens access refresh _ pair (rw r at h) in
      record { access = a ∙ ap ok first; refresh = r ∙ ap ok second_ }

  pair-IsSigned :
      token_pair_at lib cfg user_id email now ≡ ok pair → IsSigned lib cfg user_id email now pair
  unfolding token_pair_at
  pair-IsSigned h = access_signed-IsSigned _ _ refl refl h

valid_of_parsed :
    (lib : JwtLibrary) (now : Time) (token secret : String) (c : Claims)
    → lib.parse now token (key_for secret) ≡ ok (record { claims = c; valid = true })
    → validate_token lib now token secret ≡ ok c
unfolding validate_token check_token
valid_of_parsed lib now token secret c h = rw h refl

refused_of_parsed :
    (lib : JwtLibrary) (now : Time) (token secret : String)
    → (e : GoError) × (lib.parse now token (key_for secret) ≡ err e)
    → (e : GoError) × (validate_token lib now token secret ≡ err e)
unfolding validate_token check_token
refused_of_parsed lib now token secret (e, h) = (wrap "parse token: " e, rw h refl)

module _ (o : Outside) (lib : JwtLibrary) (scheme : IsScheme lib) (cfg : JwtConfig)
    (user_id email : String) (log : Log) (pair : TokenPair)
    (issued : (generate_token_pair o lib cfg user_id email log).0 ≡ ok pair) where
  signed : IsSigned lib cfg user_id email (o.now log) pair
  unfolding generate_token_pair
  signed = pair-IsSigned lib cfg user_id email (o.now log) pair issued

  pub access_token-valid :
      (later : Time)
      → later < lib.numeric_date (o.now log + cfg.access_ttl) * second
      → (a : Claims) × (validate_access_token lib cfg later pair.access_token ≡ ok a)
        × (a.user_id ≡ user_id)
  unfolding claims_for validate_access_token
  access_token-valid later early = (
    claims_for lib user_id email (o.now log) cfg.access_ttl,
    valid_of_parsed lib later _ _ _ (scheme.accepts later _ _ _ _ signed.access refl early),
    refl,
  )

  -- Under a signature scheme as documented, each token of a pair validates for its own purpose before
  -- its date, to claims that name the user and the email address it was issued for.
  pub token_pair-valid :
      (later : Time)
      → later < lib.numeric_date (o.now log + cfg.access_ttl) * second
      → later < lib.numeric_date (o.now log + cfg.refresh_ttl) * second
      → (a : Claims) × (r : Claims) × (validate_access_token lib cfg later pair.access_token ≡ ok a)
        × (validate_refresh_token lib cfg later pair.refresh_token ≡ ok r)
        × (a.user_id ≡ user_id)
        × (a.email ≡ email)
        × (r.user_id ≡ user_id)
        × (r.email ≡ email)
  unfolding claims_for validate_access_token validate_refresh_token
  token_pair-valid later a r = (
    claims_for lib user_id email (o.now log) cfg.access_ttl,
    claims_for lib user_id email (o.now log) cfg.refresh_ttl,
    valid_of_parsed lib later _ _ _ (scheme.accepts later _ _ _ _ signed.access refl a),
    valid_of_parsed lib later _ _ _ (scheme.accepts later _ _ _ _ signed.refresh refl r),
    refl,
    refl,
    refl,
    refl,
  )

  -- Under a signature scheme as documented, and where the two secrets differ, neither token of a pair
  -- validates for the purpose of the other, at any time.
  pub token_pair-separate :
      (later : Time)
      → cfg.access_secret ≢ cfg.refresh_secret
      → ((e : GoError) × (validate_access_token lib cfg later pair.refresh_token ≡ err e))
        × ((e : GoError) × (validate_refresh_token lib cfg later pair.access_token ≡ err e))
  unfolding validate_access_token validate_refresh_token
  token_pair-separate later differ = (
    refused_of_parsed lib later _ _
        (scheme.rejects later _ _ _ _ _ signed.refresh refl (λ same. differ (sym same))),
    refused_of_parsed lib later _ _ (scheme.rejects later _ _ _ _ _ signed.access refl differ),
  )

  -- Under a signature scheme as documented, an access token is refused from its date on, also as a
  -- refresh token.
  pub access_token-expires :
      (later : Time)
      → lib.numeric_date (o.now log + cfg.access_ttl) * second ≤ later
      → ((e : GoError) × (validate_access_token lib cfg later pair.access_token ≡ err e))
        × ((e : GoError) × (validate_refresh_token lib cfg later pair.access_token ≡ err e))
  unfolding claims_for validate_access_token validate_refresh_token
  access_token-expires later past = (
    refused_of_parsed lib later _ _ (scheme.expires later _ _ _ _ signed.access past),
    refused_of_parsed lib later _ _ (scheme.expires later _ _ _ _ signed.access past),
  )

  -- Under a signature scheme as documented, where the two secrets are the same, which nothing refuses, a
  -- refresh token passes as an access token for its user, until its own date.
  pub refresh_token-passes :
      (later : Time)
      → cfg.access_secret ≡ cfg.refresh_secret
      → later < lib.numeric_date (o.now log + cfg.refresh_ttl) * second
      → (r : Claims) × (validate_access_token lib cfg later pair.refresh_token ≡ ok r)
        × (r.user_id ≡ user_id)
  unfolding claims_for validate_access_token
  refresh_token-passes later alike early = (
    claims_for lib user_id email (o.now log) cfg.refresh_ttl,
    ap (validate_token lib later pair.refresh_token) alike
        ∙ valid_of_parsed lib later _ _ _ (scheme.accepts later _ _ _ _ signed.refresh refl early),
    refl,
  )
