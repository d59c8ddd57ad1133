-- ===== src/Http/Refusal.antt =====
-- Which requests for a protected route are refused: those whose header holds no token that golang-jwt
-- takes for a valid one.
use text.Mathlib.Text.{◌==◌ as str_eq}
use text.Mathlib.TextEquality.{eq_iff}
use pdf_generator.Prelude.{
  String, ◌≡◌, ◌≢◌, refl, sym, ap, ◌∙◌, ◌==◌, true, false, List, [], ◌∷◌, ◌++◌, some, ◌⊎◌, inl, inr,
  arith, Bool-cases, Option-cases,
}
use Prim.Native.Char.{Char, code}
use pdf_generator.Go.{GoError, ok, err, other, wrap, Result-cases}
use pdf_generator.Go.Strings.{codes, to_lower, same_codes, onto_first, split_at_space}
use pdf_generator.Domain.{Time, new_api_error}
use pdf_generator.World.Extends.{Extends}
use pdf_generator.Token.Manager.{
  JwtLibrary, JwtConfig, ParsedToken, key_for, check_token, validate_token, validate_access_token,
}
use pdf_generator.Handler.Response.{api_error}
use pdf_generator.Http.Context.{Context, Server}
use pdf_generator.Http.Guards.{turned_away, bearer_token, verdict}
use pdf_generator.Http.Routes.{Api, Moment, Route, is_protected, serve}
use pdf_generator.Http.Access.{IsIdle, serve-turned_away}

-- A header that is "bearer" in any case, a space, and a token.
abbrev pub HasToken : String → String → Type 0
HasToken header token =
    (scheme : String) × (codes header ≡ codes scheme ++ b' ' ∷ codes token)
    × (same_codes (to_lower scheme) (codes "bearer") ≡ true)

-- A token that golang-jwt parses with the access secret, and takes for valid.
abbrev pub IsAccepted : JwtLibrary → JwtConfig → Time → String → Type 0
IsAccepted lib cfg now token =
    (t : ParsedToken) × (lib.parse now token (key_for cfg.access_secret) ≡ ok t) × (t.valid ≡ true)

-- The message with which a header is refused.
abbrev pub Reason : String → String → Type 0
Reason header message =
    ((header ≡ "") × (message ≡ "authorization header required"))
    ⊎ ((header ≢ "")
        × ((message ≡ "invalid authorization format")
            ⊎ ((message ≡ "invalid or expired token")
                × ((token : String) × HasToken header token))))

onto_first-parts :
    (c : Char) (parts : List String) (scheme token : String)
    → onto_first c parts ≡ scheme ∷ token ∷ []
    → (rest : String) × (parts ≡ rest ∷ token ∷ []) × (scheme ≡ String.◌∷◌ c rest)
onto_first-parts c [] scheme token h = cc
onto_first-parts c (part ∷ []) scheme token h = cc
onto_first-parts c (part ∷ second ∷ []) scheme token h = (part, cc, cc)
onto_first-parts c (part ∷ second ∷ third ∷ parts) scheme token h = cc

-- The two parts of a header have its characters, with a space between them.
split_codes :
    (header scheme token : String)
    → split_at_space header ≡ scheme ∷ token ∷ []
    → codes header ≡ codes scheme ++ b' ' ∷ codes token
split_codes String.[] scheme token h = cc
split_codes (String.◌∷◌ c s) scheme token h = elim (Bool-cases (code c == b' ')) [
  | inl space ↦
      let here : code c ≡ b' ' = ground arith in
      let parts : "" ∷ s ∷ [] ≡ scheme ∷ token ∷ [] = rw space at h in
      let first : "" ≡ scheme = cc in
      let second : s ≡ token = cc in rw (here, ← first, ← second) refl
  | inr letter ↦
      let (rest, parts, first) =
        onto_first-parts c (split_at_space s) scheme token (rw letter at h) in
      rw first (ap (λ xs. code c ∷ xs) (split_codes s rest token parts))
]

bearer_token-HasToken :
    (header token : String) (parts : List String)
    → split_at_space header ≡ parts
    → bearer_token parts ≡ some token
    → HasToken header token
bearer_token-HasToken header token [] e h = cc
bearer_token-HasToken header token (scheme ∷ []) e h = cc
bearer_token-HasToken header token (scheme ∷ second ∷ third ∷ parts) e h = cc
bearer_token-HasToken header token (scheme ∷ second ∷ []) e h =
    elim (Bool-cases (same_codes (to_lower scheme) (codes "bearer"))) [
      | inl bearer ↦
          let same : second ≡ token = some_inj (rw bearer at h) in
          (scheme, split_codes header scheme token (e ∙ ap (λ t. scheme ∷ t ∷ []) same), bearer)
      | inr unlike ↦ cc (rw unlike at h)
    ]
  where
    some_inj : {x y : String} → some x ≡ some y → x ≡ y
    some_inj e = cc

module _ (lib : JwtLibrary) (cfg : JwtConfig) (now : Time) where
  -- A token that is not accepted has no claims.
  unaccepted :
      (token : String)
      → ¬ IsAccepted lib cfg now token
      → (e : GoError) × (validate_access_token lib cfg now token ≡ err e)
  unfolding validate_access_token validate_token check_token
  unaccepted token bad = elim (Result-cases (lib.parse now token (key_for cfg.access_secret))) [
    | inr (e, unparsed) ↦ (wrap "parse token: " e, rw unparsed refl)
    | inl (t, parsed) ↦ elim (Bool-cases t.valid) [
      | inl valid ↦ absurd (bad (t, parsed, valid))
      | inr invalid ↦ (other "invalid token claims", rw (parsed, invalid) refl)
    ]
  ]

  -- A header without an accepted token is turned away.
  verdict-refuses :
      (header : String)
      → ((token : String) → HasToken header token → ¬ IsAccepted lib cfg now token)
      → (message : String) × Reason header message
        × (verdict lib cfg now header ≡ turned_away message)
  unfolding verdict
  verdict-refuses header bad = elim (Bool-cases (str_eq header "")) [
    | inl missing ↦
        ("authorization header required", inl ((eq_iff header "").0 missing, refl), rw missing refl)
    | inr sent ↦
        let differs : header ≢ "" = λ same. cc (sym ((eq_iff header "").1 same) ∙ sent) in
        elim (Option-cases (bearer_token (split_at_space header))) [
          | inl none_there ↦ (
            "invalid authorization format",
            inr (differs, inl refl),
            rw sent (rw none_there refl),
          )
          | inr (token, there) ↦
              let has = bearer_token-HasToken header token (split_at_space header) refl there in
              let (e, refused) = unaccepted token (bad token has) in
              (
                "invalid or expired token",
                inr (differs, inr (refl, (token, has))),
                rw sent (rw there (rw refused refl)),
              )
        ]
  ]

-- A request for a protected route whose header holds no token that golang-jwt parses with the access
-- secret and takes for valid is answered with the status 401, where nothing was sent before, and with
-- the reason: that there is no header, that it has not the form of a bearer token, or that its token is
-- not valid. Only the clock, and an id for the request, is asked of the outside, and neither the limiter
-- nor the broker changes.
pub serve-refuses :
    (a : Api) (m : Moment) (route : Route) (c : Context) (s : Server)
    → str_eq c.request.method "OPTIONS" ≡ false
    → is_protected route ≡ true
    → c.sent ≡ false
    → ((token : String)
        → HasToken (c.request.header "Authorization") token
        → ¬ IsAccepted a.library a.jwt m.now token)
    → ((serve a m route c s).0.1.status ≡ 401)
      × ((message : String) × Reason (c.request.header "Authorization") message
          × ((serve a m route c s).0.1.bodies
              ≡ api_error (new_api_error 401 message []) ∷ c.bodies))
      × ((serve a m route c s).1.limiter ≡ s.limiter)
      × ((serve a m route c s).1.broker ≡ s.broker)
      × Extends IsIdle s.log (serve a m route c s).1.log
serve-refuses a m route c s h k fresh bad =
    let (message, why, v) =
      verdict-refuses a.library a.jwt m.now (c.request.header "Authorization") bad in
    let (status, bodies, limiter, broker, log) =
      serve-turned_away a m route c s message h k fresh v in
    (status, (message, why, bodies), limiter, broker, log)
