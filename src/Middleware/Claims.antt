-- ===== src/Middleware/Claims.antt =====
-- internal/middleware/authn.go: what a token that is accepted guarantees.
use waypoint_be.Base.{
  String, ◌≡◌, refl, sym, ap, ◌∙◌, ◌≢◌, Bool, true, false, not, List, [], ◌∷◌, str_eq, eq_iff,
  arith, ◌==◌, ==→≡, length, is_empty, ◌<>◌, Result, ok, err, and_then, map_err, unless-ok,
  ok-injective,
}
use waypoint_be.Http.{Request, JwtClaims, JwtConfig, Libraries}
use waypoint_be.Middleware.{
  validate_jwt, extract_and_validate_jwt, OidcProvider, HttpResponse, discover_oidc_provider,
}

-- The result of a chain that succeeded.
pub and_then-ok :
    {E A B : Type 0} (x : Result E A) (f : A → Result E B) (b : B)
    → and_then x f ≡ ok b
    → (a : A) × (x ≡ ok a) × (f a ≡ ok b)
and_then-ok (ok a) f b h = (a, refl, h)
and_then-ok (err e) f b h = ground arith

pub map_err-ok :
    {D E A : Type 0} (g : D → E) (x : Result D A) (a : A) → map_err g x ≡ ok a → x ≡ ok a
map_err-ok g (ok a') a h = cc
map_err-ok g (err e) a h = ground arith

-- What an accepted token says, and where it came from.
pub record Accepted (lib : Libraries) (r : Request) (config : JwtConfig) (claims : JwtClaims)
    : Type 0 where
  pub header : String
  pub one_header : r.authorization ≡ header ∷ []
  pub raw : String
  pub extracted : lib.bearer (header ∷ []) ≡ ok raw
  pub parsed :
      lib.parse_token raw config.key_func ("RS256" ∷ []) config.issuer config.audience ≡ ok claims
  pub subject : claims.subject ≢ ""
  pub issuer : claims.issuer ≡ config.issuer

pub nonempty : (text : String) → is_empty text ≡ false → text ≢ ""
unfolding is_empty
nonempty text h e = let k : is_empty "" ≡ false = ap is_empty (sym e) ∙ h in ground arith

pub not-false : (b : Bool) → not b ≡ false → b ≡ true
not-false true h = refl
not-false false h = sym h

-- The one element of a list of length one.
single : (xs : List String) → not (length xs == 1) ≡ false → (header : String) × (xs ≡ header ∷ [])
single [] h = ground arith
single (x ∷ []) h = (x, refl)
single (x ∷ y ∷ xs) h = ground arith

validate_jwt-ok :
    (lib : Libraries) (raw : String) (config : JwtConfig) (claims : JwtClaims)
    → validate_jwt lib raw config ≡ ok claims
    → (lib.parse_token raw config.key_func ("RS256" ∷ []) config.issuer config.audience ≡ ok claims)
      × (is_empty claims.subject ≡ false)
      × (str_eq claims.issuer config.issuer ≡ true)
unfolding validate_jwt
validate_jwt-ok lib raw config claims h =
    let token = lib.parse_token raw config.key_func ("RS256" ∷ []) config.issuer config.audience in
    let (c, parsed, checked) = and_then-ok (map_err (λ e. "parse token: " <> e) token) _ claims h in
    let (subject, issued) = unless-ok (is_empty c.subject) _ _ claims checked in
    let (issuer, same) = unless-ok (not (str_eq c.issuer config.issuer)) _ _ claims issued in
    rw⁻¹ (ok-injective c claims same) (map_err-ok _ token c parsed, subject, not-false _ issuer)

-- Claims that ExtractAndValidateJWT accepts come from a request with exactly one Authorization
-- header, from the token in it, parsed with RS256 as the only method and with the configured
-- issuer, audience and keys; their subject is not empty and their issuer is the configured one.
pub extract_and_validate_jwt-Accepted :
    (lib : Libraries) (r : Request) (config : JwtConfig) (claims : JwtClaims)
    → extract_and_validate_jwt lib r config ≡ ok claims
    → Accepted lib r config claims
unfolding extract_and_validate_jwt
extract_and_validate_jwt-Accepted lib r config claims h =
    let (counted, rest) = unless-ok (not (length r.authorization == 1)) _ _ claims h in
    let (header, one) = single r.authorization counted in
    let (raw, extracted, checked) =
      and_then-ok (map_err (λ e. "extract bearer token: " <> e) (lib.bearer r.authorization)) _
        claims rest in
    let (parsed, subject, issuer) = validate_jwt-ok lib raw config claims checked in
    record {
      header = header;
      one_header = one;
      raw = raw;
      extracted = rw⁻¹ one (map_err-ok _ (lib.bearer r.authorization) raw extracted);
      parsed = parsed;
      subject = nonempty claims.subject subject;
      issuer = (eq_iff claims.issuer config.issuer).0 issuer;
    }

-- A provider's document that is accepted was read with the status 200 and names the issuer.
pub discover_oidc_provider-issuer :
    (get : String → Result String HttpResponse) (decode : String → Result String OidcProvider)
    (quote : String → String) (issuer : String) (provider : OidcProvider)
    → discover_oidc_provider get decode quote issuer ≡ ok provider
    → (response : HttpResponse) × (get (issuer <> "/.well-known/openid-configuration")
        ≡ ok response)
      × (response.status_code ≡ 200)
      × (decode response.body ≡ ok provider)
      × (provider.issuer ≡ issuer)
unfolding discover_oidc_provider
discover_oidc_provider-issuer get decode quote issuer provider h =
    let url = issuer <> "/.well-known/openid-configuration" in
    let (response, got, rest) =
      and_then-ok (map_err (λ e. "request OIDC discovery: " <> e) (get url)) _ provider h in
    let (status, rest') = unless-ok (not (response.status_code == 200)) _ _ provider rest in
    let (p, read, checked) =
      and_then-ok (map_err (λ e. "decode OIDC discovery response: " <> e) (decode response.body)) _
        provider rest' in
    let (named, same) = unless-ok (not (str_eq p.issuer issuer)) _ _ provider checked in
    let equal : p ≡ provider = ok-injective p provider same in
    (
      response,
      map_err-ok _ (get url) response got,
      ==→≡ _ _ (not-false _ status),
      rw⁻¹ equal (map_err-ok _ (decode response.body) p read),
      rw⁻¹ equal ((eq_iff p.issuer issuer).0 (not-false _ named)),
    )
