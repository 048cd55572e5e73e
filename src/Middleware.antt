-- ===== src/Middleware.antt =====
-- internal/middleware/authn.go: the bearer token of a request and its claims, and the discovery of
-- the OpenID provider.
pub mod Claims
use waypoint_be.Base.{
  ℕ, ◌-◌, ◌<◌, String, not, [], ◌∷◌, str_eq, ◌==◌, if◌then◌else◌, length, is_empty, ◌<>◌, decimal,
  Result, ok, err, and_then, map_err,
}
use waypoint_be.Http.{Request, JwtClaims, JwtConfig, Libraries}

-- ValidateJWT
unfoldable pub validate_jwt : Libraries → String → JwtConfig → Result String JwtClaims
validate_jwt lib raw config =
    and_then
      (map_err (λ e. "parse token: " <> e)
        (lib.parse_token raw config.key_func ("RS256" ∷ []) config.issuer config.audience))
      λ claims.
        if is_empty claims.subject
        then err "token missing subject claim"
        else if not (str_eq claims.issuer config.issuer)
        then err "token issuer claim mismatch"
        else ok claims

-- ExtractAndValidateJWT
unfoldable pub extract_and_validate_jwt : Libraries → Request → JwtConfig → Result String JwtClaims
unfolding validate_jwt
extract_and_validate_jwt lib r config =
    let headers = length r.authorization in
    if not (headers == 1)
    then err ("expected 1 Authorization header, got " <> decimal headers)
    else and_then (map_err (λ e. "extract bearer token: " <> e) (lib.bearer r.authorization))
        λ raw. validate_jwt lib raw config

pub record OidcProvider : Type 0 where
  pub issuer : String
  pub authorization_endpoint : String
  pub token_endpoint : String
  pub jwks_uri : String

-- The answer to a GET: the status code and its text, and the body.
pub record HttpResponse : Type 0 where
  pub status_code : ℕ
  pub status : String
  pub body : String

-- DiscoverOIDCProvider, given http.Client.Get, the decoding of the document and strconv.Quote
unfoldable pub discover_oidc_provider :
    (String → Result String HttpResponse)
    → (String → Result String OidcProvider)
    → (String → String)
    → String
    → Result String OidcProvider
discover_oidc_provider get decode quote issuer =
    and_then
      (map_err (λ e. "request OIDC discovery: " <> e)
        (get (issuer <> "/.well-known/openid-configuration")))
      λ response.
        if not (response.status_code == 200)
        then err ("OIDC discovery returned " <> response.status)
        else and_then
            (map_err (λ e. "decode OIDC discovery response: " <> e) (decode response.body))
            λ provider.
              if not (str_eq provider.issuer issuer)
              then err
                  ("issuer mismatch: got " <> quote provider.issuer <> ", want " <> quote issuer)
              else ok provider
