-- ===== src/Start/Readiness.antt =====
-- cmd/waypoint/serve.go with waypoint.New, Database.New and migrations.Up: what has gone well before
-- the server listens.
use waypoint_be.Base.{
  ℕ, String, ◌≡◌, Bool, true, Option, none, some, List, [], ◌∷◌, if◌then◌else◌, ◌<>◌, Result, ok,
}
use waypoint_be.Http.{JwtConfig}
use waypoint_be.Middleware.{OidcProvider, discover_oidc_provider}
use waypoint_be.Start.Parsing.{Parsed}
use waypoint_be.Start.{itoa, ServeCommand, Config, World, Event, listened, Started, labelled, up}

-- The address and the trusted tokens of the server, once it listens.
unfoldable pub listening : List Event → Option (String × JwtConfig)
listening [] = none
listening (listened addr jwt ∷ es) = some (addr, jwt)
listening (_ ∷ es) = listening es

-- A part that does not listen.
unfoldable Quiet : {A : Type 0} → Started A → Type 0
Quiet m = listening m.1 ≡ none

module _ (world : World) where
  -- What has gone well before the server listens.
  pub record Ready (cmd : ServeCommand) (addr : String) (jwt : JwtConfig) : Type 0 where
    pub config : Config
    pub parsed : Parsed world cmd config
    pub provider : OidcProvider
    pub discovered :
        discover_oidc_provider world.get world.decode world.quote cmd.jwt.issuer ≡ ok provider
    pub keys : String → Result String ℕ
    pub resolver : world.key_func (provider.jwks_uri ∷ []) ≡ ok keys
    pub migration : cmd.migrate ≡ true → (up world cmd.database_url).0 ≡ ok tt
    pub connected : world.ping_pool ≡ ok tt
    pub served_at : addr ≡ ":" <> itoa cmd.port
    pub trusted :
        jwt ≡ record { issuer = cmd.jwt.issuer; audience = cmd.jwt.audience; key_func = keys }

  abbrev migrating : Bool → String → Started (Unit {0})
  migrating b url = if b then labelled "run migrations" (up world url) else (ok tt, [])
