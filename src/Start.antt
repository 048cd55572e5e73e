-- ===== src/Start.antt =====
-- cmd/waypoint/serve.go, internal/waypoint/waypoint.go, Database.New and db/migrations/migrations.go:
-- the start of the server, with what it does to the world outside as a list of events.
pub mod Order
pub mod Parsing
pub mod Readiness
use waypoint_be.Base.{
  ℕ, suc, ◌+◌, ◌-◌, ◌<◌, String, Bool, false, not, List, [], ◌∷◌, ◌++◌, leb, if◌then◌else◌,
  is_empty, trim_space, ◌<>◌, decimal, Result, ok, err, map_err,
}
use waypoint_be.Http.{JwtConfig}
use waypoint_be.Middleware.{OidcProvider, HttpResponse, discover_oidc_provider}

-- An int.
pub data ℤ : Type 0 where
  pos negsuc : ℕ → ℤ

abbrev pub itoa : ℤ → String
itoa (pos n) = decimal n
itoa (negsuc n) = "-" <> decimal (suc n)

pub record JwtOptions : Type 0 where
  pub issuer : String
  pub audience : String

pub record ServeCommand : Type 0 where
  pub port : ℤ
  pub database_url : String
  pub migrate : Bool
  pub jwt : JwtOptions

pub record Config : Type 0 where
  pub port : ℤ
  pub database_url : String
  pub migrate : Bool
  pub jwt : JwtConfig

-- How Migrate.Up of the migration library ends.
pub data MigrateEnd : Type 0 where
  migrated no_change : MigrateEnd
  failed : String → MigrateEnd

-- The answers of the code outside the repository, in one run.
pub record World : Type 0 where
  pub nil_key : String → Result String ℕ  -- a jwt.Keyfunc that is nil
  pub get : String → Result String HttpResponse  -- http.Client.Get
  pub decode : String → Result String OidcProvider  -- json.Decoder.Decode
  pub quote : String → String  -- the verb %q
  pub key_func : List String → Result String (String → Result String ℕ)  -- keyfunc.NewDefault
  pub open_source : Result String (Unit {0})  -- iofs.New
  pub open_migrate : String → Result String (Unit {0})  -- migrate.NewWithSourceInstance
  pub migrate_up : String → MigrateEnd  -- Migrate.Up
  pub close_migrate : Result String (Unit {0})  -- Migrate.Close
  pub open_pool : String → Result String (Unit {0})  -- pgxpool.New
  pub ping_pool : Result String (Unit {0})  -- Pool.Ping
  pub listen : String → String  -- the error with which ListenAndServe returns

pub data Event : Type 0 where
  requested_discovery called_keyfunc : Event
  opened_migrate ran_migrate closed_migrate : Event
  opened_pool pinged_pool closed_pool : Event
  listened : String → JwtConfig → Event

-- A part of the start: its result, and the events in order.
abbrev pub Started : Type 0 → Type 0
Started A = Result String A × List Event

abbrev pub after : {A B : Type 0} → Started A → (A → Started B) → Started B
after (ok a, es) f = let (r, later) = f a in (r, es ++ later)
after (err e, es) f = (err e, es)

-- `fmt.Errorf("text: %w", err)` round the error of a part
abbrev pub labelled : {A : Type 0} → String → Started A → Started A
labelled text (r, es) = (map_err (λ e. text <> ": " <> e) r, es)

-- The port that parseConfig accepts.
unfoldable pub is_port : ℤ → Bool
is_port (pos n) = leb n 65535
is_port (negsuc _) = false

-- parseConfig
unfoldable pub parse_config : World → ServeCommand → Result String Config
unfolding is_port
parse_config world cmd =
    if not (is_port cmd.port)
    then err "port must be between 0 and 65535"
    else if is_empty (trim_space cmd.jwt.issuer)
    then err "JWT issuer is required"
    else if is_empty (trim_space cmd.jwt.audience)
    then err "JWT audience is required"
    else ok (record {
      port = cmd.port;
      database_url = cmd.database_url;
      migrate = cmd.migrate;
      jwt = record {
        issuer = cmd.jwt.issuer;
        audience = cmd.jwt.audience;
        key_func = world.nil_key;
      };
    })

-- Migrate.Up, where finding no change is no error.
abbrev pub ran : MigrateEnd → Result String (Unit {0})
ran migrated = ok tt
ran no_change = ok tt
ran (failed e) = err ("run migrations: " <> e)

-- The deferred closing of the migration: errors.Join of both errors.
abbrev pub closing : Result String (Unit {0}) → Result String (Unit {0}) → Result String (Unit {0})
closing r (ok _) = r
closing (ok _) (err e) = err ("close migration source: " <> e)
closing (err f) (err e) = err (f <> "\n" <> "close migration source: " <> e)

-- migrations.Up
unfoldable pub up : World → String → Started (Unit {0})
up world url = after (labelled "create migration source" (world.open_source, [])) λ _.
    after (labelled "open migration source" (world.open_migrate url, [])) λ _. (
      closing (ran (world.migrate_up url)) world.close_migrate,
      opened_migrate ∷ ran_migrate ∷ closed_migrate ∷ [],
    )

-- The ping of a new pool, which is closed when it fails.
abbrev pub pinged : Result String (Unit {0}) → Started (Unit {0})
pinged (ok _) = (ok tt, opened_pool ∷ pinged_pool ∷ [])
pinged (err e) =
    (err ("connect to PostgreSQL: " <> e), opened_pool ∷ pinged_pool ∷ closed_pool ∷ [])

-- db.New
unfoldable pub new_database : World → String → Started (Unit {0})
new_database world url =
    after (labelled "create PostgreSQL pool" (world.open_pool url, [])) λ _. pinged world.ping_pool

-- waypoint.New
unfoldable pub new : World → Config → Started (Unit {0})
unfolding up new_database
new world cfg =
    after
      (if cfg.migrate then labelled "run migrations" (up world cfg.database_url) else (ok tt, []))
      λ _. labelled "connect to database" (new_database world cfg.database_url)

-- ServeCommand.Run
unfoldable pub run : World → ServeCommand → Started (Unit {0})
unfolding parse_config new
run world cmd = after (labelled "parse config" (parse_config world cmd, [])) λ cfg.
    after
      (labelled "discover OIDC provider" (
        discover_oidc_provider world.get world.decode world.quote cfg.jwt.issuer,
        requested_discovery ∷ [],
      ))
      λ provider.
        after
          (labelled "create JWKS keyfunc"
            (world.key_func (provider.jwks_uri ∷ []), called_keyfunc ∷ []))
          λ keys.
            let jwt : JwtConfig = record cfg.jwt { key_func = keys } in
            let addr = ":" <> itoa cfg.port in
            after (labelled "create Waypoint app" (new world (record cfg { jwt = jwt })))
              λ _. (err (world.listen addr), listened addr jwt ∷ closed_pool ∷ [])
