-- ===== src/Start/Parsing.antt =====
-- cmd/waypoint/serve.go, parseConfig: the configuration that is accepted.
use waypoint_be.Base.{
  ℕ, ◌≤◌, ◌≡◌, refl, sym, ◌≢◌, true, not, arith, is_empty, trim_space, ok, unless-ok, ok-injective,
}
use waypoint_be.Middleware.Claims.{not-false, nonempty}
use waypoint_be.Start.{ℤ, pos, negsuc, ServeCommand, Config, World, is_port, parse_config}

-- What parseConfig says of the command that it accepts.
pub record Parsed (world : World) (cmd : ServeCommand) (config : Config) : Type 0 where
  pub number : ℕ
  pub port : cmd.port ≡ pos number
  pub bound : number ≤ 65535
  pub issuer : trim_space cmd.jwt.issuer ≢ ""
  pub audience : trim_space cmd.jwt.audience ≢ ""
  pub same : config ≡ record {
    port = cmd.port;
    database_url = cmd.database_url;
    migrate = cmd.migrate;
    jwt = record { issuer = cmd.jwt.issuer; audience = cmd.jwt.audience; key_func = world.nil_key };
  }

is_port-bound : (p : ℤ) → is_port p ≡ true → (n : ℕ) × (p ≡ pos n) × (n ≤ 65535)
unfolding is_port
is_port-bound (pos n) h = (n, refl, ground arith)
is_port-bound (negsuc n) h = ground arith

-- A command that parseConfig accepts has a port from 0 to 65535 and an issuer and an audience
-- that are not blank, and the configuration has the command's values.
pub parse_config-Parsed :
    (world : World) (cmd : ServeCommand) (config : Config)
    → parse_config world cmd ≡ ok config
    → Parsed world cmd config
unfolding parse_config
parse_config-Parsed world cmd config h =
    let (port, rest) = unless-ok (not (is_port cmd.port)) _ _ config h in
    let (number, is_number, bound) = is_port-bound cmd.port (not-false _ port) in
    let (issuer, rest') = unless-ok (is_empty (trim_space cmd.jwt.issuer)) _ _ config rest in
    let (audience, same) = unless-ok (is_empty (trim_space cmd.jwt.audience)) _ _ config rest' in
    record {
      number = number;
      port = is_number;
      bound = bound;
      issuer = nonempty _ issuer;
      audience = nonempty _ audience;
      same = sym (ok-injective _ config same);
    }
