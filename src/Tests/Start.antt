-- ===== src/Tests/Start.antt =====
-- The theorems on the start of the server, in a world where everything is reached.
use waypoint_be.Base.{true, true, ok, err}
use waypoint_be.Http.{JwtConfig}
use waypoint_be.Start.{pos, ServeCommand, no_change, World}

abbrev trusted : JwtConfig
trusted = record { issuer = "iss"; audience = "api"; key_func = λ t. ok 1 }

-- A provider that answers, and a database that is reached.
abbrev world : World
world = record {
  nil_key = λ t. err "no key";
  get = λ url. ok (record { status_code = 200; status = "200 OK"; body = "{}" });
  decode = λ text. ok (record {
    issuer = "iss";
    authorization_endpoint = "";
    token_endpoint = "";
    jwks_uri = "keys";
  });
  quote = λ text. text;
  key_func = λ urls. ok (λ t. ok 1);
  open_source = ok tt;
  open_migrate = λ url. ok tt;
  migrate_up = λ url. no_change;
  close_migrate = ok tt;
  open_pool = λ url. ok tt;
  ping_pool = ok tt;
  listen = λ addr. "closed";
}

abbrev command : ServeCommand
command = record {
  port = pos 80;
  database_url = "db";
  migrate = true;
  jwt = record { issuer = "iss"; audience = "api" };
}
