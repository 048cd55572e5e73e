-- ===== src/Health.antt =====
-- internal/health: handler.go and errors.go.
use waypoint_be.Base.{String}
use waypoint_be.Session.{ping}
use waypoint_be.Http.{Reply, write_header, write, http_error}
use waypoint_be.Http.Serving.{Serving, ◌>>◌, respond, call}

-- ErrDatabaseUnavailable
abbrev pub database_unavailable : String
database_unavailable = "database unavailable"

-- WriteHeader and a Write whose error is dropped
unfoldable pub say : String → Reply → Reply
unfolding write_header write
say text r = (write text (write_header 200 r)).1

-- Handler.Healthz
unfoldable pub healthz : Serving (Unit {0})
unfolding say
healthz = respond (say "OK")

-- Handler.Readyz
unfoldable pub readyz : Serving (Unit {0})
unfolding say ping
readyz = do call ping (λ _. http_error database_unavailable 503); respond (say "READY")
