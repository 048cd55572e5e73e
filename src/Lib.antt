-- ===== src/Lib.antt =====
-- Verification of the Waypoint backend: its core logic in Go, the services over a PostgreSQL
-- database, against what their comments and the schema promise.
--
-- The program's parts. An HTTP handler (internal/user, internal/workspace) checks the caller's
-- token (internal/middleware), reads the request (internal/httpx) and calls a service. A service
-- (internal/user, internal/workspace, internal/message) trims and checks its input, opens a
-- transaction (internal/db) where it makes more than one statement, runs generated statements
-- (internal/db/sqlc) on it, translates the database's errors into its own, and commits; the
-- deferred rollback closes what is left open. The schema (db/migrations) adds keys, cascading
-- deletions and the triggers that count replies.
--
-- Which file models which part.
-- - Base: Boolean tests, tables as lists of rows, strings.TrimSpace, decimal digits, results,
--   pages of LIMIT and OFFSET, and the conversion of uint32 to int32.
-- - Store: the rows of internal/db/sqlc/models.go, the eight tables as one record, and the errors
--   in which a statement may end. Store/Users, Store/Workspaces, Store/Channels and
--   Store/Messages: each statement of internal/db/sqlc/*.sql.go as a function on the tables, with
--   the constraints that db/migrations puts on it in the order in which the server meets them.
--   Store/Threads: deleting channel messages with the cascade and the trigger.
-- - Session: internal/db/tx.go, db.go (BeginTx) and errors.go; a connection with the committed
--   tables, the tables that its transaction sees, the transaction's status, and what befalls its
--   next driver calls. `with_tx` is the frame `BeginTx; defer RollbackUnlessClosed` of the
--   services. The children hold the rules by which bodies of transactions are reasoned about.
-- - User, Workspace, Message: model.go and errors.go of internal/user, internal/workspace and
--   internal/message. User/Service, Workspace/Service and Message/Service: service.go, one
--   function for each method, named as the method (CreateWorkspace is `create_workspace`); its
--   transaction's body is a function of its own (`create_body`).
-- - Membership: the contract of users, workspaces and memberships. Threads: that of replies and
--   their counters.
-- - Http: internal/httpx, and the request and the response of net/http as far as the handlers meet
--   them. Http/Serving is the frame of a handler's calls, Http/Rules and Http/Answers the rules by
--   which handlers are reasoned about. Middleware: internal/middleware/authn.go. Health:
--   internal/health.
-- - User/Handler and Workspace/Handler: handler.go of internal/user and internal/workspace, one
--   function for each handler, and Service.GetActorID, which writes a response. Server: the routes
--   of internal/waypoint/router.go and the choice among them.
-- - Start: cmd/waypoint/serve.go with internal/waypoint/waypoint.go (New), Database.New and
--   db/migrations/migrations.go.
-- - App: calls of the user and the workspace service one after another.
-- - Tests: the theorems at a small workspace, and runs of the code.
--
-- How the code is modelled. A UUID is its 128-bit number, and uuid.NewV7 and now() are arguments.
-- A text is its list of code points in a string. A method is a function from a session to a result
-- and a session. `faults` lists what befalls the driver calls of the session: a call is served,
-- fails before it is sent, fails on the way or after it took effect with its answer lost; calls
-- past the end of the list are served. A statement that fails in a transaction aborts it. A call
-- is one session: SELECT ... FOR UPDATE on the workspace's or the user's row makes the calls that
-- change it follow one another, and App takes them in that order. No service calls the statements
-- on channels. Rows with equal keys in an ORDER BY stay in the order of the table. The counters of
-- replies and of affected rows are not bounded by BIGINT. The cascade over replies takes rounds,
-- as many as the table has rows; a number has fewer decimal digits than its value plus one. No
-- other function takes fuel.
--
-- A handler is a function from a session and a response to both, and ends at its first refusal.
-- The libraries that parse and print (uuid.Parse, encoding/json, the JWT library) are the fields
-- of `Libraries`, and the answers of the world at the start of the server those of `World`; no
-- theorem assumes anything of them but what it states. http.ServeMux chooses on the parts of a
-- path that has been cleaned. The writes to a response may fail, each as `writes` says.
--
-- Not modelled: logs, the encoding of JSON, the checks of signatures, the command line's flags,
-- and the schema's down migrations. The integration tests' library starts containers.
pub mod Base
pub mod Store
pub mod Session
pub mod Membership
pub mod Threads
pub mod Workspace
pub mod User
pub mod Message
pub mod Http
pub mod Middleware
pub mod Health
pub mod Server
pub mod Start
pub mod App
mod Tests
