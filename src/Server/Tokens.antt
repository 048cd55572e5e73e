-- ===== src/Server/Tokens.antt =====
-- internal/waypoint with internal/middleware: requests without a valid token.
use waypoint_be.Base.{String, ◌≡◌, refl, ◌∙◌, Bool, true, false, Option, none, List, arith, err}
use waypoint_be.Http.{Request, JwtConfig, Libraries, http_error}
use waypoint_be.Http.Serving.{Exchange}
use waypoint_be.Middleware.{extract_and_validate_jwt}
use waypoint_be.User.Handler as UserHandler
use waypoint_be.Workspace.Handler as WorkspaceHandler
use waypoint_be.Server.{
  Target, health, ready, create_user, list_users, get_user, delete_user, me, create_workspace,
  get_workspace, add_workspace_member, remove_workspace_member, delete_workspace, routes, Bindings,
  chosen, select, value_of, Ambient, limited, handle, serve_choice, serve,
}

-- The handlers that ask for a token.
unfoldable pub asks_token : Target → Bool
asks_token health = false
asks_token ready = false
asks_token list_users = false
asks_token get_user = false
asks_token _ = true

-- The answer to a request without a valid token.
abbrev pub turned_away : Exchange → Option (Unit {0}) × Exchange
turned_away x = (none, record x { reply = http_error "Unauthorized" 401 x.reply })

module _ (lib : Libraries) (config : JwtConfig) (env : Ambient) where
  limited-token :
      (r : Request)
      → extract_and_validate_jwt lib (limited r) config ≡ extract_and_validate_jwt lib r config
  unfolding extract_and_validate_jwt
  limited-token r = refl

  handle-unauthorized :
      (t : Target) (r : Request) (x : Exchange) (e : String)
      → asks_token t ≡ true
      → extract_and_validate_jwt lib r config ≡ err e
      → handle lib config env t r x ≡ turned_away x
  unfolding handle asks_token UserHandler.get_actor_id UserHandler.create_user
      UserHandler.delete_user UserHandler.me WorkspaceHandler.create_workspace
      WorkspaceHandler.get_workspace WorkspaceHandler.add_workspace_member
      WorkspaceHandler.remove_workspace_member WorkspaceHandler.delete_workspace
  handle-unauthorized health r x e p h = ground arith
  handle-unauthorized ready r x e p h = ground arith
  handle-unauthorized list_users r x e p h = ground arith
  handle-unauthorized get_user r x e p h = ground arith
  handle-unauthorized create_user r x e p h = rw (limited-token r ∙ h) refl
  handle-unauthorized delete_user r x e p h = rw h refl
  handle-unauthorized me r x e p h = rw h refl
  handle-unauthorized create_workspace r x e p h = rw (limited-token r ∙ h) refl
  handle-unauthorized get_workspace r x e p h = rw h refl
  handle-unauthorized add_workspace_member r x e p h = rw h refl
  handle-unauthorized remove_workspace_member r x e p h = rw h refl
  handle-unauthorized delete_workspace r x e p h = rw h refl

  -- Where the chosen handler is one that asks for a token (all but the health checks, ListUsers
  -- and GetUser) and no valid token is found, the answer is 401 Unauthorized and the session is
  -- untouched: no call of the driver is made.
  pub serve-unauthorized :
      (method : String) (path : List String) (r : Request) (x : Exchange) (t : Target)
      (bs : Bindings) (e : String)
      → select method path routes false ≡ chosen t bs
      → asks_token t ≡ true
      → extract_and_validate_jwt lib r config ≡ err e
      → serve lib config env method path r x ≡ turned_away x
  unfolding serve serve_choice extract_and_validate_jwt
  serve-unauthorized method path r x t bs e c p h =
      rw c (handle-unauthorized t (record r { path_value = value_of bs }) x e p h)
