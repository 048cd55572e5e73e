-- ===== src/Server.antt =====
-- internal/waypoint/router.go: the routes, and the choice of a handler as http.ServeMux makes it.
pub mod Access
pub mod Steps
pub mod Validity
pub mod Answers
pub mod Tokens
use waypoint_be.Base.{
  String, Bool, true, false, not, ◌&&◌, ◌||◌, Option, none, some, List, [], ◌∷◌, str_eq,
  if◌then◌else◌, is_empty, page,
}
use waypoint_be.Store.{Uuid, Time}
use waypoint_be.Http.{Request, JwtConfig, Libraries, http_error}
use waypoint_be.Http.Serving.{Serving, ◌>>=◌, ◌>>◌, respond}
use waypoint_be.Health.{healthz, readyz}
use waypoint_be.User.Handler as Users
use waypoint_be.Workspace.Handler as Workspaces

-- The handlers that are registered.
pub data Target : Type 0 where
  health ready create_user list_users get_user delete_user me : Target
  create_workspace get_workspace add_workspace_member remove_workspace_member : Target
  delete_workspace : Target

pub data Part : Type 0 where
  literal wildcard : String → Part

pub record Pattern : Type 0 where
  pub method : String
  pub parts : List Part
  pub target : Target

-- newRouter
unfoldable pub routes : List Pattern
routes =
    record { method = "GET"; parts = literal "healthz" ∷ []; target = health }
    ∷ record { method = "GET"; parts = literal "readyz" ∷ []; target = ready }
    ∷ record { method = "POST"; parts = literal "users" ∷ []; target = create_user }
    ∷ record { method = "GET"; parts = literal "users" ∷ []; target = list_users }
    ∷ record { method = "GET"; parts = literal "users" ∷ wildcard "id" ∷ []; target = get_user }
    ∷ record {
      method = "DELETE";
      parts = literal "users" ∷ wildcard "id" ∷ [];
      target = delete_user;
    }
    ∷ record { method = "GET"; parts = literal "me" ∷ []; target = me }
    ∷ record { method = "POST"; parts = literal "workspaces" ∷ []; target = create_workspace }
    ∷ record {
      method = "GET";
      parts = literal "workspaces" ∷ wildcard "workspace_id" ∷ [];
      target = get_workspace;
    }
    ∷ record {
      method = "POST";
      parts =
          literal "workspaces"
          ∷ wildcard "workspace_id"
          ∷ literal "users"
          ∷ wildcard "user_id"
          ∷ [];
      target = add_workspace_member;
    }
    ∷ record {
      method = "DELETE";
      parts =
          literal "workspaces"
          ∷ wildcard "workspace_id"
          ∷ literal "users"
          ∷ wildcard "user_id"
          ∷ [];
      target = remove_workspace_member;
    }
    ∷ record {
      method = "DELETE";
      parts = literal "workspaces" ∷ wildcard "workspace_id" ∷ [];
      target = delete_workspace;
    }
    ∷ []

-- The values of a pattern's wildcards, by name.
abbrev pub Bindings : Type 0
Bindings = List (String × String)

-- An empty part stands for a slash at the end, which no wildcard takes.
unfoldable pub match : List Part → List String → Option Bindings
match [] [] = some []
match [] (_ ∷ _) = none
match (literal t ∷ ps) (s ∷ ss) = if str_eq t s then match ps ss else none
match (wildcard n ∷ ps) (s ∷ ss) =
    let rest = match ps ss in
    if is_empty s then none else elim rest [ none ↦ none | some bs ↦ some ((n, s) ∷ bs) ]
match (_ ∷ _) [] = none

-- A pattern for GET takes HEAD as well.
abbrev pub allows : String → String → Bool
allows pattern method = str_eq pattern method || (str_eq pattern "GET" && str_eq method "HEAD")

pub data Choice : Type 0 where
  chosen : Target → Bindings → Choice
  wrong_method no_pattern : Choice

-- The choice among the patterns, where `seen` says that one matched the path alone.
unfoldable pub select : String → List String → List Pattern → Bool → Choice
unfolding match
select method path [] seen = if seen then wrong_method else no_pattern
select method path (p ∷ ps) seen =
    let later = select method path ps seen in
    let later_seen = select method path ps true in
    elim (match p.parts path) [
      | none ↦ later
      | some bs ↦ if allows p.method method then chosen p.target bs else later_seen
    ]

-- Request.PathValue
pub value_of : Bindings → String → String
value_of [] name = ""
value_of ((n, v) ∷ bs) name = if str_eq n name then v else value_of bs name

-- What a request takes from uuid.NewV7 and from the server's clock.
pub record Ambient : Type 0 where
  pub first_id : Uuid
  pub second_id : Uuid
  pub now : Time

-- http.MaxBytesHandler with maxRequestBodyBytes
abbrev pub limited : Request → Request
limited r = record r { body = record { text = r.body.text; limit = some 1048576 } }

module _ (lib : Libraries) (config : JwtConfig) (env : Ambient) where
  -- The registered handler.
  unfoldable pub handle : Target → Request → Serving (Unit {0})
  handle health r = healthz
  handle ready r = readyz
  handle create_user r = Users.create_user lib config (limited r) env.first_id env.second_id env.now
  handle list_users r = Users.list_users lib config r
  handle get_user r = Users.get_user lib config r
  handle delete_user r = Users.delete_user lib config r
  handle me r = Users.me lib config r
  handle create_workspace r =
      Workspaces.create_workspace lib config (limited r) env.first_id env.now
  handle get_workspace r = Workspaces.get_workspace lib config r
  handle add_workspace_member r = Workspaces.add_workspace_member lib config r env.now
  handle remove_workspace_member r = Workspaces.remove_workspace_member lib config r
  handle delete_workspace r = Workspaces.delete_workspace lib config r

  unfoldable pub serve_choice : Choice → Request → Serving (Unit {0})
  unfolding value_of
  serve_choice (chosen t bs) r = handle t (record r { path_value = value_of bs })
  serve_choice wrong_method r = respond (http_error "Method Not Allowed" 405)
  serve_choice no_pattern r = respond (http_error "404 page not found" 404)

  -- The handler that http.ServeMux chooses for a method and the parts of a path.
  unfoldable pub serve : String → List String → Request → Serving (Unit {0})
  unfolding serve_choice
  serve method path r = serve_choice (select method path routes false) r
