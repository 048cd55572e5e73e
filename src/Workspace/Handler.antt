-- ===== src/Workspace/Handler.antt =====
-- internal/workspace/handler.go, one function for each handler. The UUID and the times that the
-- service takes are arguments.
pub mod Access
pub mod Removal
pub mod Answers
use waypoint_be.Base.{ℕ, ◌<◌, String, Bool, [], ◌==◌, if◌then◌else◌, ◌<>◌}
use waypoint_be.Store.{Uuid, Time}
use waypoint_be.Session.{is_sentinel, other}
use waypoint_be.Http.{
  Request, workspace, member, JwtConfig, Libraries, Reply, write_header, http_error, path_id,
  read_json,
}
use waypoint_be.Http.Serving.{Serving, ◌>>=◌, ◌>>◌, respond, valid, call, send_json}
use waypoint_be.User.Handler.{get_actor_id}
use waypoint_be.Workspace.{
  WorkspaceError, forbidden, workspace_not_found, workspace_member_not_found, user_not_found,
  invalid_id, invalid_name, already_member, owner_removal, Error, Workspace, workspace_error_text,
}
use waypoint_be.Workspace.Service

-- Each sentinel's number, by which errors.Is tells them apart.
abbrev pub workspace_error_number : WorkspaceError → ℕ
workspace_error_number forbidden = 0
workspace_error_number workspace_not_found = 1
workspace_error_number workspace_member_not_found = 2
workspace_error_number user_not_found = 3
workspace_error_number invalid_id = 4
workspace_error_number invalid_name = 5
workspace_error_number already_member = 6
workspace_error_number owner_removal = 7

-- errors.Is(err, e)
abbrev pub errors_is : WorkspaceError → Error → Bool
errors_is e = is_sentinel (λ x. workspace_error_number x == workspace_error_number e)

-- The status and the text that writeError sends.
unfoldable pub public_error : Error → ℕ × String
public_error e =
    if errors_is forbidden e
    then (403, workspace_error_text forbidden)
    else if errors_is invalid_id e
    then (400, workspace_error_text invalid_id)
    else if errors_is invalid_name e
    then (400, workspace_error_text invalid_name)
    else if errors_is workspace_not_found e
    then (404, workspace_error_text workspace_not_found)
    else if errors_is workspace_member_not_found e
    then (404, workspace_error_text workspace_member_not_found)
    else if errors_is user_not_found e
    then (404, workspace_error_text user_not_found)
    else if errors_is already_member e
    then (409, workspace_error_text already_member)
    else if errors_is owner_removal e
    then (409, workspace_error_text owner_removal)
    else (500, "internal server error")

-- writeError
unfoldable pub write_error : Error → Reply → Reply
unfolding public_error
write_error e = let (status, public) = public_error e in http_error public status

-- writeError of the error that httpx.WriteJSON returned
abbrev pub write_failed : String → Reply → Reply
write_failed e = write_error (other e)

module _ (lib : Libraries) (config : JwtConfig) (r : Request) where
  -- The UUID in the path, or 400.
  abbrev pub path_part : String → Serving Uuid
  path_part name =
      valid (path_id lib r name) (λ _. http_error (workspace_error_text invalid_id) 400)

  -- Handler.CreateWorkspace
  unfoldable pub create_workspace : Uuid → Time → Serving (Unit {0})
  unfolding write_error
  create_workspace fresh now = do
    actor_id ← get_actor_id lib config r
    request ←
        valid (read_json lib.decode_workspace lib.decode_nothing r.body)
          (λ e. http_error ("invalid request body: " <> e) 400)
    result ←
        call
          (Service.create_workspace fresh now (record { name = request.name; actor_id = actor_id }))
          write_error
    send_json lib 201 (workspace result) write_failed

  -- Handler.GetWorkspace
  unfoldable pub get_workspace : Serving (Unit {0})
  unfolding write_error
  get_workspace = do
    actor_id ← get_actor_id lib config r
    workspace_id ← path_part "workspace_id"
    result ←
        call (Service.read_workspace (record { workspace_id = workspace_id; actor_id = actor_id }))
          write_error
    send_json lib 200 (workspace result) write_failed

  -- Handler.AddWorkspaceMember
  unfoldable pub add_workspace_member : Time → Serving (Unit {0})
  unfolding write_error
  add_workspace_member now = do
    actor_id ← get_actor_id lib config r
    workspace_id ← path_part "workspace_id"
    user_id ← path_part "user_id"
    result ←
        call
          (Service.add_workspace_member now
            (record { workspace_id = workspace_id; user_id = user_id; actor_id = actor_id }))
          write_error
    send_json lib 201 (member result) write_failed

  -- Handler.RemoveWorkspaceMember
  unfoldable pub remove_workspace_member : Serving (Unit {0})
  unfolding write_error
  remove_workspace_member = do
    actor_id ← get_actor_id lib config r
    workspace_id ← path_part "workspace_id"
    user_id ← path_part "user_id"
    call
        (Service.remove_workspace_member
          (record { workspace_id = workspace_id; user_id = user_id; actor_id = actor_id }))
        write_error
    respond (write_header 204)

  -- Handler.DeleteWorkspace
  unfoldable pub delete_workspace : Serving (Unit {0})
  unfolding write_error
  delete_workspace = do
    actor_id ← get_actor_id lib config r
    workspace_id ← path_part "workspace_id"
    call (Service.delete_workspace (record { workspace_id = workspace_id; actor_id = actor_id }))
        write_error
    respond (write_header 204)
