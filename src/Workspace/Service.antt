-- ===== src/Workspace/Service.antt =====
-- internal/workspace/service.go, one function for each method of Service. The new UUID and the
-- time of the transaction are arguments.
pub mod Guards
pub mod Reading
pub mod Invariant
pub mod Creation
pub mod Foundation
pub mod Access
pub mod Answers
use waypoint_be.Base.{
  String, not, ◌||◌, [], ◌∷◌, str_eq, ◌==◌, if◌then◌else◌, any, is_empty, trim_space, Result, ok,
  err,
}
use waypoint_be.Store.{
  Uuid, zero_id, Time, WorkspaceRow, WorkspaceMemberRow, Store, DbError, no_rows,
}
use waypoint_be.Store.Workspaces
use waypoint_be.Session.{
  Action, ◌>>=◌, ◌>>◌, pure, reject_if, on_error, attempt, exec, commit, is_unique_violation,
  is_foreign_key_violation, sentinel, wrap_driver, rollback_last, rollback_first, with_tx,
}
use waypoint_be.Workspace.{
  forbidden, workspace_not_found, workspace_member_not_found, user_not_found, invalid_id,
  invalid_name, already_member, owner_removal, Error, CreateWorkspaceInput, ReadWorkspaceInput,
  AddWorkspaceMemberInput, RemoveWorkspaceMemberInput, DeleteWorkspaceInput, Workspace,
  WorkspaceMember, role_owner, role_member, member_from_row, workspace_from_rows,
}

pub commit_tx : Action Error (Unit {0})
commit_tx = on_error (wrap_driver "commit transaction") commit

-- The zero sqlc.WorkspaceMember that the query returns beside an error.
abbrev pub zero_member : WorkspaceMemberRow
zero_member = record { workspace_id = zero_id; user_id = zero_id; role = ""; joined_at = 0 }

-- The `if err != nil` after the owner's insertion: only the named violation is returned.
pub checked_owner : Result DbError WorkspaceMemberRow → Action Error WorkspaceMemberRow
checked_owner (ok m) = pure m
checked_owner (err e) =
    reject_if (is_foreign_key_violation e "workspace_members_user_id_fkey")
      (wrap_driver "add workspace owner" e)
    >> pure zero_member

pub create_body : Uuid → Time → String → Uuid → Action Error Workspace
unfolding checked_owner commit_tx
create_body fresh now name actor_id = do
  row ←
      on_error (wrap_driver "create workspace")
        (exec (Workspaces.create_workspace (record { id = fresh; name = name }) now))
  added ← attempt (
      exec (
        Workspaces.add_workspace_member
          (record { workspace_id = row.id; user_id = actor_id; role = role_owner }) now))
  owner ← checked_owner added
  commit_tx
  pure (workspace_from_rows row (owner ∷ []))

-- Service.CreateWorkspace
unfoldable pub create_workspace : Uuid → Time → CreateWorkspaceInput → Action Error Workspace
unfolding create_body
create_workspace fresh now input = do
  let name = trim_space input.name
  reject_if (is_empty name) (sentinel invalid_name)
  reject_if (input.actor_id == zero_id) (sentinel invalid_id)
  with_tx rollback_last "begin transaction" (create_body fresh now name input.actor_id)

-- The answer to a failed read of the workspace row, and to one of the actor's membership.
pub lock_failure : DbError → Error
lock_failure no_rows = sentinel workspace_not_found
lock_failure e = wrap_driver "lock workspace" e

pub actor_failure : DbError → Error
actor_failure no_rows = sentinel forbidden
actor_failure e = wrap_driver "read actor membership" e

pub lock_workspace : Uuid → Action Error WorkspaceRow
unfolding lock_failure
lock_workspace w = on_error lock_failure (exec (Workspaces.lock_workspace_row w))

-- The row of the acting user, who has to be an owner.
pub owner_only : Uuid → Uuid → Action Error (Unit {0})
unfolding actor_failure
owner_only w actor_id = do
  actor ← on_error actor_failure (exec (Workspaces.select_workspace_member w actor_id))
  reject_if (not (str_eq actor.role role_owner)) (sentinel forbidden)

pub read_body : ReadWorkspaceInput → Action Error Workspace
unfolding lock_workspace commit_tx
read_body input = do
  row ← lock_workspace input.workspace_id
  members ←
      on_error (wrap_driver "list workspace members")
        (exec (Workspaces.list_workspace_members input.workspace_id))
  reject_if (not (any (λ m. m.user_id == input.actor_id) members)) (sentinel forbidden)
  commit_tx
  pure (workspace_from_rows row members)

-- Service.ReadWorkspace
unfoldable pub read_workspace : ReadWorkspaceInput → Action Error Workspace
unfolding read_body
read_workspace input = do
  reject_if (input.workspace_id == zero_id || input.actor_id == zero_id) (sentinel invalid_id)
  with_tx rollback_last "begin workspace transaction" (read_body input)

pub add_failure : DbError → Error
add_failure e =
    if is_unique_violation e "workspace_members_pkey"
    then sentinel already_member
    else if is_foreign_key_violation e "workspace_members_user_id_fkey"
    then sentinel user_not_found
    else wrap_driver "add workspace member" e

pub add_body : Time → AddWorkspaceMemberInput → Action Error WorkspaceMember
unfolding lock_workspace owner_only add_failure commit_tx
add_body now input = do
  row ← lock_workspace input.workspace_id
  owner_only row.id input.actor_id
  member ← on_error add_failure (
      exec (
        Workspaces.add_workspace_member
          (record { workspace_id = row.id; user_id = input.user_id; role = role_member }) now))
  commit_tx
  pure (member_from_row member)

-- Service.AddWorkspaceMember
unfoldable pub add_workspace_member : Time → AddWorkspaceMemberInput → Action Error WorkspaceMember
unfolding add_body
add_workspace_member now input = do
  reject_if (input.workspace_id == zero_id || input.actor_id == zero_id || input.user_id == zero_id)
      (sentinel invalid_id)
  with_tx rollback_last "begin transaction" (add_body now input)

pub remove_body : RemoveWorkspaceMemberInput → Action Error (Unit {0})
unfolding lock_workspace owner_only commit_tx
remove_body input = do
  row ← lock_workspace input.workspace_id
  owner_only row.id input.actor_id
  reject_if (input.user_id == input.actor_id) (sentinel owner_removal)
  removed ←
      on_error (wrap_driver "remove workspace member")
        (exec (Workspaces.remove_workspace_member row.id input.user_id))
  reject_if (removed == 0) (sentinel workspace_member_not_found)
  commit_tx

-- Service.RemoveWorkspaceMember
unfoldable pub remove_workspace_member : RemoveWorkspaceMemberInput → Action Error (Unit {0})
unfolding remove_body
remove_workspace_member input = do
  reject_if (input.workspace_id == zero_id || input.actor_id == zero_id || input.user_id == zero_id)
      (sentinel invalid_id)
  with_tx rollback_first "begin transaction" (remove_body input)

pub delete_body : DeleteWorkspaceInput → Action Error (Unit {0})
unfolding lock_workspace owner_only commit_tx
delete_body input = do
  row ← lock_workspace input.workspace_id
  owner_only row.id input.actor_id
  removed ← on_error (wrap_driver "delete workspace") (exec (Workspaces.delete_workspace row.id))
  reject_if (removed == 0) (sentinel workspace_not_found)
  commit_tx

-- Service.DeleteWorkspace
unfoldable pub delete_workspace : DeleteWorkspaceInput → Action Error (Unit {0})
unfolding delete_body
delete_workspace input = do
  reject_if (input.workspace_id == zero_id || input.actor_id == zero_id) (sentinel invalid_id)
  with_tx rollback_last "begin transaction" (delete_body input)
