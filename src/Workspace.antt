-- ===== src/Workspace.antt =====
-- internal/workspace: model.go and errors.go. The service and its proofs are in the children.
pub mod Service
pub mod Handler
use waypoint_be.Base.{String, List, [], map}
use waypoint_be.Store.{Uuid, Time, WorkspaceRow, WorkspaceMemberRow}
use waypoint_be.Session.{◌>>=◌, ◌>>◌, Failure}

pub data WorkspaceError : Type 0 where
  forbidden workspace_not_found workspace_member_not_found user_not_found : WorkspaceError
  invalid_id invalid_name already_member owner_removal : WorkspaceError

abbrev pub Error : Type 0
Error = Failure WorkspaceError

pub record CreateWorkspaceInput : Type 0 where
  pub name : String
  pub actor_id : Uuid

pub record ReadWorkspaceInput : Type 0 where
  pub workspace_id : Uuid
  pub actor_id : Uuid

pub record AddWorkspaceMemberInput : Type 0 where
  pub workspace_id : Uuid
  pub user_id : Uuid
  pub actor_id : Uuid

pub record RemoveWorkspaceMemberInput : Type 0 where
  pub workspace_id : Uuid
  pub user_id : Uuid
  pub actor_id : Uuid

pub record DeleteWorkspaceInput : Type 0 where
  pub workspace_id : Uuid
  pub actor_id : Uuid

pub record CreateWorkspaceRequest : Type 0 where
  pub name : String

pub record WorkspaceMemberSummary : Type 0 where
  pub user_id : Uuid
  pub role : String

pub record Workspace : Type 0 where
  pub id : Uuid
  pub name : String
  pub members : List WorkspaceMemberSummary
  pub created_at : Time

pub record WorkspaceMember : Type 0 where
  pub workspace_id : Uuid
  pub user_id : Uuid
  pub role : String

-- The texts of the sentinels.
abbrev pub workspace_error_text : WorkspaceError → String
workspace_error_text forbidden = "insufficient workspace permissions"
workspace_error_text workspace_not_found = "workspace not found"
workspace_error_text workspace_member_not_found = "workspace member not found"
workspace_error_text user_not_found = "user not found"
workspace_error_text invalid_id = "invalid workspace or user id"
workspace_error_text invalid_name = "workspace name cannot be empty"
workspace_error_text already_member = "user is already a workspace member"
workspace_error_text owner_removal = "cannot remove workspace owner"

abbrev pub role_owner : String
role_owner = "owner"

abbrev pub role_member : String
role_member = "member"

-- memberFromRow
unfoldable pub member_from_row : WorkspaceMemberRow → WorkspaceMember
member_from_row row = record {
  workspace_id = row.workspace_id;
  user_id = row.user_id;
  role = row.role;
}

abbrev pub summary : WorkspaceMemberRow → WorkspaceMemberSummary
summary m = record { user_id = m.user_id; role = m.role }

-- workspaceFromRows
unfoldable pub workspace_from_rows : WorkspaceRow → List WorkspaceMemberRow → Workspace
workspace_from_rows row members = record {
  id = row.id;
  name = row.name;
  members = map summary members;
  created_at = row.created_at;
}
