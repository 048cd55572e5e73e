-- ===== src/Store/Workspaces.antt =====
-- The statements of internal/db/sqlc/workspaces.sql.go, with the constraints of the tables
-- `workspaces` and `workspace_members` and the foreign keys that cascade from them.
use waypoint_be.Base.{
  ℕ, String, Bool, not, ◌&&◌, ◌||◌, List, [], ◌∷◌, ◌++◌, str_eq, ◌==◌, if◌then◌else◌, filter, any,
  find?, count, order_by, Result, ok, err, and_then,
}
use waypoint_be.Store.{
  Uuid, Time, WorkspaceRow, WorkspaceMemberRow, Store, DbError, unique_violation,
  foreign_key_violation, check_violation, Query, has_user, has_workspace,
}
use waypoint_be.Store.Threads.{delete_messages}
use waypoint_be.Store.Users.{one_row}

pub record AddWorkspaceMemberParams : Type 0 where
  pub workspace_id : Uuid
  pub user_id : Uuid
  pub role : String

abbrev pub in_workspace : Uuid → WorkspaceMemberRow → Bool
in_workspace w r = r.workspace_id == w

abbrev pub is_member : Uuid → Uuid → WorkspaceMemberRow → Bool
is_member w u r = r.workspace_id == w && r.user_id == u

abbrev pub is_owner : Uuid → WorkspaceMemberRow → Bool
is_owner w r = r.workspace_id == w && str_eq r.role "owner"

abbrev pub is_role : String → Bool
is_role s = str_eq s "owner" || str_eq s "admin" || str_eq s "member"

-- The constraints are tried in PostgreSQL's order: the CHECK, the unique indexes, the foreign keys.
unfoldable pub add_workspace_member : AddWorkspaceMemberParams → Time → Query WorkspaceMemberRow
add_workspace_member arg now st =
    let row : WorkspaceMemberRow = record {
      workspace_id = arg.workspace_id;
      user_id = arg.user_id;
      role = arg.role;
      joined_at = now;
    } in
    if not (is_role arg.role)
    then err (check_violation "workspace_members_role_check")
    else if any (is_member arg.workspace_id arg.user_id) st.members
    then err (unique_violation "workspace_members_pkey")
    else if str_eq arg.role "owner" && any (is_owner arg.workspace_id) st.members
    then err (unique_violation "workspace_members_single_owner_idx")
    else if not (has_workspace arg.workspace_id st)
    then err (foreign_key_violation "workspace_members_workspace_id_fkey")
    else if not (has_user arg.user_id st)
    then err (foreign_key_violation "workspace_members_user_id_fkey")
    else ok (row, record st { members = st.members ++ row ∷ [] })

pub record CreateWorkspaceParams : Type 0 where
  pub id : Uuid
  pub name : String

unfoldable pub create_workspace : CreateWorkspaceParams → Time → Query WorkspaceRow
create_workspace arg now st =
    let row : WorkspaceRow = record { id = arg.id; name = arg.name; created_at = now } in
    if has_workspace arg.id st
    then err (unique_violation "workspaces_pkey")
    else ok (row, record st { workspaces = st.workspaces ++ row ∷ [] })

-- DELETE FROM workspaces for the ids that `doomed` names, with what cascades from it: memberships,
-- channels, channel memberships, and the messages of those channels with the replies to them.
unfoldable pub delete_workspaces : (Uuid → Bool) → Store → Result DbError Store
delete_workspaces doomed st =
    and_then
      (delete_messages (λ m. any (λ c. c.id == m.channel_id && doomed c.workspace_id) st.channels)
        st.channel_messages)
      λ messages. ok (record st {
        workspaces = filter (λ r. not (doomed r.id)) st.workspaces;
        members = filter (λ r. not (doomed r.workspace_id)) st.members;
        channels = filter (λ r. not (doomed r.workspace_id)) st.channels;
        channel_members = filter (λ r. not (doomed r.workspace_id)) st.channel_members;
        channel_messages = messages;
      })

unfoldable pub delete_workspace : Uuid → Query ℕ
delete_workspace id st =
    and_then (delete_workspaces (λ w. w == id) st)
      λ st'. ok (count (λ r. r.id == id) st.workspaces, st')

-- The user holds the role 'owner' in the workspace.
abbrev pub owns : Uuid → Store → Uuid → Bool
owns u st w = any (λ r. is_member w u r && str_eq r.role "owner") st.members

unfoldable pub delete_workspaces_owned_by_user : Uuid → Query (Unit {0})
delete_workspaces_owned_by_user u st =
    and_then (delete_workspaces (owns u st) st) λ st'. ok (tt, st')

unfoldable pub list_user_workspaces : Uuid → Query (List WorkspaceRow)
list_user_workspaces u st =
    ok (order_by (λ r. r.id) (filter (λ w. any (is_member w.id u) st.members) st.workspaces), st)

unfoldable pub list_workspace_members : Uuid → Query (List WorkspaceMemberRow)
list_workspace_members w st =
    ok (order_by (λ r. r.user_id) (filter (in_workspace w) st.members), st)

-- SELECT ... FOR UPDATE: the row lock keeps other transactions from the row until this one ends.
unfoldable pub lock_workspace_row : Uuid → Query WorkspaceRow
lock_workspace_row id st = one_row (find? (λ r. r.id == id) st.workspaces) st

-- Channel memberships of the removed member go by `channel_members_workspace_member_fkey`.
unfoldable pub remove_workspace_member : Uuid → Uuid → Query ℕ
remove_workspace_member w u st = ok (
  count (is_member w u) st.members,
  record st {
    members = filter (λ r. not (is_member w u r)) st.members;
    channel_members = filter (λ r. not (r.workspace_id == w && r.user_id == u)) st.channel_members;
  },
)

unfoldable pub select_workspace_member : Uuid → Uuid → Query WorkspaceMemberRow
select_workspace_member w u st = one_row (find? (is_member w u) st.members) st

unfoldable pub select_workspace : Uuid → Query WorkspaceRow
select_workspace id st = one_row (find? (λ w. w.id == id) st.workspaces) st
