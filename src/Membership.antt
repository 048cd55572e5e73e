-- ===== src/Membership.antt =====
-- What the tables `users`, `workspaces` and `workspace_members` promise together: the contract in
-- the comment on Service in internal/workspace/service.go, and the keys of db/migrations.
pub mod Insert
pub mod Delete
use waypoint_be.Base.{ℕ, ◌≤◌, ◌≡◌, ◌≢◌, Bool, true, false, [], ◌==◌, count}
use waypoint_be.Store.{Uuid, WorkspaceMemberRow, Store, has_user, has_workspace}
use waypoint_be.Store.Workspaces.{in_workspace, is_member, is_owner}

abbrev pub of_user : Uuid → WorkspaceMemberRow → Bool
of_user u r = r.user_id == u

-- The rows of `workspace_members` that give the workspace an owner.
abbrev pub owners : Uuid → Store → ℕ
owners w st = count (is_owner w) st.members

pub record IsValid (st : Store) : Type 0 where
  -- every workspace has exactly one owner
  pub one_owner : (w : Uuid) → has_workspace w st ≡ true → owners w st ≡ 1
  -- a membership names a workspace and a user that exist, and stands once
  pub workspace_exists :
      (w : Uuid) → has_workspace w st ≡ false → count (in_workspace w) st.members ≡ 0
  pub user_exists : (u : Uuid) → has_user u st ≡ false → count (of_user u) st.members ≡ 0
  pub stands_once : (w u : Uuid) → count (is_member w u) st.members ≤ 1

-- The same but for the workspace `new`, which exists and has no member yet.
pub record IsValidBut (new : Uuid) (st : Store) : Type 0 where
  pub new_exists : has_workspace new st ≡ true
  pub new_empty : count (in_workspace new) st.members ≡ 0
  pub others_owned : (w : Uuid) → w ≢ new → has_workspace w st ≡ true → owners w st ≡ 1
  pub workspace_exists :
      (w : Uuid) → has_workspace w st ≡ false → count (in_workspace w) st.members ≡ 0
  pub user_exists : (u : Uuid) → has_user u st ≡ false → count (of_user u) st.members ≡ 0
  pub stands_once : (w u : Uuid) → count (is_member w u) st.members ≤ 1
