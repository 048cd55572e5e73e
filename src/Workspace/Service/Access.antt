-- ===== src/Workspace/Service/Access.antt =====
-- internal/workspace/service.go, the methods that change memberships: who may change a workspace,
-- and what a call may leave in the committed tables.
use waypoint_be.Base.{ℕ, String, ◌≡◌, refl, ◌⊎◌, inl, inr, Bool, false, ◌||◌, ◌==◌, ok}
use waypoint_be.Store.{Uuid, zero_id, Time, WorkspaceMemberRow, Store}
use waypoint_be.Store.Workspaces
use waypoint_be.Session.{
  Session, Action, ◌>>=◌, ◌>>◌, reject_if, sentinel, wrap_driver, JoinOrder, rollback_last,
  rollback_first, with_tx,
}
use waypoint_be.Session.Rules.{
  Triple, pure-Triple, weaken-Triple, bind-Triple, reject-Triple, Kept, During, statement-Triple,
  with_tx_from-Triple, ends_from-Kept, During-weaken,
}
use waypoint_be.Workspace.{
  workspace_not_found, workspace_member_not_found, invalid_id, owner_removal, Error,
  AddWorkspaceMemberInput, RemoveWorkspaceMemberInput, DeleteWorkspaceInput, role_member,
  member_from_row,
}
use waypoint_be.Workspace.Service.{
  lock_workspace, owner_only, add_workspace_member, remove_workspace_member, delete_workspace,
  add_body, add_failure, remove_body, delete_body,
}
use waypoint_be.Workspace.Service.Guards.{
  Owned, owner_only-Triple, commit_tx-Triple, lock_workspace_at-Triple,
}

-- What a removal may do to the tables.
pub record Removed (input : RemoveWorkspaceMemberInput) (before after : Store) : Type 0 where
  pub by_owner : Owned input.workspace_id input.actor_id before
  pub another : (input.user_id == input.actor_id) ≡ false
  pub rows : ℕ
  pub some_rows : (rows == 0) ≡ false
  pub deletion :
      Workspaces.remove_workspace_member input.workspace_id input.user_id before ≡ ok (rows, after)

-- What an addition may do to the tables.
pub record Joined (now : Time) (input : AddWorkspaceMemberInput) (before after : Store)
    : Type 0 where
  pub by_owner : Owned input.workspace_id input.actor_id before
  pub row : WorkspaceMemberRow
  pub insertion :
      Workspaces.add_workspace_member
        (record { workspace_id = input.workspace_id; user_id = input.user_id; role = role_member })
        now
        before
      ≡ ok (row, after)

-- What the deletion of a workspace may do to the tables.
pub record Dissolved (input : DeleteWorkspaceInput) (before after : Store) : Type 0 where
  pub by_owner : Owned input.workspace_id input.actor_id before
  pub rows : ℕ
  pub deletion : Workspaces.delete_workspace input.workspace_id before ≡ ok (rows, after)

module _ (before : Store) where
  -- Nothing has changed, or the change is the one that is meant.
  abbrev Only : (Store → Type 0) → Store → Type 0
  Only Change st = (st ≡ before) ⊎ Change st

  abbrev Same : Store → Type 0
  Same st = st ≡ before

  -- The rules of Session/Rules, from `Same` to `Only Change`.
  module _ (Change : Store → Type 0) where
    begin-Same :
        {A : Type 0} (order : JoinOrder) (text : String) {body : Action Error A}
        → Triple
            (During (Only Change) Same)
            body
            (λ _. Kept (Only Change))
            (λ _. Kept (Only Change))
        → Triple
            (λ s. Same s.committed)
            (with_tx order text body)
            (λ _. Kept (Only Change))
            (λ _. Kept (Only Change))
    begin-Same order text t = with_tx_from-Triple (Only Change) Same (λ st e. inl e) order text t

    reject-Same :
        {A : Type 0} (test : Bool) (e : Error) {m : Action Error A}
        → (test ≡ false
            → Triple (λ s. Same s.committed) m (λ _. Kept (Only Change)) (λ _. Kept (Only Change)))
        → Triple
            (λ s. Same s.committed)
            (reject_if test e >> m)
            (λ _. Kept (Only Change))
            (λ _. Kept (Only Change))
    reject-Same test e t = reject-Triple test e (λ s h. inl h) t

    -- The locks and the check of the owner come first in every method.
    owner_first :
        {A : Type 0} (w a : Uuid) {rest : Uuid → Action Error A}
        → ((id : Uuid)
            → Triple
                (During (Only Change) (λ st. Same st × (id ≡ w) × Owned w a before))
                (rest id)
                (λ _. Kept (Only Change))
                (λ _. Kept (Only Change)))
        → Triple
            (During (Only Change) Same)
            (lock_workspace w >>= λ row. owner_only row.id a >> rest row.id)
            (λ _. Kept (Only Change))
            (λ _. Kept (Only Change))
    owner_first w a {rest} t = bind-Triple _ (lock_workspace_at-Triple (Only Change) Same w) λ row.
        bind-Triple _ (owner_only-Triple (Only Change) _ row.id a) λ _.
          weaken-Triple
            (During-weaken (Only Change) _ _
              (λ st n. (n.0.0, n.0.1, owned_at st row.id n.0.0 n.0.1 n.1)))
            (λ b s h. h) (λ e s h. h) (t row.id)
      where
        owned_at :
            (st : Store) (id : Uuid) → st ≡ before → id ≡ w → Owned id a st → Owned w a before
        owned_at st id e f o = rw (e, f) at o

remove_body-Only :
    (input : RemoveWorkspaceMemberInput) (before : Store)
    → Triple
        (During (Only before (Removed input before)) (Same before))
        (remove_body input)
        (λ _. Kept (Only before (Removed input before)))
        (λ _. Kept (Only before (Removed input before)))
unfolding remove_body
remove_body-Only input before = owner_first before Change input.workspace_id input.actor_id λ id.
    reject-Triple (input.user_id == input.actor_id) (sentinel owner_removal) (λ s h. h.0)
      λ other.
        bind-Triple _
          (statement-Triple (Only before Change)
            (Workspaces.remove_workspace_member id input.user_id) _
            (λ n st'.
              Owned input.workspace_id input.actor_id before
              × (Workspaces.remove_workspace_member input.workspace_id input.user_id before
                  ≡ ok (n, st')))
            (λ st k n st' h. (k.2, rw (k.0, k.1) at h)) (wrap_driver "remove workspace member"))
          λ removed.
            reject-Triple (removed == 0) (sentinel workspace_member_not_found) (λ s h. h.0)
              λ some. commit_tx-Triple (Only before Change) _ (λ st k. inr (record {
                by_owner = k.0;
                another = other;
                rows = removed;
                some_rows = some;
                deletion = k.1;
              }))
  where
    Change : Store → Type 0
    Change = Removed input before

-- On any session, RemoveWorkspaceMember leaves the committed tables as they were, or the acting
-- user has an owner row of the workspace, the user to remove is another one, some row is deleted,
-- and the committed tables are those after that one deletion.
pub remove_workspace_member-Removed :
    (input : RemoveWorkspaceMemberInput) (s : Session)
    → let after = (remove_workspace_member input s).1.committed in
      (after ≡ s.committed) ⊎ Removed input s.committed after
unfolding remove_workspace_member
remove_workspace_member-Removed input s =
    ends_from-Kept (Only s.committed (Removed input s.committed))
      (λ t. Same s.committed t.committed)
      (reject-Same s.committed (Removed input s.committed)
        (input.workspace_id == zero_id || input.actor_id == zero_id || input.user_id == zero_id)
        (sentinel invalid_id)
        λ _.
          begin-Same s.committed (Removed input s.committed) rollback_first "begin transaction"
            (remove_body-Only input s.committed))
      s refl

add_body-Only :
    (now : Time) (input : AddWorkspaceMemberInput) (before : Store)
    → Triple
        (During (Only before (Joined now input before)) (Same before))
        (add_body now input)
        (λ _. Kept (Only before (Joined now input before)))
        (λ _. Kept (Only before (Joined now input before)))
unfolding add_body
add_body-Only now input before =
    owner_first before (Joined now input before) input.workspace_id input.actor_id λ id.
      bind-Triple _
        (statement-Triple (Only before (Joined now input before))
          (Workspaces.add_workspace_member
            (record { workspace_id = id; user_id = input.user_id; role = role_member }) now)
          _ (λ m st'. Joined now input before st')
          (λ st k m st' h. record { by_owner = k.2; row = m; insertion = rw (k.0, k.1) at h })
          add_failure)
        λ member.
          bind-Triple (λ _. Kept (Only before (Joined now input before)))
            (commit_tx-Triple (Only before (Joined now input before)) _ (λ st k. inr k))
            λ _.
              pure-Triple (λ _. Kept (Only before (Joined now input before))) _
                (member_from_row member)

-- On any session, AddWorkspaceMember leaves the committed tables as they were, or the acting user
-- has an owner row of the workspace and the committed tables are those after the one insertion of
-- the user with the role `member`.
pub add_workspace_member-Joined :
    (now : Time) (input : AddWorkspaceMemberInput) (s : Session)
    → let after = (add_workspace_member now input s).1.committed in
      (after ≡ s.committed) ⊎ Joined now input s.committed after
unfolding add_workspace_member
add_workspace_member-Joined now input s =
    ends_from-Kept (Only s.committed (Joined now input s.committed))
      (λ t. Same s.committed t.committed)
      (reject-Same s.committed (Joined now input s.committed)
        (input.workspace_id == zero_id || input.actor_id == zero_id || input.user_id == zero_id)
        (sentinel invalid_id)
        λ _.
          begin-Same s.committed (Joined now input s.committed) rollback_last "begin transaction"
            (add_body-Only now input s.committed))
      s refl

delete_body-Only :
    (input : DeleteWorkspaceInput) (before : Store)
    → Triple
        (During (Only before (Dissolved input before)) (Same before))
        (delete_body input)
        (λ _. Kept (Only before (Dissolved input before)))
        (λ _. Kept (Only before (Dissolved input before)))
unfolding delete_body
delete_body-Only input before =
    owner_first before (Dissolved input before) input.workspace_id input.actor_id λ id.
      bind-Triple _
        (statement-Triple (Only before (Dissolved input before)) (Workspaces.delete_workspace id) _
          (λ n st'. Dissolved input before st')
          (λ st k n st' h. record { by_owner = k.2; rows = n; deletion = rw (k.0, k.1) at h })
          (wrap_driver "delete workspace"))
        λ removed.
          reject-Triple (removed == 0) (sentinel workspace_not_found) (λ s h. h.0)
            λ _. commit_tx-Triple (Only before (Dissolved input before)) _ (λ st k. inr k)

-- On any session, DeleteWorkspace leaves the committed tables as they were, or the acting user
-- has an owner row of the workspace and the committed tables are those after the deletion of that
-- workspace.
pub delete_workspace-Dissolved :
    (input : DeleteWorkspaceInput) (s : Session)
    → let after = (delete_workspace input s).1.committed in
      (after ≡ s.committed) ⊎ Dissolved input s.committed after
unfolding delete_workspace
delete_workspace-Dissolved input s =
    ends_from-Kept (Only s.committed (Dissolved input s.committed))
      (λ t. Same s.committed t.committed)
      (reject-Same s.committed (Dissolved input s.committed)
        (input.workspace_id == zero_id || input.actor_id == zero_id) (sentinel invalid_id)
        λ _.
          begin-Same s.committed (Dissolved input s.committed) rollback_last "begin transaction"
            (delete_body-Only input s.committed))
      s refl
