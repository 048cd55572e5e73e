-- ===== src/Workspace/Service/Invariant.antt =====
-- internal/workspace/service.go against the contract of Membership: the bodies of the
-- transactions, then the methods.
use waypoint_be.Base.{◌≡◌, ◌||◌, arith, ◌==◌}
use waypoint_be.Store.{zero_id, Time, Store}
use waypoint_be.Store.Workspaces
use waypoint_be.Session.{
  Session, Action, ◌>>◌, pure, sentinel, wrap_driver, rollback_last, rollback_first,
}
use waypoint_be.Session.Rules.{
  Triple, pure-Triple, bind-Triple, reject-Triple, Kept, During, statement-Triple, with_tx-Triple,
  ends-Kept,
}
use waypoint_be.Membership.{IsValid}
use waypoint_be.Membership.Insert.{add_member-IsValid}
use waypoint_be.Membership.Delete.{shrunk, remove_member-IsValid, deleted-IsValid}
use waypoint_be.Workspace.Service.{
  add_workspace_member, remove_workspace_member, delete_workspace, read_workspace, commit_tx,
  add_body, add_failure, remove_body, delete_body,
}
use waypoint_be.Workspace.{
  workspace_not_found, workspace_member_not_found, invalid_id, owner_removal, Error,
  ReadWorkspaceInput, AddWorkspaceMemberInput, RemoveWorkspaceMemberInput, DeleteWorkspaceInput,
  member_from_row,
}
use waypoint_be.Workspace.Service.Reading.{read_workspace-committed}
use waypoint_be.Workspace.Service.Guards.{
  lock_workspace-Triple, owner_only-Triple, commit_tx-Triple,
}

-- A method that keeps the contract on every way out.
abbrev Keeps : {A : Type 0} → Action Error A → Type 0
Keeps m = Triple (Kept IsValid) m (λ _. Kept IsValid) (λ _. Kept IsValid)

finish :
    {A : Type 0} (a : A) (Now : Store → Type 0)
    → ((st : Store) → Now st → IsValid st)
    → Triple (During IsValid Now) (commit_tx >> pure a) (λ _. Kept IsValid) (λ _. Kept IsValid)
finish a Now keep =
    bind-Triple (λ _. Kept IsValid) (commit_tx-Triple IsValid Now keep)
      λ _. pure-Triple (λ _. Kept IsValid) _ a

add_body-Keeps :
    (now : Time) (input : AddWorkspaceMemberInput)
    → Triple (During IsValid IsValid) (add_body now input) (λ _. Kept IsValid) (λ _. Kept IsValid)
unfolding add_body
add_body-Keeps now input =
    bind-Triple _ (lock_workspace-Triple IsValid IsValid input.workspace_id) λ row.
      bind-Triple _ (owner_only-Triple IsValid IsValid row.id input.actor_id) λ _.
        bind-Triple _
          (statement-Triple IsValid (Workspaces.add_workspace_member _ now) _ (λ _. IsValid)
            (λ st n m st' h. add_member-IsValid row.id input.user_id now st m st' n.0 h)
            add_failure)
          λ member. finish (member_from_row member) IsValid (λ st v. v)

add_workspace_member-Keeps :
    (now : Time) (input : AddWorkspaceMemberInput) → Keeps (add_workspace_member now input)
unfolding add_workspace_member
add_workspace_member-Keeps now input =
    reject-Triple
      (input.workspace_id == zero_id || input.actor_id == zero_id || input.user_id == zero_id)
      (sentinel invalid_id) (λ s h. h)
      λ _. with_tx-Triple IsValid rollback_last "begin transaction" (add_body-Keeps now input)

remove_body-Keeps :
    (input : RemoveWorkspaceMemberInput)
    → Triple (During IsValid IsValid) (remove_body input) (λ _. Kept IsValid) (λ _. Kept IsValid)
unfolding remove_body Workspaces.remove_workspace_member
remove_body-Keeps input =
    bind-Triple _ (lock_workspace-Triple IsValid IsValid input.workspace_id) λ row.
      bind-Triple _ (owner_only-Triple IsValid IsValid row.id input.actor_id) λ _.
        reject-Triple (input.user_id == input.actor_id) (sentinel owner_removal) (λ s h. h.0)
          λ other.
            bind-Triple _
              (statement-Triple IsValid (Workspaces.remove_workspace_member row.id input.user_id) _
                (λ _. IsValid)
                (λ st n m st' h.
                  let e : st' ≡ shrunk row.id input.user_id input.actor_id st = ground arith in
                  rw e (
                    remove_member-IsValid row.id input.user_id input.actor_id st (ground arith) n.1
                      n.0))
                (wrap_driver "remove workspace member"))
              λ removed.
                reject-Triple (removed == 0) (sentinel workspace_member_not_found) (λ s h. h.0)
                  λ _. commit_tx-Triple IsValid IsValid (λ st v. v)

remove_workspace_member-Keeps :
    (input : RemoveWorkspaceMemberInput) → Keeps (remove_workspace_member input)
unfolding remove_workspace_member
remove_workspace_member-Keeps input =
    reject-Triple
      (input.workspace_id == zero_id || input.actor_id == zero_id || input.user_id == zero_id)
      (sentinel invalid_id) (λ s h. h)
      λ _. with_tx-Triple IsValid rollback_first "begin transaction" (remove_body-Keeps input)

delete_body-Keeps :
    (input : DeleteWorkspaceInput)
    → Triple (During IsValid IsValid) (delete_body input) (λ _. Kept IsValid) (λ _. Kept IsValid)
unfolding delete_body
delete_body-Keeps input =
    bind-Triple _ (lock_workspace-Triple IsValid IsValid input.workspace_id) λ row.
      bind-Triple _ (owner_only-Triple IsValid IsValid row.id input.actor_id) λ _.
        bind-Triple _
          (statement-Triple IsValid (Workspaces.delete_workspace row.id) _ (λ _. IsValid)
            (λ st n m st' h. deleted-IsValid row.id st st' m h n.0) _)
          λ removed.
            reject-Triple (removed == 0) (sentinel workspace_not_found) (λ s h. h.0)
              λ _. commit_tx-Triple IsValid IsValid (λ st v. v)

delete_workspace-Keeps : (input : DeleteWorkspaceInput) → Keeps (delete_workspace input)
unfolding delete_workspace
delete_workspace-Keeps input =
    reject-Triple (input.workspace_id == zero_id || input.actor_id == zero_id) (sentinel invalid_id)
      (λ s h. h)
      λ _. with_tx-Triple IsValid rollback_last "begin transaction" (delete_body-Keeps input)

-- AddWorkspaceMember keeps valid tables valid, on every branch and whatever befalls its driver
-- calls.
pub add_workspace_member-IsValid :
    (now : Time) (input : AddWorkspaceMemberInput) (s : Session)
    → IsValid s.committed
    → IsValid (add_workspace_member now input s).1.committed
add_workspace_member-IsValid now input s v =
    ends-Kept IsValid (add_workspace_member-Keeps now input) s v

-- RemoveWorkspaceMember keeps valid tables valid, on every branch and whatever befalls its driver
-- calls.
pub remove_workspace_member-IsValid :
    (input : RemoveWorkspaceMemberInput) (s : Session)
    → IsValid s.committed
    → IsValid (remove_workspace_member input s).1.committed
remove_workspace_member-IsValid input s v =
    ends-Kept IsValid (remove_workspace_member-Keeps input) s v

-- DeleteWorkspace keeps valid tables valid, on every branch and whatever befalls its driver
-- calls.
pub delete_workspace-IsValid :
    (input : DeleteWorkspaceInput) (s : Session)
    → IsValid s.committed
    → IsValid (delete_workspace input s).1.committed
delete_workspace-IsValid input s v = ends-Kept IsValid (delete_workspace-Keeps input) s v

pub read_workspace-IsValid :
    (input : ReadWorkspaceInput) (s : Session)
    → IsValid s.committed
    → IsValid (read_workspace input s).1.committed
read_workspace-IsValid input s v = rw (read_workspace-committed input s) v
