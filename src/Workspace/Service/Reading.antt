-- ===== src/Workspace/Service/Reading.antt =====
-- internal/workspace/service.go, Service.ReadWorkspace: it changes nothing.
use waypoint_be.Base.{◌≡◌, refl, not, ◌||◌, arith, ◌==◌, any}
use waypoint_be.Store.{zero_id, Store}
use waypoint_be.Store.Workspaces
use waypoint_be.Session.{Session, sentinel, rollback_last}
use waypoint_be.Session.Rules.{
  Triple, pure-Triple, bind-Triple, reject-Triple, Kept, During, statement-Triple, with_tx-Triple,
  ends-Kept,
}
use waypoint_be.Workspace.{forbidden, invalid_id, ReadWorkspaceInput, workspace_from_rows}
use waypoint_be.Workspace.Service.{read_body, read_workspace}
use waypoint_be.Workspace.Service.Guards.{lock_workspace-Triple, commit_tx-Triple}

module _ (Inv : Store → Type 0) where
  read_body-Keeps :
      (input : ReadWorkspaceInput)
      → Triple (During Inv Inv) (read_body input) (λ _. Kept Inv) (λ _. Kept Inv)
  unfolding read_body Workspaces.list_workspace_members
  read_body-Keeps input = bind-Triple _ (lock_workspace-Triple Inv Inv input.workspace_id) λ row.
      bind-Triple _
        (statement-Triple Inv (Workspaces.list_workspace_members input.workspace_id) Inv (λ _. Inv)
          (λ st n m st' h. let e : st' ≡ st = ground arith in rw e n) _)
        λ members.
          reject-Triple (not (any (λ m. m.user_id == input.actor_id) members)) (sentinel forbidden)
            (λ s h. h.0)
            λ _.
              bind-Triple (λ _. Kept Inv) (commit_tx-Triple Inv Inv (λ st v. v))
                λ _. pure-Triple (λ _. Kept Inv) (λ _. Kept Inv) (workspace_from_rows row members)

  read_workspace-Keeps :
      (input : ReadWorkspaceInput)
      → Triple (Kept Inv) (read_workspace input) (λ _. Kept Inv) (λ _. Kept Inv)
  unfolding read_workspace
  read_workspace-Keeps input =
      reject-Triple (input.workspace_id == zero_id || input.actor_id == zero_id)
        (sentinel invalid_id) (λ s h. h)
        λ _. with_tx-Triple Inv rollback_last "begin workspace transaction" (read_body-Keeps input)

pub read_workspace-committed :
    (input : ReadWorkspaceInput) (s : Session) → (read_workspace input s).1.committed ≡ s.committed
read_workspace-committed input s =
    ends-Kept (λ st. st ≡ s.committed) (read_workspace-Keeps (λ st. st ≡ s.committed) input) s refl
