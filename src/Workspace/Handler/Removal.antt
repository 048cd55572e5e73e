-- ===== src/Workspace/Handler/Removal.antt =====
-- internal/workspace/handler.go, the handlers that delete: what they may leave in the committed tables.
use waypoint_be.Base.{◌≡◌, refl, ◌⊎◌, inl, inr}
use waypoint_be.Store.{Store}
use waypoint_be.Session.{Session}
use waypoint_be.Http.{Request, JwtConfig, Libraries, write_header}
use waypoint_be.Http.Serving.{Exchange}
use waypoint_be.Http.Rules.{bind-Serves, served-end, At, acts-Serves, responds-Serves}
use waypoint_be.User.Handler.Access.{Only, moved}
use waypoint_be.Workspace.{RemoveWorkspaceMemberInput, DeleteWorkspaceInput}
use waypoint_be.Workspace.Service
use waypoint_be.Workspace.Service.Access.{
  Removed, Dissolved, remove_workspace_member-Removed, delete_workspace-Dissolved,
}
use waypoint_be.Workspace.Handler.{write_error, remove_workspace_member, delete_workspace}
use waypoint_be.Workspace.Handler.Access.{RemovedBy, DissolvedBy, actor_first, path_next}

module _ (lib : Libraries) (config : JwtConfig) (r : Request) where
  pub remove_workspace_member-RemovedBy :
      (x : Exchange)
      → let after = (remove_workspace_member lib config r x).1.session.committed in
        (after ≡ x.session.committed) ⊎ RemovedBy lib config r x.session.committed after
  unfolding remove_workspace_member
  remove_workspace_member-RemovedBy x =
      let before : Store = x.session.committed in
      let R : Session → Type 0 = Only lib config r before (RemovedBy lib config r before) in
      served-end
        (actor_first lib config r before R (λ s e. inl e)
          λ actor_id.
            path_next lib config r before R (λ s e. inl e) _ "workspace_id" (λ s h. h.0)
              λ workspace_id.
                path_next lib config r before R (λ s e. inl e) _ "user_id" (λ s h. h.0.0)
                  λ user_id.
                    let input : RemoveWorkspaceMemberInput = record {
                      workspace_id = workspace_id;
                      user_id = user_id;
                      actor_id = actor_id;
                    } in
                    bind-Serves (λ _. At R)
                      (acts-Serves _ R (Service.remove_workspace_member input) write_error (λ s h.
                        elim (moved lib config r before (Removed input) s.committed _ h.0.0.0
                          (remove_workspace_member-Removed input s)) [
                            | inl e ↦ inl e
                            | inr c ↦ inr (record {
                              actor_id = actor_id;
                              actor = h.0.0.1;
                              workspace_id = workspace_id;
                              workspace_path = h.0.1;
                              user_id = user_id;
                              user_path = h.1;
                              change = c;
                            })
                          ]))
                      λ y. responds-Serves R (write_header 204))
        x refl

  pub delete_workspace-DissolvedBy :
      (x : Exchange)
      → let after = (delete_workspace lib config r x).1.session.committed in
        (after ≡ x.session.committed) ⊎ DissolvedBy lib config r x.session.committed after
  unfolding delete_workspace
  delete_workspace-DissolvedBy x =
      let before : Store = x.session.committed in
      let R : Session → Type 0 = Only lib config r before (DissolvedBy lib config r before) in
      served-end
        (actor_first lib config r before R (λ s e. inl e)
          λ actor_id.
            path_next lib config r before R (λ s e. inl e) _ "workspace_id" (λ s h. h.0)
              λ workspace_id.
                let input : DeleteWorkspaceInput = record {
                  workspace_id = workspace_id;
                  actor_id = actor_id;
                } in
                bind-Serves (λ _. At R)
                  (acts-Serves _ R (Service.delete_workspace input) write_error (λ s h.
                    elim (moved lib config r before (Dissolved input) s.committed _ h.0.0
                      (delete_workspace-Dissolved input s)) [
                        | inl e ↦ inl e
                        | inr c ↦ inr (record {
                          actor_id = actor_id;
                          actor = h.0.1;
                          workspace_id = workspace_id;
                          workspace_path = h.1;
                          change = c;
                        })
                      ]))
                  λ y. responds-Serves R (write_header 204))
        x refl
