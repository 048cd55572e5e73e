-- ===== src/Server/Access.antt =====
-- internal/waypoint: what a request may leave in the committed tables, handler by handler.
use waypoint_be.Base.{String, ◌≡◌, refl, ◌∙◌, ◌⊎◌, inl, inr, false, List, arith}
use waypoint_be.Store.{Store}
use waypoint_be.Session.{Session, ping}
use waypoint_be.Session.Statement.{query-read}
use waypoint_be.Http.{Request, JwtConfig, Libraries}
use waypoint_be.Http.Serving.{Exchange}
use waypoint_be.Http.Rules.{bind-Serves, served-end, At, acts-Serves, responds-Serves}
use waypoint_be.Health.{healthz, readyz}
use waypoint_be.User.Handler.Access as UserAccess
use waypoint_be.User.Handler.Reading as UserReading
use waypoint_be.Workspace.Handler.Access as WorkspaceAccess
use waypoint_be.Workspace.Handler.Removal as WorkspaceRemoval
use waypoint_be.Server.{
  Target, health, ready, create_user, list_users, get_user, delete_user, me, create_workspace,
  get_workspace, add_workspace_member, remove_workspace_member, delete_workspace, routes, Bindings,
  Choice, chosen, wrong_method, no_pattern, select, value_of, Ambient, limited, handle,
  serve_choice, serve,
}

module _ (lib : Libraries) (config : JwtConfig) (env : Ambient) where
  -- The change that a request to a handler may make.
  pub Permitted : Target → Request → Store → Store → Type 0
  Permitted create_user r before after =
      UserAccess.RegisteredBy lib config (limited r) before env.first_id env.second_id env.now after
  Permitted delete_user r before after = UserAccess.GoneBy lib config r before after
  Permitted create_workspace r before after =
      WorkspaceAccess.FoundedBy lib config (limited r) before env.first_id env.now after
  Permitted add_workspace_member r before after =
      WorkspaceAccess.JoinedBy lib config r before env.now after
  Permitted remove_workspace_member r before after =
      WorkspaceAccess.RemovedBy lib config r before after
  Permitted delete_workspace r before after = WorkspaceAccess.DissolvedBy lib config r before after
  Permitted _ r before after = ⊥

  ping-committed : (s : Session) → (ping s).1.committed ≡ s.committed
  unfolding ping
  ping-committed s = query-read _ (λ st a st' h. ground arith) s

  pub readyz-committed : (x : Exchange) → (readyz x).1.session.committed ≡ x.session.committed
  unfolding readyz
  readyz-committed x =
      let R : Session → Type 0 = λ s. s.committed ≡ x.session.committed in
      served-end {m = readyz}
        (bind-Serves (λ _. At R) (acts-Serves R R ping _ (λ s h. ping-committed s ∙ h))
          λ _. responds-Serves R _)
        x refl

  -- The same for a handler that has been chosen.
  pub handle-Permitted :
      (t : Target) (r : Request) (x : Exchange)
      → let after = (handle lib config env t r x).1.session.committed in
        (after ≡ x.session.committed) ⊎ Permitted t r x.session.committed after
  unfolding handle Permitted healthz
  handle-Permitted health r x = inl refl
  handle-Permitted ready r x = inl (readyz-committed x)
  handle-Permitted create_user r x =
      UserAccess.create_user-RegisteredBy lib config (limited r) env.first_id env.second_id env.now
        x
  handle-Permitted list_users r x = inl (UserReading.list_users-unchanged lib config r x)
  handle-Permitted get_user r x = inl (UserReading.get_user-committed lib config r x)
  handle-Permitted delete_user r x = UserAccess.delete_user-GoneBy lib config r x
  handle-Permitted me r x = inl (UserReading.me-committed lib config r x)
  handle-Permitted create_workspace r x =
      WorkspaceAccess.create_workspace-FoundedBy lib config (limited r) env.first_id env.now x
  handle-Permitted get_workspace r x = inl (WorkspaceAccess.get_workspace-committed lib config r x)
  handle-Permitted add_workspace_member r x =
      WorkspaceAccess.add_workspace_member-JoinedBy lib config r env.now x
  handle-Permitted remove_workspace_member r x =
      WorkspaceRemoval.remove_workspace_member-RemovedBy lib config r x
  handle-Permitted delete_workspace r x =
      WorkspaceRemoval.delete_workspace-DissolvedBy lib config r x

  -- Whatever the method, the path, the request and the driver's faults, a request leaves the
  -- committed tables as they were, or its route was chosen and they changed as the route's
  -- handler permits: a registration by the token's claims, or the deletion of one's own account,
  -- the founding of a workspace, or an owner's addition, removal or deletion, on behalf of the
  -- user whose identity the accepted token names in the tables before, with the ids of the path
  -- and the values of the body.
  pub serve-Permitted :
      (method : String) (path : List String) (r : Request) (x : Exchange)
      → let after = (serve lib config env method path r x).1.session.committed in
        (after ≡ x.session.committed)
        ⊎ ((t : Target) × (bs : Bindings) × (select method path routes false ≡ chosen t bs)
            × Permitted t (record r { path_value = value_of bs }) x.session.committed after)
  unfolding serve serve_choice
  serve-Permitted method path r x = go (select method path routes false) refl
    where
      go :
          (c : Choice)
          → select method path routes false ≡ c
          → let after = (serve_choice lib config env c r x).1.session.committed in
            (after ≡ x.session.committed)
            ⊎ ((t : Target) × (bs : Bindings) × (select method path routes false ≡ chosen t bs)
                × Permitted t (record r { path_value = value_of bs }) x.session.committed after)
      go (chosen t bs) e = elim (handle-Permitted t (record r { path_value = value_of bs }) x) [
        | inl same ↦ inl same
        | inr p ↦ inr (t, bs, e, p)
      ]
      go wrong_method e = inl refl
      go no_pattern e = inl refl
