-- ===== src/Server/Validity.antt =====
-- internal/waypoint: requests against the contract of the membership tables.
use waypoint_be.Base.{String, ◌≡◌, refl, ap, false, List, ◌<>◌}
use waypoint_be.Session.Clear.{IsClear}
use waypoint_be.Membership.{IsValid}
use waypoint_be.Http.{
  Request, created_user, workspace, member, JwtConfig, Libraries, write_header, http_error, path_id,
  read_json,
}
use waypoint_be.Http.Serving.{Exchange}
use waypoint_be.Http.Rules.{served-end, responds-Serves, sends-Serves}
use waypoint_be.User.Service as Users
use waypoint_be.User.Service.Registration.{create_user-IsValid}
use waypoint_be.User.Service.Deletion.{delete_user-IsValid}
use waypoint_be.Workspace.Service as Workspaces
use waypoint_be.Workspace.Service.Invariant.{
  add_workspace_member-IsValid, remove_workspace_member-IsValid, delete_workspace-IsValid,
}
use waypoint_be.Workspace.Service.Creation.{create_workspace-IsValid}
use waypoint_be.User.Handler as UserHandler
use waypoint_be.Workspace.Handler as WorkspaceHandler
use waypoint_be.Server.Access.{readyz-committed}
use waypoint_be.Health.{healthz}
use waypoint_be.Middleware.{extract_and_validate_jwt}
use waypoint_be.Store.{Uuid, Time}
use waypoint_be.User.{user_error_text, invalid_id as missing_id}
use waypoint_be.User.Handler.Reading.{get_user-committed, list_users-unchanged, me-committed}
use waypoint_be.Workspace.Handler.Access.{get_workspace-committed}
use waypoint_be.Server.{
  Target, health, ready, create_user, list_users, get_user, delete_user, me, create_workspace,
  get_workspace, add_workspace_member, remove_workspace_member, delete_workspace, routes, Bindings,
  Choice, chosen, wrong_method, no_pattern, select, value_of, Ambient, limited, handle,
  serve_choice, serve,
}
use waypoint_be.Server.Steps.{
  Holds, HoldsClear, valid_start, clear_start, check-IsValid, act-IsValid, path-IsValid,
  actor_first,
}

module _ (lib : Libraries) (config : JwtConfig) (r : Request) where
  register-IsValid :
      (user_id identity_id : Uuid) (now : Time) (x : Exchange)
      → Holds x.session
      → Holds (UserHandler.create_user lib config r user_id identity_id now x).1.session
  unfolding UserHandler.create_user
  register-IsValid user_id identity_id now x h =
      served-end {m = UserHandler.create_user lib config r user_id identity_id now}
        (check-IsValid lib config r valid_start (extract_and_validate_jwt lib r config)
          UserHandler.unauthorized
          λ c.
            check-IsValid lib config r valid_start
              (read_json lib.decode_user lib.decode_nothing r.body)
              (λ e. http_error ("invalid request body: " <> e) 400)
              λ request.
                act-IsValid lib config r valid_start
                  (Users.create_user user_id identity_id now (record {
                    email = c.email;
                    user_name = request.user_name;
                    display_name = request.display_name;
                    identity = record { issuer = c.issuer; subject = c.subject };
                  }))
                  (UserHandler.write_error lib) (λ s k. create_user-IsValid _ _ _ _ s k)
                  λ u.
                    sends-Serves Holds lib 201 (created_user (UserHandler.created lib config r u))
                      (UserHandler.write_failed lib))
        x h

  unregister-IsValid :
      (x : Exchange) → Holds x.session → Holds (UserHandler.delete_user lib config r x).1.session
  unfolding UserHandler.delete_user
  unregister-IsValid x h =
      served-end {m = UserHandler.delete_user lib config r}
        (actor_first lib config r valid_start λ actor_id.
          check-IsValid lib config r valid_start (path_id lib r "id")
            (λ _. http_error (user_error_text missing_id) 400)
            λ user_id.
              act-IsValid lib config r valid_start
                (Users.delete_user (record { user_id = user_id; actor_id = actor_id }))
                (UserHandler.write_error lib) (λ s k. delete_user-IsValid _ s k)
                λ _. responds-Serves Holds (write_header 204))
        x h

  found-IsValid :
      (fresh : Uuid) (now : Time) (x : Exchange)
      → HoldsClear x.session
      → Holds (WorkspaceHandler.create_workspace lib config r fresh now x).1.session
  unfolding WorkspaceHandler.create_workspace
  found-IsValid fresh now x h =
      served-end {m = WorkspaceHandler.create_workspace lib config r fresh now}
        (actor_first lib config r clear_start λ actor_id.
          check-IsValid lib config r clear_start
            (read_json lib.decode_workspace lib.decode_nothing r.body)
            (λ e. http_error ("invalid request body: " <> e) 400)
            λ request.
              act-IsValid lib config r clear_start
                (Workspaces.create_workspace fresh now
                  (record { name = request.name; actor_id = actor_id }))
                WorkspaceHandler.write_error (λ s k. create_workspace-IsValid _ _ _ s k.0 k.1)
                λ y. sends-Serves Holds lib 201 (workspace y) WorkspaceHandler.write_failed)
        x h

  join-IsValid :
      (now : Time) (x : Exchange)
      → Holds x.session
      → Holds (WorkspaceHandler.add_workspace_member lib config r now x).1.session
  unfolding WorkspaceHandler.add_workspace_member
  join-IsValid now x h =
      served-end {m = WorkspaceHandler.add_workspace_member lib config r now}
        (actor_first lib config r valid_start λ actor_id.
          path-IsValid lib config r valid_start "workspace_id" λ workspace_id.
            path-IsValid lib config r valid_start "user_id" λ user_id.
              act-IsValid lib config r valid_start
                (Workspaces.add_workspace_member now
                  (record { workspace_id = workspace_id; user_id = user_id; actor_id = actor_id }))
                WorkspaceHandler.write_error (λ s k. add_workspace_member-IsValid _ _ s k)
                λ y. sends-Serves Holds lib 201 (member y) WorkspaceHandler.write_failed)
        x h

  leave-IsValid :
      (x : Exchange)
      → Holds x.session
      → Holds (WorkspaceHandler.remove_workspace_member lib config r x).1.session
  unfolding WorkspaceHandler.remove_workspace_member
  leave-IsValid x h =
      served-end {m = WorkspaceHandler.remove_workspace_member lib config r}
        (actor_first lib config r valid_start λ actor_id.
          path-IsValid lib config r valid_start "workspace_id" λ workspace_id.
            path-IsValid lib config r valid_start "user_id" λ user_id.
              act-IsValid lib config r valid_start
                (Workspaces.remove_workspace_member
                  (record { workspace_id = workspace_id; user_id = user_id; actor_id = actor_id }))
                WorkspaceHandler.write_error (λ s k. remove_workspace_member-IsValid _ s k)
                λ _. responds-Serves Holds (write_header 204))
        x h

  dissolve-IsValid :
      (x : Exchange)
      → Holds x.session
      → Holds (WorkspaceHandler.delete_workspace lib config r x).1.session
  unfolding WorkspaceHandler.delete_workspace
  dissolve-IsValid x h =
      served-end {m = WorkspaceHandler.delete_workspace lib config r}
        (actor_first lib config r valid_start λ actor_id.
          path-IsValid lib config r valid_start "workspace_id" λ workspace_id.
            act-IsValid lib config r valid_start
              (Workspaces.delete_workspace
                (record { workspace_id = workspace_id; actor_id = actor_id }))
              WorkspaceHandler.write_error (λ s k. delete_workspace-IsValid _ s k)
              λ _. responds-Serves Holds (write_header 204))
        x h

module _ (lib : Libraries) (config : JwtConfig) (env : Ambient) where
  handle-IsValid :
      (t : Target) (r : Request) (x : Exchange)
      → Holds x.session
      → (t ≡ create_workspace → IsClear x.session)
      → Holds (handle lib config env t r x).1.session
  unfolding handle healthz
  handle-IsValid create_user r x h c =
      register-IsValid lib config (limited r) env.first_id env.second_id env.now x h
  handle-IsValid delete_user r x h c = unregister-IsValid lib config r x h
  handle-IsValid create_workspace r x h c =
      found-IsValid lib config (limited r) env.first_id env.now x (h, c refl)
  handle-IsValid add_workspace_member r x h c = join-IsValid lib config r env.now x h
  handle-IsValid remove_workspace_member r x h c = leave-IsValid lib config r x h
  handle-IsValid delete_workspace r x h c = dissolve-IsValid lib config r x h
  handle-IsValid health r x h c = h
  handle-IsValid ready r x h c = rw (readyz-committed lib config env x) h
  handle-IsValid list_users r x h c = rw (list_users-unchanged lib config r x) h
  handle-IsValid get_user r x h c = rw (get_user-committed lib config r x) h
  handle-IsValid me r x h c = rw (me-committed lib config r x) h
  handle-IsValid get_workspace r x h c = rw (get_workspace-committed lib config r x) h

  -- From valid tables, any request whatever, whatever befalls the driver, leaves valid tables,
  -- provided that, where the request is routed to CreateWorkspace, no driver call fails before it
  -- is sent: every workspace has exactly one owner, and every membership names a workspace and a
  -- user that exist and stands once.
  pub serve-IsValid :
      (method : String) (path : List String) (r : Request) (x : Exchange)
      → IsValid x.session.committed
      → ((bs : Bindings)
          → select method path routes false ≡ chosen create_workspace bs
          → IsClear x.session)
      → IsValid (serve lib config env method path r x).1.session.committed
  unfolding serve serve_choice
  serve-IsValid method path r x v c = go (select method path routes false) c
    where
      go :
          (t : Choice)
          → ((bs : Bindings) → t ≡ chosen create_workspace bs → IsClear x.session)
          → Holds (serve_choice lib config env t r x).1.session
      go (chosen t bs) d =
          handle-IsValid t (record r { path_value = value_of bs }) x v
            λ e. d bs (ap (λ u. chosen u bs) e)
      go wrong_method d = v
      go no_pattern d = v
