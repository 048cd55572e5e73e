-- ===== src/Workspace/Handler/Access.antt =====
-- internal/workspace/handler.go: on whose behalf the handlers change memberships, and what they may
-- leave in the committed tables.
use waypoint_be.Base.{String, ◌≡◌, refl, ◌∙◌, ◌⊎◌, inl, inr, ok}
use waypoint_be.Store.{Uuid, Time, Store}
use waypoint_be.Session.{Session}
use waypoint_be.Http.{Request, workspace, member, JwtConfig, Libraries, path_id, read_json}
use waypoint_be.Http.Serving.{Exchange, Serving, ◌>>=◌}
use waypoint_be.Http.Rules.{
  Serves, bind-Serves, valid-Serves, weaken-Serves, served-end, At, acts-Serves, sends-Serves,
}
use waypoint_be.User.Handler.Access.{Actor, Same, Only, get_actor_id-Serves, moved}
use waypoint_be.Workspace.{CreateWorkspaceInput, AddWorkspaceMemberInput, CreateWorkspaceRequest}
use waypoint_be.Workspace.Service
use waypoint_be.Workspace.Service.Access.{Removed, Joined, Dissolved, add_workspace_member-Joined}
use waypoint_be.Workspace.Service.Foundation.{Founded, create_workspace-Founded}
use waypoint_be.Workspace.Service.Reading.{read_workspace-committed}
use waypoint_be.Workspace.Handler.{
  write_error, path_part, create_workspace, get_workspace, add_workspace_member,
}
use waypoint_be.User.Handler.{get_actor_id}

module _ (lib : Libraries) (config : JwtConfig) (r : Request) (before : Store) where
  -- What a creation over HTTP may do to the tables.
  pub record FoundedBy (fresh : Uuid) (now : Time) (after : Store) : Type 0 where
    pub actor_id : Uuid
    pub actor : Actor lib config r before actor_id
    pub request : CreateWorkspaceRequest
    pub body : read_json lib.decode_workspace lib.decode_nothing r.body ≡ ok request
    pub change :
        Founded fresh now (record { name = request.name; actor_id = actor_id }) before after

  -- What an addition over HTTP may do to the tables.
  pub record JoinedBy (now : Time) (after : Store) : Type 0 where
    pub actor_id : Uuid
    pub actor : Actor lib config r before actor_id
    pub workspace_id : Uuid
    pub workspace_path : path_id lib r "workspace_id" ≡ ok workspace_id
    pub user_id : Uuid
    pub user_path : path_id lib r "user_id" ≡ ok user_id
    pub change :
        Joined now
          (record { workspace_id = workspace_id; user_id = user_id; actor_id = actor_id })
          before
          after

  -- What a removal over HTTP may do to the tables.
  pub record RemovedBy (after : Store) : Type 0 where
    pub actor_id : Uuid
    pub actor : Actor lib config r before actor_id
    pub workspace_id : Uuid
    pub workspace_path : path_id lib r "workspace_id" ≡ ok workspace_id
    pub user_id : Uuid
    pub user_path : path_id lib r "user_id" ≡ ok user_id
    pub change :
        Removed
          (record { workspace_id = workspace_id; user_id = user_id; actor_id = actor_id })
          before
          after

  -- What the deletion of a workspace over HTTP may do to the tables.
  pub record DissolvedBy (after : Store) : Type 0 where
    pub actor_id : Uuid
    pub actor : Actor lib config r before actor_id
    pub workspace_id : Uuid
    pub workspace_path : path_id lib r "workspace_id" ≡ ok workspace_id
    pub change :
        Dissolved (record { workspace_id = workspace_id; actor_id = actor_id }) before after

  -- The actor, at the tables of the request's start.
  abbrev pub Acts : Uuid → Session → Type 0
  Acts id s = Same lib config r before s × Actor lib config r before id

  module _ {A : Type 0} (R : Session → Type 0)
      (stays : (s : Session) → s.committed ≡ before → R s) where
    -- The steps with which the handlers begin.
    pub actor_first :
        {rest : Uuid → Serving A}
        → ((id : Uuid) → Serves (At (Acts id)) (rest id) (λ _. At R) (At R))
        → Serves
            (At (Same lib config r before))
            (get_actor_id lib config r >>= rest)
            (λ _. At R)
            (At R)
    actor_first t =
        bind-Serves (λ id. At (Acts id))
          (weaken-Serves (λ y h. stays y.session h) (get_actor_id-Serves lib config r before)) t

    pub path_next :
        (P : Session → Type 0) (name : String) {rest : Uuid → Serving A}
        → ((s : Session) → P s → s.committed ≡ before)
        → ((id : Uuid)
            → Serves (At (λ s. P s × (path_id lib r name ≡ ok id))) (rest id) (λ _. At R) (At R))
        → Serves (At P) (path_part lib config r name >>= rest) (λ _. At R) (At R)
    path_next P name same t =
        bind-Serves (λ id. At (λ s. P s × (path_id lib r name ≡ ok id)))
          (valid-Serves (path_id lib r name) _ _ (λ e y h. stays y.session (same y.session h))
            (λ id e y h. (h, e)))
          t

module _ (lib : Libraries) (config : JwtConfig) (r : Request) where
  pub create_workspace-FoundedBy :
      (fresh : Uuid) (now : Time) (x : Exchange)
      → let after = (create_workspace lib config r fresh now x).1.session.committed in
        (after ≡ x.session.committed) ⊎ FoundedBy lib config r x.session.committed fresh now after
  unfolding create_workspace
  create_workspace-FoundedBy fresh now x =
      let before : Store = x.session.committed in
      let R : Session → Type 0 =
        Only lib config r before (FoundedBy lib config r before fresh now) in
      served-end
        (actor_first lib config r before R (λ s e. inl e)
          λ actor_id.
            bind-Serves
              (λ request. At (λ s.
                Acts lib config r before actor_id s
                × (read_json lib.decode_workspace lib.decode_nothing r.body ≡ ok request)))
              (valid-Serves (read_json lib.decode_workspace lib.decode_nothing r.body) _ _
                (λ e y h. inl h.0) (λ request e y h. (h, e)))
              λ request.
                let input : CreateWorkspaceInput = record {
                  name = request.name;
                  actor_id = actor_id;
                } in
                bind-Serves (λ _. At R)
                  (acts-Serves _ R (Service.create_workspace fresh now input) write_error (λ s h.
                    elim (moved lib config r before (Founded fresh now input) s.committed _ h.0.0
                      (create_workspace-Founded fresh now input s)) [
                        | inl e ↦ inl e
                        | inr c ↦ inr (record {
                          actor_id = actor_id;
                          actor = h.0.1;
                          request = request;
                          body = h.1;
                          change = c;
                        })
                      ]))
                  λ y. sends-Serves R lib 201 (workspace y) _)
        x refl

  pub add_workspace_member-JoinedBy :
      (now : Time) (x : Exchange)
      → let after = (add_workspace_member lib config r now x).1.session.committed in
        (after ≡ x.session.committed) ⊎ JoinedBy lib config r x.session.committed now after
  unfolding add_workspace_member
  add_workspace_member-JoinedBy now x =
      let before : Store = x.session.committed in
      let R : Session → Type 0 = Only lib config r before (JoinedBy lib config r before now) in
      served-end
        (actor_first lib config r before R (λ s e. inl e)
          λ actor_id.
            path_next lib config r before R (λ s e. inl e) _ "workspace_id" (λ s h. h.0)
              λ workspace_id.
                path_next lib config r before R (λ s e. inl e) _ "user_id" (λ s h. h.0.0)
                  λ user_id.
                    let input : AddWorkspaceMemberInput = record {
                      workspace_id = workspace_id;
                      user_id = user_id;
                      actor_id = actor_id;
                    } in
                    bind-Serves (λ _. At R)
                      (acts-Serves _ R (Service.add_workspace_member now input) write_error (λ s h.
                        elim (moved lib config r before (Joined now input) s.committed _ h.0.0.0
                          (add_workspace_member-Joined now input s)) [
                            | inl e ↦ inl e
                            | inr c ↦ inr (record {
                              actor_id = actor_id;
                              actor = h.0.0.1;
                              workspace_id = workspace_id;
                              workspace_path = h.0.1;
                              user_id = user_id;
                              user_path = h.1;
                              change = c;
                            })
                          ]))
                      λ y. sends-Serves R lib 201 (member y) _)
        x refl

  pub get_workspace-committed :
      (x : Exchange) → (get_workspace lib config r x).1.session.committed ≡ x.session.committed
  unfolding get_workspace
  get_workspace-committed x =
      let before : Store = x.session.committed in
      let R : Session → Type 0 = Same lib config r before in
      served-end
        (actor_first lib config r before R (λ s e. e)
          λ actor_id.
            path_next lib config r before R (λ s e. e) _ "workspace_id" (λ s h. h.0)
              λ workspace_id.
                bind-Serves (λ _. At R)
                  (acts-Serves _ R
                    (Service.read_workspace
                      (record { workspace_id = workspace_id; actor_id = actor_id }))
                    write_error (λ s h. read_workspace-committed _ s ∙ h.0.0))
                  λ y. sends-Serves R lib 200 (workspace y) _)
        x refl
