-- ===== src/Workspace/Service/Foundation.antt =====
-- internal/workspace/service.go, Service.CreateWorkspace: what a call may leave in the committed
-- tables, whatever befalls its calls of the driver.
use waypoint_be.Base.{
  String, ◌≡◌, refl, ◌⊎◌, inl, inr, true, false, [], ◌∷◌, ◌++◌, arith, ◌==◌, is_empty, trim_space,
  Result, ok, err,
}
use waypoint_be.Store.{
  Uuid, zero_id, Time, WorkspaceRow, WorkspaceMemberRow, Store, DbError, has_user, has_workspace,
}
use waypoint_be.Store.Workspaces
use waypoint_be.Session.{
  Session, Action, attempt, is_foreign_key_violation, sentinel, wrap_driver, rollback_last,
}
use waypoint_be.Session.Rules.{
  Ends, returned, raised, Triple, pure-Triple, bind-Triple, reject-Triple, Kept, During,
  exec-Triple, statement-Triple, with_tx_from-Triple, ends_from-Kept, During-weaken,
}
use waypoint_be.Workspace.{
  invalid_id, invalid_name, CreateWorkspaceInput, role_owner, workspace_from_rows,
}
use waypoint_be.Workspace.Service.{zero_member, checked_owner, create_body, create_workspace}
use waypoint_be.Workspace.Service.Guards.{commit_tx-Triple}
use waypoint_be.Workspace.Service.Answers.Founding.{with_workspace}

-- The tables with the workspace alone.
abbrev pub with_lone_workspace : Uuid → Time → String → Store → Store
with_lone_workspace fresh now name st = record st {
  workspaces = st.workspaces ++ record { id = fresh; name = name; created_at = now } ∷ [];
}

-- What the creation of a workspace may do to the tables.
pub record Founded (fresh : Uuid) (now : Time) (input : CreateWorkspaceInput) (before after : Store)
    : Type 0 where
  pub named : is_empty (trim_space input.name) ≡ false
  pub new_id : has_workspace fresh before ≡ false
  pub change :
      (after ≡ with_lone_workspace fresh now (trim_space input.name) before)
      ⊎ ((has_user input.actor_id before ≡ true)
          × (after ≡ with_workspace fresh now (trim_space input.name) input.actor_id before))

module _ (fresh : Uuid) (now : Time) (input : CreateWorkspaceInput) (before : Store)
    (named : is_empty (trim_space input.name) ≡ false) where
  abbrev Only : Store → Type 0
  Only st = (st ≡ before) ⊎ Founded fresh now input before st

  -- The tables between the two insertions.
  abbrev Half : WorkspaceRow → Store → Type 0
  Half row st =
      (row.id ≡ fresh)
      × (has_workspace fresh before ≡ false)
      × (st ≡ with_lone_workspace fresh now (trim_space input.name) before)

  insert-Half :
      (st : Store)
      → st ≡ before
      → (row : WorkspaceRow) (st' : Store)
      → Workspaces.create_workspace (record { id = fresh; name = trim_space input.name }) now st
        ≡ ok (row, st')
      → Half row st'
  unfolding Workspaces.create_workspace
  insert-Half st e row st' h = ground arith

  insert-Founded :
      (row : WorkspaceRow) (st : Store)
      → Half row st
      → (m : WorkspaceMemberRow) (st' : Store)
      → Workspaces.add_workspace_member
          (record { workspace_id = row.id; user_id = input.actor_id; role = role_owner })
          now
          st
        ≡ ok (m, st')
      → Founded fresh now input before st'
  unfolding Workspaces.add_workspace_member
  insert-Founded row st k m st' h = record {
    named = named;
    new_id = k.1;
    change = inr (ground arith, ground arith);
  }

  lone-Founded : (row : WorkspaceRow) (st : Store) → Half row st → Founded fresh now input before st
  lone-Founded row st k = record { named = named; new_id = k.1; change = inl k.2 }

  -- An attempt leaves what a failure or an answer leaves.
  attempt-Triple :
      {A E : Type 0} {m : Action DbError A} {Now : Store → Type 0}
      → ((st : Store) → Now st → Founded fresh now input before st)
      → Triple
          (During Only Now)
          m
          (λ _. During Only (Founded fresh now input before))
          (λ _. During Only Now)
      → Triple
          (During Only Now)
          (attempt {E = E} m)
          (λ _. During Only (Founded fresh now input before))
          (λ _. Kept Only)
  attempt-Triple {A} {E} {m} {Now} f t = record { run = λ s h. go (m s) (t.run s h) }
    where
      go :
          (x : Result DbError A × Session)
          → Ends (λ _. During Only (Founded fresh now input before)) (λ _. During Only Now) x
          → Ends {E = E}
              (λ _. During Only (Founded fresh now input before))
              (λ _. Kept Only)
              (ok x.0, x.1)
      go _ (returned a s h) = returned _ s h
      go _ (raised e s h) = returned _ s (During-weaken Only _ _ f s h)

  owner-Triple :
      (r : Result DbError WorkspaceMemberRow)
      → Triple
          (During Only (Founded fresh now input before))
          (checked_owner r)
          (λ _. During Only (Founded fresh now input before))
          (λ _. Kept Only)
  unfolding checked_owner
  owner-Triple (ok m) = pure-Triple (λ _. During Only (Founded fresh now input before)) _ m
  owner-Triple (err e) =
      reject-Triple (is_foreign_key_violation e "workspace_members_user_id_fkey")
        (wrap_driver "add workspace owner" e) (λ s h. h.0)
        λ _. pure-Triple (λ _. During Only (Founded fresh now input before)) _ zero_member

  create_body-Only :
      Triple
        (During Only (λ st. st ≡ before))
        (create_body fresh now (trim_space input.name) input.actor_id)
        (λ _. Kept Only)
        (λ _. Kept Only)
  unfolding create_body
  create_body-Only =
      bind-Triple (λ row. During Only (Half row))
        (statement-Triple Only (Workspaces.create_workspace _ now) (λ st. st ≡ before) Half
          insert-Half (wrap_driver "create workspace"))
        λ row.
          bind-Triple (λ _. During Only (Founded fresh now input before))
            (attempt-Triple (lone-Founded row) (
              exec-Triple Only (Workspaces.add_workspace_member _ now) (Half row)
                (λ _. Founded fresh now input before) (insert-Founded row)))
            λ added.
              bind-Triple (λ _. During Only (Founded fresh now input before)) (owner-Triple added)
                λ owner.
                  bind-Triple (λ _. Kept Only)
                    (commit_tx-Triple Only (Founded fresh now input before) (λ st v. inr v))
                    λ _.
                      pure-Triple (λ _. Kept Only) (λ _. Kept Only)
                        (workspace_from_rows row (owner ∷ []))

-- On any session, whatever befalls the driver, CreateWorkspace leaves the committed tables as
-- they were, or adds one workspace under a new id, with the trimmed name, which is not empty, and
-- either the actor, who has a row, as its owner or no member at all; nothing else changes.
pub create_workspace-Founded :
    (fresh : Uuid) (now : Time) (input : CreateWorkspaceInput) (s : Session)
    → let after = (create_workspace fresh now input s).1.committed in
      (after ≡ s.committed) ⊎ Founded fresh now input s.committed after
unfolding create_workspace
create_workspace-Founded fresh now input s =
    ends_from-Kept (λ st. (st ≡ s.committed) ⊎ Founded fresh now input s.committed st)
      (λ t. t.committed ≡ s.committed)
      (reject-Triple (is_empty (trim_space input.name)) (sentinel invalid_name) (λ t h. inl h)
        λ named.
          reject-Triple (input.actor_id == zero_id) (sentinel invalid_id) (λ t h. inl h)
            λ _.
              with_tx_from-Triple _ (λ st. st ≡ s.committed) (λ st e. inl e) rollback_last _
                (create_body-Only fresh now input s.committed named))
      s refl
