-- ===== src/Workspace/Service/Answers/Founding.antt =====
-- internal/workspace/service.go: the decision table of CreateWorkspace, against the method.
use waypoint_be.Base.{
  String, ◌≡◌, refl, ap, ◌∙◌, inl, inr, Bool, true, false, not, [], ◌∷◌, ◌++◌, arith, ◌==◌,
  if◌then◌else◌, ==_refl, Bool-cases, any, any-append, any-single, count-eq-zero_test,
  any-false_mono, is_empty, trim_space, Result, ok, err,
}
use waypoint_be.Store.{
  Uuid, zero_id, Time, WorkspaceRow, WorkspaceMemberRow, Store, DbError, foreign_key_violation,
  has_user, has_workspace,
}
use waypoint_be.Store.Workspaces
use waypoint_be.Session.{
  Action, ◌>>=◌, ◌>>◌, pure, on_error, attempt, exec, commit, is_foreign_key_violation, sentinel,
  wrap_driver, rollback_last,
}
use waypoint_be.Session.Healthy.{
  healthy, inside, Answers, exec-inside, exec-inside_err, Answers-bind, on_error-ok,
  with_tx-Answers,
}
use waypoint_be.Membership.{IsValid}
use waypoint_be.Workspace.{
  invalid_id, invalid_name, Error, CreateWorkspaceInput, Workspace, role_owner, workspace_from_rows,
}
use waypoint_be.Workspace.Service.{commit_tx, checked_owner, create_body, create_workspace}

-- The tables with one more workspace, of this owner.
abbrev pub with_workspace : Uuid → Time → String → Uuid → Store → Store
with_workspace fresh now name a st = record st {
  workspaces = st.workspaces ++ record { id = fresh; name = name; created_at = now } ∷ [];
  members =
      st.members
      ++ record { workspace_id = fresh; user_id = a; role = role_owner; joined_at = now } ∷ [];
}

-- The entry of a name and an actor that are well formed.
abbrev pub founding_entry :
    Uuid → Time → String → Uuid → Bool → Store → Result Error Workspace × Store
founding_entry fresh now name a known st =
    if not known
    then (
      err (
          wrap_driver "add workspace owner"
            (foreign_key_violation "workspace_members_user_id_fkey")),
      st,
    )
    else (
      ok (record {
        id = fresh;
        name = name;
        members = record { user_id = a; role = role_owner } ∷ [];
        created_at = now;
      }),
      with_workspace fresh now name a st,
    )

-- CreateWorkspace with a fresh id
pub create_table : Uuid → Time → CreateWorkspaceInput → Store → Result Error Workspace × Store
create_table fresh now input st =
    if is_empty (trim_space input.name)
    then (err (sentinel invalid_name), st)
    else if input.actor_id == zero_id
    then (err (sentinel invalid_id), st)
    else founding_entry fresh now (trim_space input.name) input.actor_id
        (has_user input.actor_id st) st

module _ (fresh : Uuid) (now : Time) (name : String) (st : Store) (v : IsValid st)
    (absent : has_workspace fresh st ≡ false) where
  -- The tables after the first insertion.
  abbrev with_row : Store
  with_row = record st {
    workspaces = st.workspaces ++ record { id = fresh; name = name; created_at = now } ∷ [];
  }

  row_there : has_workspace fresh with_row ≡ true
  row_there =
      any-append (λ r. r.id == fresh) st.workspaces _
      ∙ ground (
        arith,
        any-single (λ (r : WorkspaceRow). r.id == fresh)
            (record { id = fresh; name = name; created_at = now }),
        ==_refl fresh,
      )

  no_member : (a : Uuid) → any (Workspaces.is_member fresh a) st.members ≡ false
  no_member a =
      any-false_mono (Workspaces.is_member fresh a) (Workspaces.in_workspace fresh) st.members
        (λ r h. ground arith)
        (ground (
          arith,
          count-eq-zero_test (Workspaces.in_workspace fresh) st.members,
          v.workspace_exists fresh absent,
        ))

  no_owner : any (Workspaces.is_owner fresh) st.members ≡ false
  no_owner =
      any-false_mono (Workspaces.is_owner fresh) (Workspaces.in_workspace fresh) st.members
        (λ r h. ground arith)
        (ground (
          arith,
          count-eq-zero_test (Workspaces.in_workspace fresh) st.members,
          v.workspace_exists fresh absent,
        ))

  -- The two insertions.
  row_result :
      Workspaces.create_workspace (record { id = fresh; name = name }) now st
      ≡ ok (record { id = fresh; name = name; created_at = now }, with_row)
  unfolding Workspaces.create_workspace
  row_result = ground (arith, absent)

  module _ (a : Uuid) where
    abbrev owner_params : Workspaces.AddWorkspaceMemberParams
    owner_params = record { workspace_id = fresh; user_id = a; role = role_owner }

    owner_result : Workspaces.add_workspace_member owner_params now with_row ≡ (
        if not (has_user a st)
        then err (foreign_key_violation "workspace_members_user_id_fkey")
        else ok (
          record { workspace_id = fresh; user_id = a; role = role_owner; joined_at = now },
          with_workspace fresh now name a st,
        ))
    unfolding Workspaces.add_workspace_member
    owner_result = ground (arith, no_member a, no_owner, row_there)

    -- What follows the owner's insertion.
    abbrev concluding : Result DbError WorkspaceMemberRow → Action Error Workspace
    concluding added = do
      owner ← checked_owner added
      commit_tx
      pure (workspace_from_rows (record { id = fresh; name = name; created_at = now }) (owner ∷ []))

    concluding-Answers :
        (found : Bool)
        → has_user a st ≡ found
        → let (r, after) = founding_entry fresh now name a found st in
          Answers
            ((attempt (exec (Workspaces.add_workspace_member owner_params now)) >>= concluding)
              (inside st with_row))
            r
            after
    unfolding checked_owner commit_tx commit workspace_from_rows is_foreign_key_violation
    concluding-Answers true known =
        Answers-bind (attempt (exec (Workspaces.add_workspace_member owner_params now))) concluding
          (inside st with_row) _ _
          (ap (λ x. (ok x.0, x.1))
            (exec-inside (Workspaces.add_workspace_member owner_params now) st with_row
              (record { workspace_id = fresh; user_id = a; role = role_owner; joined_at = now })
              (with_workspace fresh now name a st) (owner_result ∙ ground (arith, known))))
          (record { result = refl; store = refl; quiet = refl })
    concluding-Answers false unknown =
        Answers-bind (attempt (exec (Workspaces.add_workspace_member owner_params now))) concluding
          (inside st with_row) _ _
          (ap (λ x. (ok x.0, x.1))
            (exec-inside_err (Workspaces.add_workspace_member owner_params now) st with_row
              (foreign_key_violation "workspace_members_user_id_fkey")
              (owner_result ∙ ground (arith, unknown))))
          (record { result = refl; store = refl; quiet = refl })

    create_body-Answers :
        let (r, after) = founding_entry fresh now name a (has_user a st) st in
        Answers (create_body fresh now name a (inside st st)) r after
    unfolding create_body
    create_body-Answers =
        Answers-bind
          (on_error (wrap_driver "create workspace")
            (exec (Workspaces.create_workspace (record { id = fresh; name = name }) now)))
          (λ row.
            attempt (
              exec (
                Workspaces.add_workspace_member
                  (record { workspace_id = row.id; user_id = a; role = role_owner }) now))
            >>= λ added. checked_owner added >>= λ owner.
                commit_tx >> pure (workspace_from_rows row (owner ∷ [])))
          (inside st st) _ _
          (on_error-ok (wrap_driver "create workspace")
            (exec (Workspaces.create_workspace (record { id = fresh; name = name }) now))
            (inside st st) _ _
            (exec-inside (Workspaces.create_workspace (record { id = fresh; name = name }) now) st
              st _ _ row_result))
          (concluding-Answers (has_user a st) refl)

-- With valid tables, a fresh id and every driver call served, CreateWorkspace answers and commits
-- what `create_table` says: a blank name, a zero actor and an actor who is no user are each
-- refused with their error and no change, and otherwise the workspace with the trimmed name and
-- its owner are added together and returned.
pub create_workspace-table :
    (fresh : Uuid) (now : Time) (input : CreateWorkspaceInput) (st : Store)
    → IsValid st
    → has_workspace fresh st ≡ false
    → let (r, after) = create_table fresh now input st in
      Answers (create_workspace fresh now input (healthy st)) r after
unfolding create_workspace create_table
create_workspace-table fresh now input st v absent =
    elim (Bool-cases (is_empty (trim_space input.name))) [
      | inl blank ↦ rw blank (record { result = refl; store = refl; quiet = refl })
      | inr named ↦ elim (Bool-cases (input.actor_id == zero_id)) [
        | inl zeroed ↦ rw (named, zeroed) (record { result = refl; store = refl; quiet = refl })
        | inr acting ↦
            rw (named, acting)
              (with_tx-Answers rollback_last "begin transaction" _ st
                (create_body-Answers fresh now (trim_space input.name) st v absent input.actor_id))
      ]
    ]
