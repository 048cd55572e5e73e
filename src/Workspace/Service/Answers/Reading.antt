-- ===== src/Workspace/Service/Answers/Reading.antt =====
-- internal/workspace/service.go: the decision table of ReadWorkspace, against the method.
use waypoint_be.Base.{
  ◌≡◌, refl, ◌∙◌, inl, inr, not, ◌||◌, none, some, List, map, arith, ◌==◌, if◌then◌else◌,
  Option-cases, filter, any, find?, order_by, any-filter, any-order_by, ok, err,
}
use waypoint_be.Store.{Uuid, zero_id, WorkspaceRow, WorkspaceMemberRow, Store, DbError}
use waypoint_be.Store.Workspaces
use waypoint_be.Session.{
  Action, ◌>>=◌, ◌>>◌, pure, reject_if, on_error, exec, sentinel, wrap_driver, rollback_last,
}
use waypoint_be.Session.Healthy.{
  healthy, inside, exec-inside, Answers-bind, on_error-ok, with_tx-Answers,
}
use waypoint_be.Workspace.{
  forbidden, workspace_not_found, invalid_id, Error, ReadWorkspaceInput, Workspace, summary,
  workspace_from_rows,
}
use waypoint_be.Workspace.Service.{commit_tx, lock_workspace, read_body, read_workspace}
use waypoint_be.Workspace.Service.Answers.{
  is_member_of, Entry, Fits, Fits-entry, lock-found, lock-missing, raised-Fits, reject-Fits,
  commit_tx-inside,
}

-- The rows of the members in the order of the answer.
abbrev pub listed : Uuid → Store → List WorkspaceMemberRow
listed w st = order_by (λ r. r.user_id) (filter (Workspaces.in_workspace w) st.members)

-- ReadWorkspace
pub read_table : ReadWorkspaceInput → Store → Entry Workspace
read_table input st =
    if input.workspace_id == zero_id || input.actor_id == zero_id then (err invalid_id, st) else (
      elim (find? (λ r. r.id == input.workspace_id) st.workspaces) [
        | none ↦ err workspace_not_found
        | some row ↦
            if is_member_of input.actor_id input.workspace_id st
            then ok (record {
              id = row.id;
              name = row.name;
              members = map summary (listed input.workspace_id st);
              created_at = row.created_at;
            })
            else err forbidden
      ],
      st,
    )

listing-inside :
    (w : Uuid) (st : Store) (f : DbError → Error)
    → on_error f (exec (Workspaces.list_workspace_members w)) (inside st st)
      ≡ (ok (listed w st), inside st st)
unfolding Workspaces.list_workspace_members
listing-inside w st f =
    on_error-ok f (exec (Workspaces.list_workspace_members w)) (inside st st) _ _
      (exec-inside (Workspaces.list_workspace_members w) st st _ _ refl)

-- The loop over the members finds the actor where the actor is a member.
among_listed :
    (w a : Uuid) (st : Store) → any (λ m. m.user_id == a) (listed w st) ≡ is_member_of a w st
among_listed w a st =
    any-order_by (λ m. m.user_id == a) (λ r. r.user_id)
      (filter (Workspaces.in_workspace w) st.members)
    ∙ any-filter (λ m. m.user_id == a) (Workspaces.in_workspace w) st.members

-- What follows the lock.
abbrev listing : Uuid → Uuid → WorkspaceRow → Action Error Workspace
listing w a row = do
  members ←
      on_error (wrap_driver "list workspace members") (exec (Workspaces.list_workspace_members w))
  reject_if (not (any (λ m. m.user_id == a) members)) (sentinel forbidden)
  commit_tx
  pure (workspace_from_rows row members)

listing-Fits :
    (w a : Uuid) (st : Store) (row : WorkspaceRow)
    → Fits (listing w a row (inside st st)) (
        if not (any (λ m. m.user_id == a) (listed w st))
        then (err forbidden, st)
        else (ok (workspace_from_rows row (listed w st)), st))
listing-Fits w a st row =
    Answers-bind
      (on_error (wrap_driver "list workspace members") (exec (Workspaces.list_workspace_members w)))
      (λ members.
        reject_if (not (any (λ m. m.user_id == a) members)) (sentinel forbidden)
        >> (commit_tx >> pure (workspace_from_rows row members)))
      (inside st st) (listed w st) (inside st st) (listing-inside w st _)
      (reject-Fits (not (any (λ m. m.user_id == a) (listed w st))) forbidden _ (inside st st) _ refl
        λ _.
          Answers-bind commit_tx _ (inside st st) tt _ (commit_tx-inside st st)
            (record { result = refl; store = refl; quiet = refl }))

read_body-Fits :
    (input : ReadWorkspaceInput) (st : Store)
    → Fits (read_body input (inside st st)) (
      elim (find? (λ r. r.id == input.workspace_id) st.workspaces) [
        | none ↦ err workspace_not_found
        | some row ↦
            if is_member_of input.actor_id input.workspace_id st
            then ok (record {
              id = row.id;
              name = row.name;
              members = map summary (listed input.workspace_id st);
              created_at = row.created_at;
            })
            else err forbidden
      ],
      st,
    )
unfolding read_body workspace_from_rows
read_body-Fits input st =
    let w : Uuid = input.workspace_id in
    let a : Uuid = input.actor_id in
    elim (Option-cases (find? (λ r. r.id == w) st.workspaces)) [
      | inl e ↦ rw e (
          raised-Fits (lock_workspace w) (listing w a) (inside st st) workspace_not_found st st
            (lock-missing st w e))
      | inr (row, e) ↦ rw e (
          Answers-bind (lock_workspace w) (listing w a) (inside st st) row (inside st st)
            (lock-found st w row e)
            (Fits-entry _ _ (ground (arith, among_listed w a st)) (listing-Fits w a st row)))
    ]

-- With every driver call served, ReadWorkspace changes nothing and answers what `read_table`
-- says: a zero id, an unknown workspace and an actor who is no member are each refused with their
-- error, and a member gets the workspace with its members.
pub read_workspace-table :
    (input : ReadWorkspaceInput) (st : Store)
    → Fits (read_workspace input (healthy st)) (read_table input st)
unfolding read_workspace read_table
read_workspace-table input st = Fits-entry _ _ (ground arith) (
    reject-Fits (input.workspace_id == zero_id || input.actor_id == zero_id) invalid_id _
      (healthy st) _ refl
      λ _.
        with_tx-Answers rollback_last "begin workspace transaction" (read_body input) st
          (read_body-Fits input st))
