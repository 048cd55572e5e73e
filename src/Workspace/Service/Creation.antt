-- ===== src/Workspace/Service/Creation.antt =====
-- internal/workspace/service.go, Service.CreateWorkspace and the owner of the new workspace. The
-- method returns only one of the errors of the owner's insertion; after the others it goes on to
-- the commit.
use waypoint_be.Base.{
  String, ◌≡◌, refl, ◌∙◌, ◌≢◌, true, false, [], ◌∷◌, ◌++◌, arith, ◌==◌, ==_refl, any, count_mono,
  any-append, any-single, is_empty, trim_space, Result, ok, err,
}
use waypoint_be.Store.{
  Uuid, zero_id, Time, WorkspaceRow, WorkspaceMemberRow, Store, DbError, no_rows, has_workspace,
}
use waypoint_be.Store.Workspaces
use waypoint_be.Session.{
  served, unsent, closed_tx, Session, Action, attempt, exec, commit, rollback_unless_closed,
  is_foreign_key_violation, sentinel, wrap_driver, rollback_last, with_tx,
}
use waypoint_be.Session.Rules.{
  Ends, returned, raised, Triple, pure-Triple, bind-Triple, reject-Triple, Kept, During,
  ends_from-Kept,
}
use waypoint_be.Session.Clear.{
  IsClear, Shut, write-Triple, with_tx-IsClear-Triple, statement-IsClear-Triple,
}
use waypoint_be.Membership.{owners, IsValid, IsValidBut}
use waypoint_be.Membership.Insert.{create_workspace-IsValidBut, add_owner-IsValid}
use waypoint_be.Workspace.{invalid_id, invalid_name, CreateWorkspaceInput, workspace_from_rows}
use waypoint_be.Workspace.Service.{create_workspace, create_body, checked_owner, zero_member}
use waypoint_be.Workspace.Service.Guards.{commit_tx-Triple}

add_workspace_member-reads_nothing :
    (arg : Workspaces.AddWorkspaceMemberParams) (now : Time) (st : Store)
    → Workspaces.add_workspace_member arg now st ≢ err no_rows
unfolding Workspaces.add_workspace_member
add_workspace_member-reads_nothing arg now st h = ground arith

-- After the owner's insertion: the contract holds in an open transaction.
abbrev Settled : Session → Type 0
Settled s = During IsValid IsValid s

attempt-Triple :
    {A E : Type 0} {P : Session → Type 0} {m : Action DbError A}
    → Triple P m (λ _. Settled) (λ _. Shut IsValid)
    → Triple P (attempt {E = E} m) (λ _. Settled) (λ _. Kept IsValid)
attempt-Triple {A} {E} {P} {m} t = record { run = λ s h. go (m s) (t.run s h) }
  where
    go :
        (x : Result DbError A × Session)
        → Ends (λ _. Settled) (λ _. Shut IsValid) x
        → Ends {E = E} (λ _. Settled) (λ _. Kept IsValid) (ok x.0, x.1)
    go _ (returned a s h) = returned _ s h
    go _ (raised e s h) = returned _ s (h.0, λ o. absurd (h.1 o))

checked_owner-Triple :
    (r : Result DbError WorkspaceMemberRow)
    → Triple Settled (checked_owner r) (λ _. Settled) (λ _. Kept IsValid)
unfolding checked_owner
checked_owner-Triple (ok m) = pure-Triple (λ _. Settled) _ m
checked_owner-Triple (err e) =
    reject-Triple (is_foreign_key_violation e "workspace_members_user_id_fkey")
      (wrap_driver "add workspace owner" e) (λ s h. h.0)
      λ _. pure-Triple (λ _. Settled) _ zero_member

create_body-Keeps :
    (fresh : Uuid) (now : Time) (name : String) (actor_id : Uuid)
    → Triple
        (λ s. During IsValid IsValid s × IsClear s)
        (create_body fresh now name actor_id)
        (λ _. Kept IsValid)
        (λ _. Kept IsValid)
unfolding create_body
create_body-Keeps fresh now name actor_id =
    bind-Triple _
      (statement-IsClear-Triple IsValid (Workspaces.create_workspace _ now) IsValid
        (λ row st. IsValidBut row.id st)
        (λ st v row st' h. create_workspace-IsValidBut _ now st row st' v h)
        (wrap_driver "create workspace"))
      λ row.
        bind-Triple (λ _. Settled)
          (attempt-Triple (
            write-Triple IsValid (Workspaces.add_workspace_member _ now) (IsValidBut row.id)
              (λ _. IsValid) (λ st v m st' h. add_owner-IsValid row.id actor_id now st m st' v h)
              (add_workspace_member-reads_nothing _ now)))
          λ added.
            bind-Triple (λ _. Settled) (checked_owner-Triple added)
              λ owner.
                bind-Triple (λ _. Kept IsValid) (commit_tx-Triple IsValid IsValid (λ st v. v))
                  λ _.
                    pure-Triple (λ _. Kept IsValid) (λ _. Kept IsValid)
                      (workspace_from_rows row (owner ∷ []))

create_workspace-Keeps :
    (fresh : Uuid) (now : Time) (input : CreateWorkspaceInput)
    → Triple
        (λ s. Kept IsValid s × IsClear s)
        (create_workspace fresh now input)
        (λ _. Kept IsValid)
        (λ _. Kept IsValid)
unfolding create_workspace
create_workspace-Keeps fresh now input =
    reject-Triple (is_empty (trim_space input.name)) (sentinel invalid_name) (λ s h. h.0)
      λ _.
        reject-Triple (input.actor_id == zero_id) (sentinel invalid_id) (λ s h. h.0)
          λ _.
            with_tx-IsClear-Triple IsValid rollback_last "begin transaction"
              (create_body-Keeps fresh now (trim_space input.name) input.actor_id)

-- CreateWorkspace keeps valid tables valid on any session in which no driver call fails before it
-- is sent.
pub create_workspace-IsValid :
    (fresh : Uuid) (now : Time) (input : CreateWorkspaceInput) (s : Session)
    → IsValid s.committed
    → IsClear s
    → IsValid (create_workspace fresh now input s).1.committed
create_workspace-IsValid fresh now input s v c =
    ends_from-Kept IsValid (λ s. Kept IsValid s × IsClear s)
      (create_workspace-Keeps fresh now input) s (v, c)

-- A session whose third call, the owner's insertion, fails before it is sent.
abbrev pub unsent_third : Store → Session
unsent_third st = record {
  committed = st;
  current = st;
  status = closed_tx;
  faults = served ∷ served ∷ unsent ∷ [];
}

has_workspace-last :
    (st : Store) (row : WorkspaceRow) → any (λ r. r.id == row.id) (st.workspaces ++ row ∷ []) ≡ true
has_workspace-last st row =
    any-append (λ r. r.id == row.id) st.workspaces (row ∷ [])
    ∙ ground (arith, any-single (λ r. r.id == row.id) row, ==_refl row.id)

-- From valid tables, with a name that is not blank, a non-zero actor and a fresh id, where only
-- the insertion of the owner fails and does so before it is sent, CreateWorkspace commits a
-- workspace without an owner and returns it with a zero member.
pub create_workspace-ownerless :
    (fresh : Uuid) (now : Time) (input : CreateWorkspaceInput) (st : Store)
    → IsValid st
    → is_empty (trim_space input.name) ≡ false
    → (input.actor_id == zero_id) ≡ false
    → has_workspace fresh st ≡ false
    → let (r, s) = create_workspace fresh now input (unsent_third st) in
      (r
        ≡ ok (record {
          id = fresh;
          name = trim_space input.name;
          members = record { user_id = zero_id; role = "" } ∷ [];
          created_at = now;
        }))
      × (has_workspace fresh s.committed ≡ true)
      × (owners fresh s.committed ≡ 0)
unfolding create_workspace with_tx exec commit rollback_unless_closed workspace_from_rows
    Workspaces.create_workspace is_foreign_key_violation
create_workspace-ownerless fresh now input st v name actor absent =
    let e =
      count_mono (Workspaces.is_owner fresh) (Workspaces.in_workspace fresh) st.members
        (λ r h. ground arith) in
    let z = v.workspace_exists fresh absent in
    rw (name, actor, absent)
      (
        refl,
        has_workspace-last st
            (record { id = fresh; name = trim_space input.name; created_at = now }),
        omega (arith, e, z),
      )
