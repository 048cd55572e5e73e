-- ===== src/Workspace/Service/Answers/Addition.antt =====
-- internal/workspace/service.go: the decision table of AddWorkspaceMember, against the method.
use waypoint_be.Base.{
  ◌≡◌, refl, inl, inr, true, not, ◌||◌, [], ◌∷◌, ◌++◌, arith, ◌==◌, if◌then◌else◌, Bool-cases, ok,
  err,
}
use waypoint_be.Store.{
  Uuid, zero_id, Time, WorkspaceMemberRow, Store, DbError, unique_violation, foreign_key_violation,
  has_user, has_workspace,
}
use waypoint_be.Store.Workspaces
use waypoint_be.Session.{
  Action, ◌>>=◌, ◌>>◌, pure, on_error, status_after, exec, is_unique_violation,
  is_foreign_key_violation, sentinel, rollback_last,
}
use waypoint_be.Session.Healthy.{
  healthy, inside, exec-inside, exec-inside_err, Answers-bind, Answers-raise, on_error-ok,
  on_error-err, with_tx-Answers,
}
use waypoint_be.Membership.{IsValid}
use waypoint_be.Workspace.{
  user_not_found, invalid_id, already_member, Error, AddWorkspaceMemberInput, WorkspaceMember,
  role_member, member_from_row,
}
use waypoint_be.Workspace.Service.{add_workspace_member, commit_tx, add_body, add_failure}
use waypoint_be.Workspace.Service.Answers.{
  is_member_of, Entry, Fits, owners_entry, owner_first-Fits, reject-Fits, commit_tx-inside,
}

-- The tables with one more membership.
abbrev pub with_member : Time → Uuid → Uuid → Store → Store
with_member now w u st = record st {
  members =
      st.members
      ++ record { workspace_id = w; user_id = u; role = role_member; joined_at = now } ∷ [];
}

-- AddWorkspaceMember
pub add_table : Time → AddWorkspaceMemberInput → Store → Entry WorkspaceMember
add_table now input st =
    if input.workspace_id == zero_id || input.actor_id == zero_id || input.user_id == zero_id
    then (err invalid_id, st)
    else owners_entry input.workspace_id input.actor_id st (
        if is_member_of input.user_id input.workspace_id st
        then (err already_member, st)
        else if not (has_user input.user_id st)
        then (err user_not_found, st)
        else (
          ok (record {
            workspace_id = input.workspace_id;
            user_id = input.user_id;
            role = role_member;
          }),
          with_member now input.workspace_id input.user_id st,
        ))

add_result :
    (now : Time) (w u : Uuid) (st : Store)
    → IsValid st
    → has_workspace w st ≡ true
    → Workspaces.add_workspace_member
        (record { workspace_id = w; user_id = u; role = role_member })
        now
        st
      ≡ (if is_member_of u w st
          then err (unique_violation "workspace_members_pkey")
          else if not (has_user u st)
          then err (foreign_key_violation "workspace_members_user_id_fkey")
          else ok (
            record { workspace_id = w; user_id = u; role = role_member; joined_at = now },
            with_member now w u st,
          ))
unfolding Workspaces.add_workspace_member
add_result now w u st v there = ground arith

abbrev joining : Time → Uuid → Uuid → WorkspaceMemberRow
joining now w u = record { workspace_id = w; user_id = u; role = role_member; joined_at = now }

-- The insertion into the tables, as the body sees it.
abbrev inserting : Time → Uuid → Uuid → Action Error WorkspaceMemberRow
inserting now w u = on_error add_failure (
    exec (
      Workspaces.add_workspace_member (record { workspace_id = w; user_id = u; role = role_member })
        now))

insertion-err :
    (now : Time) (w u : Uuid) (st : Store) (e : DbError)
    → Workspaces.add_workspace_member
        (record { workspace_id = w; user_id = u; role = role_member })
        now
        st
      ≡ err e
    → inserting now w u (inside st st)
      ≡ (err (add_failure e), record (inside st st) { status = status_after e })
insertion-err now w u st e h =
    on_error-err add_failure
      (exec (
        Workspaces.add_workspace_member
          (record { workspace_id = w; user_id = u; role = role_member }) now))
      (inside st st) _ e (exec-inside_err _ st st e h)

insertion-ok :
    (now : Time) (w u : Uuid) (st st' : Store) (m : WorkspaceMemberRow)
    → Workspaces.add_workspace_member
        (record { workspace_id = w; user_id = u; role = role_member })
        now
        st
      ≡ ok (m, st')
    → inserting now w u (inside st st) ≡ (ok m, inside st st')
insertion-ok now w u st st' m h =
    on_error-ok add_failure
      (exec (
        Workspaces.add_workspace_member
          (record { workspace_id = w; user_id = u; role = role_member }) now))
      (inside st st) _ m (exec-inside _ st st m st' h)

-- What follows the insertion.
abbrev committing : WorkspaceMemberRow → Action Error WorkspaceMember
committing m = commit_tx >> pure (member_from_row m)

inserting-Fits :
    (now : Time) (w u : Uuid) (st : Store)
    → IsValid st
    → has_workspace w st ≡ true
    → Fits ((inserting now w u >>= committing) (inside st st)) (
        if is_member_of u w st
        then (err already_member, st)
        else if not (has_user u st)
        then (err user_not_found, st)
        else (
          ok (record { workspace_id = w; user_id = u; role = role_member }),
          with_member now w u st,
        ))
unfolding add_failure is_unique_violation is_foreign_key_violation member_from_row
inserting-Fits now w u st v there = elim (Bool-cases (is_member_of u w st)) [
  | inl old ↦ rw old (
      Answers-raise (inserting now w u) committing (inside st st) (sentinel already_member) _
        (insertion-err now w u st (unique_violation "workspace_members_pkey")
          (rw (add_result now w u st v there, old) refl))
        refl refl)
  | inr new ↦ elim (Bool-cases (has_user u st)) [
    | inl known ↦
        rw (new, known)
          (Answers-bind (inserting now w u) committing (inside st st) (joining now w u)
            (inside st (with_member now w u st))
            (insertion-ok now w u st (with_member now w u st) (joining now w u)
              (rw (add_result now w u st v there, new, known) refl))
            (Answers-bind commit_tx _ _ tt _ (commit_tx-inside st (with_member now w u st))
              (record { result = refl; store = refl; quiet = refl })))
    | inr unknown ↦
        rw (new, unknown)
          (Answers-raise (inserting now w u) committing (inside st st) (sentinel user_not_found) _
            (insertion-err now w u st (foreign_key_violation "workspace_members_user_id_fkey")
              (rw (add_result now w u st v there, new, unknown) refl))
            refl refl)
  ]
]

-- With valid tables and every driver call served, AddWorkspaceMember answers and commits what
-- `add_table` says: a zero id, an unknown workspace, an actor who is no owner, a user who is a
-- member already and an unknown user are each refused with their error and no change, and
-- otherwise the membership is added and returned.
pub add_workspace_member-table :
    (now : Time) (input : AddWorkspaceMemberInput) (st : Store)
    → IsValid st
    → Fits (add_workspace_member now input (healthy st)) (add_table now input st)
unfolding add_workspace_member add_body add_table
add_workspace_member-table now input st v =
    reject-Fits
      (input.workspace_id == zero_id || input.actor_id == zero_id || input.user_id == zero_id)
      invalid_id _ (healthy st) _ refl
      λ _. with_tx-Answers rollback_last "begin transaction" (add_body now input) st (
        owner_first-Fits st input.workspace_id input.actor_id
          (λ id. inserting now id input.user_id >>= committing) _ v
          λ there owner. inserting-Fits now input.workspace_id input.user_id st v there)
