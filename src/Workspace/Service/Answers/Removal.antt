-- ===== src/Workspace/Service/Answers/Removal.antt =====
-- internal/workspace/service.go: the decision table of RemoveWorkspaceMember, against the method.
use waypoint_be.Base.{
  ◌≡◌, refl, sym, ap, Bool, not, ◌&&◌, ◌||◌, ◌==◌, if◌then◌else◌, filter, count, count-eq-zero_test,
  ok, err,
}
use waypoint_be.Store.{Uuid, zero_id, Store, DbError}
use waypoint_be.Store.Workspaces
use waypoint_be.Session.{
  ◌>>=◌, ◌>>◌, reject_if, on_error, exec, sentinel, wrap_driver, rollback_first,
}
use waypoint_be.Session.Healthy.{
  healthy, inside, exec-inside, Answers-bind, on_error-ok, with_tx-Answers,
}
use waypoint_be.Membership.{IsValid}
use waypoint_be.Workspace.{
  workspace_member_not_found, invalid_id, owner_removal, Error, RemoveWorkspaceMemberInput,
}
use waypoint_be.Workspace.Service.{remove_workspace_member, commit_tx, remove_body}
use waypoint_be.Workspace.Service.Answers.{
  is_member_of, Entry, Fits, Fits-entry, owners_entry, owner_first-Fits, reject-Fits,
  commit_tx-inside,
}

-- The tables without a membership and the channel memberships that hang on it.
abbrev pub without_member : Uuid → Uuid → Store → Store
without_member w u st = record st {
  members = filter (λ r. not (Workspaces.is_member w u r)) st.members;
  channel_members = filter (λ r. not (r.workspace_id == w && r.user_id == u)) st.channel_members;
}

-- RemoveWorkspaceMember
pub remove_table : RemoveWorkspaceMemberInput → Store → Entry (Unit {0})
remove_table input st =
    if input.workspace_id == zero_id || input.actor_id == zero_id || input.user_id == zero_id
    then (err invalid_id, st)
    else owners_entry input.workspace_id input.actor_id st (
        if input.user_id == input.actor_id
        then (err owner_removal, st)
        else if not (is_member_of input.user_id input.workspace_id st)
        then (err workspace_member_not_found, st)
        else (ok tt, without_member input.workspace_id input.user_id st))

removal-inside :
    (w u : Uuid) (st : Store) (f : DbError → Error)
    → on_error f (exec (Workspaces.remove_workspace_member w u)) (inside st st)
      ≡ (ok (count (Workspaces.is_member w u) st.members), inside st (without_member w u st))
unfolding Workspaces.remove_workspace_member
removal-inside w u st f =
    on_error-ok f (exec (Workspaces.remove_workspace_member w u)) (inside st st) _ _
      (exec-inside (Workspaces.remove_workspace_member w u) st st _ _ refl)

remove_body-Fits :
    (input : RemoveWorkspaceMemberInput) (st : Store)
    → IsValid st
    → Fits (remove_body input (inside st st)) (
        owners_entry input.workspace_id input.actor_id st (
          if input.user_id == input.actor_id
          then (err owner_removal, st)
          else if not (is_member_of input.user_id input.workspace_id st)
          then (err workspace_member_not_found, st)
          else (ok tt, without_member input.workspace_id input.user_id st)))
unfolding remove_body
remove_body-Fits input st v =
    let w : Uuid = input.workspace_id in
    let u : Uuid = input.user_id in
    owner_first-Fits st w input.actor_id
      (λ id.
        reject_if (u == input.actor_id) (sentinel owner_removal)
        >> (on_error (wrap_driver "remove workspace member")
              (exec (Workspaces.remove_workspace_member id u))
            >>= λ removed.
                reject_if (removed == 0) (sentinel workspace_member_not_found) >> commit_tx))
      _ v
      λ there owner. reject-Fits (u == input.actor_id) owner_removal _ (inside st st) _ refl λ _.
        Answers-bind
          (on_error (wrap_driver "remove workspace member")
            (exec (Workspaces.remove_workspace_member w u)))
          (λ removed. reject_if (removed == 0) (sentinel workspace_member_not_found) >> commit_tx)
          (inside st st) (count (Workspaces.is_member w u) st.members)
          (inside st (without_member w u st)) (removal-inside w u st _)
          (Fits-entry _ _
            (ap
              (λ (b : Bool).
                if b then (err workspace_member_not_found, st) else (ok tt, without_member w u st))
              (sym (count-eq-zero_test (Workspaces.is_member w u) st.members)))
            (reject-Fits (count (Workspaces.is_member w u) st.members == 0)
              workspace_member_not_found commit_tx (inside st (without_member w u st)) _ refl
              λ _.
                rw (commit_tx-inside st (without_member w u st))
                  (record { result = refl; store = refl; quiet = refl })))

-- With valid tables and every driver call served, RemoveWorkspaceMember answers and commits what
-- `remove_table` says: a zero id, an unknown workspace, an actor who is no owner, the owner's own
-- removal and a user who is no member are each refused with their error and no change, and
-- otherwise the membership is gone with its channel memberships.
pub remove_workspace_member-table :
    (input : RemoveWorkspaceMemberInput) (st : Store)
    → IsValid st
    → Fits (remove_workspace_member input (healthy st)) (remove_table input st)
unfolding remove_workspace_member remove_table
remove_workspace_member-table input st v =
    reject-Fits
      (input.workspace_id == zero_id || input.actor_id == zero_id || input.user_id == zero_id)
      invalid_id _ (healthy st) _ refl
      λ _.
        with_tx-Answers rollback_first "begin transaction" (remove_body input) st
          (remove_body-Fits input st v)
