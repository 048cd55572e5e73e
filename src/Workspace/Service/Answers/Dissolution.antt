-- ===== src/Workspace/Service/Answers/Dissolution.antt =====
-- internal/workspace/service.go: the decision table of DeleteWorkspace, against the method, with
-- the messages that go with the workspace's channels.
use waypoint_be.Base.{
  ◌≡◌, refl, sym, ap, ◌∙◌, Bool, true, not, ◌&&◌, ◌||◌, List, ◌==◌, if◌then◌else◌, filter, any,
  count, count-eq-zero_test, ok, err,
}
use waypoint_be.Store.{Uuid, zero_id, ChannelMessageRow, Store, DbError, has_workspace}
use waypoint_be.Store.Workspaces
use waypoint_be.Session.{
  ◌>>=◌, ◌>>◌, reject_if, on_error, exec, sentinel, wrap_driver, rollback_last,
}
use waypoint_be.Session.Healthy.{
  healthy, inside, exec-inside, Answers-bind, on_error-ok, with_tx-Answers,
}
use waypoint_be.Membership.{IsValid}
use waypoint_be.Workspace.{workspace_not_found, invalid_id, Error, DeleteWorkspaceInput}
use waypoint_be.Workspace.Service.{commit_tx, delete_body, delete_workspace}
use waypoint_be.Workspace.Service.Answers.{
  Entry, Fits, Fits-entry, owners_entry, owner_first-Fits, reject-Fits, commit_tx-inside,
}
use waypoint_be.Store.Threads.{delete_messages}
use waypoint_be.Threads.{IsCounted}
use waypoint_be.Threads.Change.{delete_messages-IsCounted}

-- The message stands in a channel of the workspace.
abbrev pub in_channel_of : Uuid → Store → ChannelMessageRow → Bool
in_channel_of w st m = any (λ c. c.id == m.channel_id && c.workspace_id == w) st.channels

-- The tables without the workspace and what it contains, with the messages `left`.
abbrev pub without_workspace : Uuid → List ChannelMessageRow → Store → Store
without_workspace w left st = record st {
  workspaces = filter (λ r. not (r.id == w)) st.workspaces;
  members = filter (λ r. not (r.workspace_id == w)) st.members;
  channels = filter (λ r. not (r.workspace_id == w)) st.channels;
  channel_members = filter (λ r. not (r.workspace_id == w)) st.channel_members;
  channel_messages = left;
}

-- DeleteWorkspace
pub delete_table : DeleteWorkspaceInput → List ChannelMessageRow → Store → Entry (Unit {0})
delete_table input left st =
    if input.workspace_id == zero_id || input.actor_id == zero_id
    then (err invalid_id, st)
    else owners_entry input.workspace_id input.actor_id st
        (ok tt, without_workspace input.workspace_id left st)

module _ (w : Uuid) (st : Store) (left : List ChannelMessageRow)
    (gone : delete_messages (in_channel_of w st) st.channel_messages ≡ ok left) where
  dissolution-inside :
      (f : DbError → Error)
      → on_error f (exec (Workspaces.delete_workspace w)) (inside st st)
        ≡ (ok (count (λ r. r.id == w) st.workspaces), inside st (without_workspace w left st))
  unfolding Workspaces.delete_workspace Workspaces.delete_workspaces
  dissolution-inside f =
      on_error-ok f (exec (Workspaces.delete_workspace w)) (inside st st) _ _
        (exec-inside (Workspaces.delete_workspace w) st st _ _ (rw gone refl))

  dissolving-Fits :
      has_workspace w st ≡ true
      → Fits
          ((on_error (wrap_driver "delete workspace") (exec (Workspaces.delete_workspace w))
              >>= λ removed. reject_if (removed == 0) (sentinel workspace_not_found) >> commit_tx)
            (inside st st))
          (ok tt, without_workspace w left st)
  dissolving-Fits there =
      Answers-bind
        (on_error (wrap_driver "delete workspace") (exec (Workspaces.delete_workspace w)))
        (λ removed. reject_if (removed == 0) (sentinel workspace_not_found) >> commit_tx)
        (inside st st) (count (λ r. r.id == w) st.workspaces)
        (inside st (without_workspace w left st)) (dissolution-inside _)
        (Fits-entry _ _
          (ap
            (λ (b : Bool).
              if b then (err workspace_not_found, st) else (ok tt, without_workspace w left st))
            (sym (count-eq-zero_test (λ r. r.id == w) st.workspaces ∙ ap not there)))
          (reject-Fits (count (λ r. r.id == w) st.workspaces == 0) workspace_not_found commit_tx
            (inside st (without_workspace w left st)) _ refl
            λ _.
              rw (commit_tx-inside st (without_workspace w left st))
                (record { result = refl; store = refl; quiet = refl })))

-- With valid tables, counted threads and every driver call served, DeleteWorkspace answers and
-- commits what `delete_table` says: a zero id, an unknown workspace and an actor who is no owner
-- are each refused with their error and no change, and otherwise the workspace is gone with its
-- members, channels and channel memberships; the messages of its channels can then always be
-- deleted with their replies, and the threads that are left are counted.
pub delete_workspace-table :
    (input : DeleteWorkspaceInput) (st : Store)
    → IsValid st
    → IsCounted st.channel_messages
    → (left : List ChannelMessageRow) × IsCounted left
      × (delete_messages (in_channel_of input.workspace_id st) st.channel_messages ≡ ok left)
      × Fits (delete_workspace input (healthy st)) (delete_table input left st)
unfolding delete_workspace delete_body delete_table
delete_workspace-table input st v c =
    let (left, gone, counted) =
      delete_messages-IsCounted (in_channel_of input.workspace_id st) st.channel_messages c in
    (
      left,
      counted,
      gone,
      reject-Fits (input.workspace_id == zero_id || input.actor_id == zero_id) invalid_id _
          (healthy st) _ refl
          λ _. with_tx-Answers rollback_last "begin transaction" (delete_body input) st (
            owner_first-Fits st input.workspace_id input.actor_id
              (λ id.
                on_error (wrap_driver "delete workspace") (exec (Workspaces.delete_workspace id))
                >>= λ removed. reject_if (removed == 0) (sentinel workspace_not_found) >> commit_tx)
              _ v λ there owner. dissolving-Fits input.workspace_id st left gone there),
    )
