-- ===== src/App/Runs.antt =====
-- Sequences of calls, against the contract of the membership tables.
use waypoint_be.Base.{◌≡◌, refl, Bool, true, false, not, List, [], ◌∷◌, arith, any, count, all}
use waypoint_be.Store.{Time, Store}
use waypoint_be.Session.{Fault}
use waypoint_be.Session.Clear.{is_unsent}
use waypoint_be.Membership.{IsValid}
use waypoint_be.Workspace.Service.Invariant.{
  add_workspace_member-IsValid, remove_workspace_member-IsValid, delete_workspace-IsValid,
  read_workspace-IsValid,
}
use waypoint_be.Workspace.Service.Creation.{create_workspace-IsValid}
use waypoint_be.User.Service.Registration.{create_user-IsValid}
use waypoint_be.User.Service.Deletion.{delete_user-IsValid}
use waypoint_be.App.{
  Call, create_user, delete_user, create_workspace, read_workspace, add_workspace_member,
  remove_workspace_member, delete_workspace, Event, connect, perform, run, empty_store,
}

-- No driver call of the event fails before it is sent.
abbrev pub is_clear : Event → Bool
is_clear e = not (any is_unsent e.faults)

empty_store-IsValid : IsValid empty_store
unfolding any count
empty_store-IsValid = record {
  one_owner = λ w h. cc;
  workspace_exists = λ w h. refl;
  user_exists = λ u h. refl;
  stands_once = λ w u. omega arith;
}

clear_faults : (b : Bool) → not b ≡ true → b ≡ false
clear_faults true h = cc
clear_faults false h = refl

perform-IsValid :
    (call : Call) (now : Time) (faults : List Fault) (st : Store)
    → not (any is_unsent faults) ≡ true
    → IsValid st
    → IsValid (perform call now (connect faults st))
unfolding perform
perform-IsValid (create_user u i input) now fs st c v = create_user-IsValid u i now input _ v
perform-IsValid (delete_user input) now fs st c v = delete_user-IsValid input _ v
perform-IsValid (create_workspace w input) now fs st c v =
    create_workspace-IsValid w now input _ v (clear_faults _ c)
perform-IsValid (read_workspace input) now fs st c v = read_workspace-IsValid input _ v
perform-IsValid (add_workspace_member input) now fs st c v =
    add_workspace_member-IsValid now input _ v
perform-IsValid (remove_workspace_member input) now fs st c v =
    remove_workspace_member-IsValid input _ v
perform-IsValid (delete_workspace input) now fs st c v = delete_workspace-IsValid input _ v

run_from-IsValid :
    (es : List Event) (st : Store) → all is_clear es ≡ true → IsValid st → IsValid (run es st)
unfolding run all
run_from-IsValid [] st c v = v
run_from-IsValid (e ∷ es) st c v =
    run_from-IsValid es _ (ground arith) (perform-IsValid e.call e.now e.faults st (ground arith) v)

-- From the tables of a fresh migration, after any sequence of the calls of `Call` in which no
-- driver call fails before it is sent, the committed tables are valid: every workspace has
-- exactly one owner, and every membership names a workspace and a user that exist and stands
-- once.
pub run-IsValid : (es : List Event) → all is_clear es ≡ true → IsValid (run es empty_store)
run-IsValid es c = run_from-IsValid es empty_store c empty_store-IsValid
