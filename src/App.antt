-- ===== src/App.antt =====
-- The service as a whole, over time: calls of the services that change users and workspaces, one
-- after another, each on a connection of its own with what befalls it. A call's transaction holds
-- the row lock of its workspace or user, so that calls on one of these follow one another.
pub mod Runs
use waypoint_be.Base.{List, [], ◌∷◌}
use waypoint_be.Store.{Uuid, Time, Store}
use waypoint_be.Session.{Fault, closed_tx, Session, ◌>>=◌, ◌>>◌}
use waypoint_be.Workspace.{
  CreateWorkspaceInput, ReadWorkspaceInput, AddWorkspaceMemberInput, RemoveWorkspaceMemberInput,
  DeleteWorkspaceInput,
}
use waypoint_be.Workspace.Service
use waypoint_be.User.{CreateUserInput, DeleteUserInput}
use waypoint_be.User.Service as Users

pub data Call : Type 0 where
  create_user : Uuid → Uuid → CreateUserInput → Call
  delete_user : DeleteUserInput → Call
  create_workspace : Uuid → CreateWorkspaceInput → Call
  read_workspace : ReadWorkspaceInput → Call
  add_workspace_member : AddWorkspaceMemberInput → Call
  remove_workspace_member : RemoveWorkspaceMemberInput → Call
  delete_workspace : DeleteWorkspaceInput → Call

-- A call at a time, with what befalls its calls of the driver.
pub record Event : Type 0 where
  pub call : Call
  pub now : Time
  pub faults : List Fault

-- The session that a call gets from the pool.
abbrev pub connect : List Fault → Store → Session
connect faults st = record { committed = st; current = st; status = closed_tx; faults = faults }

perform : Call → Time → Session → Store
perform (create_user u i input) now s = (Users.create_user u i now input s).1.committed
perform (delete_user input) now s = (Users.delete_user input s).1.committed
perform (create_workspace w input) now s = (Service.create_workspace w now input s).1.committed
perform (read_workspace input) now s = (Service.read_workspace input s).1.committed
perform (add_workspace_member input) now s = (Service.add_workspace_member now input s).1.committed
perform (remove_workspace_member input) now s =
    (Service.remove_workspace_member input s).1.committed
perform (delete_workspace input) now s = (Service.delete_workspace input s).1.committed

-- The committed tables after a sequence of events.
unfoldable pub run : List Event → Store → Store
unfolding perform
run [] st = st
run (e ∷ es) st = run es (perform e.call e.now (connect e.faults st))

-- The tables of a fresh migration.
abbrev pub empty_store : Store
empty_store = record {
  users = [];
  identities = [];
  workspaces = [];
  members = [];
  channels = [];
  channel_members = [];
  channel_messages = [];
  direct_messages = [];
}
