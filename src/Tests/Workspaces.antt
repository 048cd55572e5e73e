-- ===== src/Tests/Workspaces.antt =====
-- The theorems on workspaces at the small workspace.
use waypoint_be.Store.{ChannelMessageRow}
use waypoint_be.Store.Threads.{delete_messages}
use waypoint_be.Threads.{IsCounted}
use waypoint_be.Workspace.Service.Answers.Dissolution.{
  in_channel_of, delete_table, delete_workspace-table,
}
use waypoint_be.Workspace.Service.Answers.Founding.{create_table, create_workspace-table}
use waypoint_be.Workspace.Service.Answers.Reading.{read_table, read_workspace-table}
use waypoint_be.Base.{
  ◌≡◌, refl, ◌⊎◌, true, List, [], ◌∷◌, filter, any, find?, count, all, is_empty, trim_space, ok,
}
use waypoint_be.Store.{zero_id, ChannelMessageRow, Store, has_workspace}
use waypoint_be.Session.{served, failed, exec, commit, rollback_unless_closed, with_tx}
use waypoint_be.Session.Healthy.{healthy, Answers}
use waypoint_be.Membership.{IsValid, owners}
use waypoint_be.Workspace.{
  ReadWorkspaceInput, CreateWorkspaceInput, AddWorkspaceMemberInput, RemoveWorkspaceMemberInput,
  DeleteWorkspaceInput,
}
use waypoint_be.Workspace.Service.{
  read_workspace, create_workspace, add_workspace_member, remove_workspace_member, delete_workspace,
}
use waypoint_be.Workspace.Service.Invariant.{remove_workspace_member-IsValid}
use waypoint_be.Workspace.Service.Creation.{
  create_workspace-IsValid, unsent_third, create_workspace-ownerless,
}
use waypoint_be.Workspace.Service.Access.{
  Removed, Joined, Dissolved, remove_workspace_member-Removed, add_workspace_member-Joined,
  delete_workspace-Dissolved,
}
use waypoint_be.Workspace.Service.Answers.{Fits}
use waypoint_be.Workspace.Service.Answers.Removal.{remove_table, remove_workspace_member-table}
use waypoint_be.Workspace.Service.Answers.Addition.{add_table, add_workspace_member-table}
use waypoint_be.App.{Call, Event, run, empty_store}
use waypoint_be.App.Runs.{run-IsValid}
use waypoint_be.User.{CreateUserInput}
use waypoint_be.Tests.{team-IsCounted, team, team-IsValid, losing}

abbrev remove_bob : RemoveWorkspaceMemberInput
remove_bob = record { workspace_id = 7; user_id = 2; actor_id = 1 }

abbrev add_cyd : AddWorkspaceMemberInput
add_cyd = record { workspace_id = 7; user_id = 3; actor_id = 1 }

abbrev drop_ops : DeleteWorkspaceInput
drop_ops = record { workspace_id = 7; actor_id = 1 }

abbrev new_lab : CreateWorkspaceInput
new_lab = record { name = " Lab "; actor_id = 2 }

-- Bob is removed, and the commit counts although its answer is lost.
removed_though_lost :
    (remove_workspace_member remove_bob losing).1.committed.members
    ≡ record { workspace_id = 7; user_id = 1; role = "owner"; joined_at = 1 } ∷ []
unfolding remove_workspace_member with_tx exec commit rollback_unless_closed
    waypoint_be.Store.Workspaces.lock_workspace_row find?
    waypoint_be.Store.Workspaces.select_workspace_member
    waypoint_be.Store.Workspaces.remove_workspace_member count filter
removed_though_lost = refl

remove_workspace_member-IsValid_example :
    IsValid (remove_workspace_member remove_bob losing).1.committed
remove_workspace_member-IsValid_example =
    remove_workspace_member-IsValid remove_bob losing team-IsValid

create_workspace-IsValid_example : IsValid (create_workspace 8 9 new_lab losing).1.committed
create_workspace-IsValid_example =
    create_workspace-IsValid 8 9 new_lab losing team-IsValid (unfold any in refl)

create_workspace-ownerless_example :
    let (r, s) = create_workspace 8 9 new_lab (unsent_third team) in
    (r
      ≡ ok (record {
        id = 8;
        name = trim_space new_lab.name;
        members = record { user_id = zero_id; role = "" } ∷ [];
        created_at = 9;
      }))
    × (has_workspace 8 s.committed ≡ true)
    × (owners 8 s.committed ≡ 0)
create_workspace-ownerless_example =
    create_workspace-ownerless 8 9 new_lab team team-IsValid (unfold trim_space is_empty in refl)
      refl (unfold any in refl)

remove_workspace_member-Removed_example :
    let after = (remove_workspace_member remove_bob losing).1.committed in
    (after ≡ team) ⊎ Removed remove_bob team after
remove_workspace_member-Removed_example = remove_workspace_member-Removed remove_bob losing

add_workspace_member-Joined_example :
    let after = (add_workspace_member 9 add_cyd losing).1.committed in
    (after ≡ team) ⊎ Joined 9 add_cyd team after
add_workspace_member-Joined_example = add_workspace_member-Joined 9 add_cyd losing

delete_workspace-Dissolved_example :
    let after = (delete_workspace drop_ops losing).1.committed in
    (after ≡ team) ⊎ Dissolved drop_ops team after
delete_workspace-Dissolved_example = delete_workspace-Dissolved drop_ops losing

remove_workspace_member-table_example :
    Fits (remove_workspace_member remove_bob (healthy team)) (remove_table remove_bob team)
remove_workspace_member-table_example = remove_workspace_member-table remove_bob team team-IsValid

add_workspace_member-table_example :
    Fits (add_workspace_member 9 add_cyd (healthy team)) (add_table 9 add_cyd team)
add_workspace_member-table_example = add_workspace_member-table 9 add_cyd team team-IsValid

delete_workspace-table_example :
    (left : List ChannelMessageRow) × IsCounted left
    × (delete_messages (in_channel_of 7 team) team.channel_messages ≡ ok left)
    × Fits (delete_workspace drop_ops (healthy team)) (delete_table drop_ops left team)
delete_workspace-table_example = delete_workspace-table drop_ops team team-IsValid team-IsCounted

abbrev read_ops : ReadWorkspaceInput
read_ops = record { workspace_id = 7; actor_id = 2 }

read_workspace-table_example :
    Fits (read_workspace read_ops (healthy team)) (read_table read_ops team)
read_workspace-table_example = read_workspace-table read_ops team

create_workspace-table_example :
    let (r, after) = create_table 8 9 new_lab team in
    Answers (create_workspace 8 9 new_lab (healthy team)) r after
create_workspace-table_example =
    create_workspace-table 8 9 new_lab team team-IsValid (unfold any in refl)

abbrev eve : CreateUserInput
eve = record {
  email = "e@x";
  user_name = "eve";
  display_name = "Eve";
  identity = record { issuer = "iss"; subject = "s5" };
}

-- Eve registers and creates a workspace.
abbrev founding : List Event
founding =
    record { call = Call.create_user 5 35 eve; now = 1; faults = [] }
    ∷ record {
      call = Call.create_workspace 8 (record { name = "Lab"; actor_id = 5 });
      now = 2;
      faults = served ∷ served ∷ failed ∷ [];
    }
    ∷ record {
      call = Call.create_workspace 9 (record { name = "Lab"; actor_id = 5 });
      now = 3;
      faults = [];
    }
    ∷ []

run-IsValid_example : IsValid (run founding empty_store)
run-IsValid_example = run-IsValid founding (unfold any all in refl)
