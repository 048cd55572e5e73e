-- ===== src/Tests/Users.antt =====
-- The theorems on users at the small workspace.
use waypoint_be.Base.{◌≡◌, refl, ◌⊎◌, any, is_empty, trim_space, ok}
use waypoint_be.Store.{UserRow, Store}
use waypoint_be.Session.{exec, commit, rollback_unless_closed, with_tx}
use waypoint_be.Session.Healthy.{healthy}
use waypoint_be.Membership.{IsValid}
use waypoint_be.User.{User, CreateUserInput, DeleteUserInput, user_from_row}
use waypoint_be.User.Service.{create_user, delete_user, read_user_by_identity}
use waypoint_be.User.Service.Identity.{create_user-read_user_by_identity}
use waypoint_be.User.Service.Registration.{Registered, create_user-Registered}
use waypoint_be.User.Service.Deletion.{Gone, delete_user-Gone, delete_user-IsValid}
use waypoint_be.Tests.{team, team-IsValid, losing}

abbrev dan : CreateUserInput
dan = record {
  email = " d@x ";
  user_name = "dan";
  display_name = "Dan";
  identity = record { issuer = "iss"; subject = "s4" };
}

abbrev delete_cyd : DeleteUserInput
delete_cyd = record { user_id = 3; actor_id = 3 }

abbrev dan_user : User
dan_user = record {
  id = 4;
  email = "d@x";
  user_name = "dan";
  display_name = "Dan";
  created_at = 10;
}

dan_created : (create_user 4 34 10 dan (healthy team)).0 ≡ ok dan_user
unfolding create_user with_tx exec commit rollback_unless_closed is_empty trim_space
    waypoint_be.Store.Users.create_user any waypoint_be.Store.Users.create_user_identity
    user_from_row
dan_created = refl

create_user-read_user_by_identity_example :
    (read_user_by_identity "iss" "s4"
      (healthy (create_user 4 34 10 dan (healthy team)).1.committed)).0
    ≡ ok dan_user
create_user-read_user_by_identity_example =
    create_user-read_user_by_identity 4 34 10 dan (healthy team) dan_user dan_created

create_user-Registered_example :
    let after = (create_user 4 34 10 dan losing).1.committed in
    (after ≡ team) ⊎ ((row : UserRow) × Registered 4 34 10 dan team after row)
create_user-Registered_example = create_user-Registered 4 34 10 dan losing

delete_user-Gone_example :
    let after = (delete_user delete_cyd losing).1.committed in
    (after ≡ team) ⊎ Gone delete_cyd team after
delete_user-Gone_example = delete_user-Gone delete_cyd losing

delete_user-IsValid_example : IsValid (delete_user delete_cyd losing).1.committed
delete_user-IsValid_example = delete_user-IsValid delete_cyd losing team-IsValid
