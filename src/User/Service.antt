-- ===== src/User/Service.antt =====
-- internal/user/service.go, one function for each method of Service but GetActorID. The new UUIDs
-- and the time of the transaction are arguments.
pub mod Registration
pub mod Identity
pub mod Reading
pub mod Deletion
use waypoint_be.Base.{String, not, ◌||◌, List, [], map, ◌==◌, if◌then◌else◌, is_empty, trim_space}
use waypoint_be.Store.{Uuid, Time, WorkspaceRow, Store, DbError, no_rows}
use waypoint_be.Store.Users
use waypoint_be.Store.Workspaces.{delete_workspaces_owned_by_user, list_user_workspaces}
use waypoint_be.Session.{
  Action, ◌>>=◌, ◌>>◌, pure, reject_if, on_error, exec, query, commit, is_unique_violation,
  sentinel, wrap_driver, rollback_first, with_tx,
}
use waypoint_be.User.{
  forbidden, not_found, user_name_taken, email_taken, identity_taken, invalid_user_name,
  invalid_email, invalid_display_name, invalid_identity, Error, User, WorkspaceMembership,
  UserProfile, CreateUserInput, DeleteUserInput, user_from_row,
}

pub commit_tx : Action Error (Unit {0})
commit_tx = on_error (wrap_driver "commit transaction") commit

pub create_user_failure : DbError → Error
create_user_failure e =
    if is_unique_violation e "users_email_unique"
    then sentinel email_taken
    else if is_unique_violation e "users_user_name_unique"
    then sentinel user_name_taken
    else wrap_driver "create user" e

pub create_identity_failure : DbError → Error
create_identity_failure e =
    if is_unique_violation e "user_identities_identity_unique"
    then sentinel identity_taken
    else wrap_driver "create user identity" e

-- The fields as CreateUser trims them; the identity is stored as it was given.
abbrev pub trimmed : Uuid → CreateUserInput → Users.CreateUserParams
trimmed fresh input = record {
  id = fresh;
  email = trim_space input.email;
  user_name = trim_space input.user_name;
  display_name = trim_space input.display_name;
}

pub create_body : Uuid → Uuid → Time → CreateUserInput → Action Error User
unfolding create_user_failure create_identity_failure commit_tx
create_body user_id identity_id now input = do
  u ← on_error create_user_failure (exec (Users.create_user (trimmed user_id input) now))
  _ ← on_error create_identity_failure (
      exec (
        Users.create_user_identity
          (record {
            id = identity_id;
            user_id = u.id;
            issuer = input.identity.issuer;
            subject = input.identity.subject;
          })
          now))
  commit_tx
  pure (user_from_row u)

-- Service.CreateUser, given the UUIDs of the user and of the identity
unfoldable pub create_user : Uuid → Uuid → Time → CreateUserInput → Action Error User
unfolding create_body
create_user user_id identity_id now input = do
  reject_if (is_empty (trim_space input.email)) (sentinel invalid_email)
  reject_if (is_empty (trim_space input.user_name)) (sentinel invalid_user_name)
  reject_if (is_empty (trim_space input.display_name)) (sentinel invalid_display_name)
  reject_if
      (is_empty (trim_space input.identity.issuer) || is_empty (trim_space input.identity.subject))
      (sentinel invalid_identity)
  with_tx rollback_first "begin transaction" (create_body user_id identity_id now input)

pub read_failure : String → DbError → Error
read_failure text no_rows = sentinel not_found
read_failure text e = wrap_driver text e

-- Service.ReadUser
unfoldable pub read_user : Uuid → Action Error User
unfolding read_failure
read_user id = do
  user ← on_error (read_failure "read user") (query (Users.select_user id))
  pure (user_from_row user)

-- Service.ReadUserByIdentity
unfoldable pub read_user_by_identity : String → String → Action Error User
unfolding read_failure
read_user_by_identity issuer subject = do
  user ←
      on_error (read_failure "read user by identity")
        (query (Users.select_user_by_identity issuer subject))
  pure (user_from_row user)

abbrev pub membership : WorkspaceRow → WorkspaceMembership
membership ws = record { workspace_id = ws.id; workspace_name = ws.name }

-- Service.ReadUserProfile
unfoldable pub read_user_profile : String → String → Action Error UserProfile
unfolding read_user_by_identity
read_user_profile issuer subject = do
  user ← read_user_by_identity issuer subject
  workspaces ← on_error (wrap_driver "list user workspaces") (query (list_user_workspaces user.id))
  pure (record { user = user; workspace_memberships = map membership workspaces })

-- Service.ListUsers
unfoldable pub list_users : Action Error (List User)
list_users = do
  users ← on_error (wrap_driver "list users") (query Users.list_users)
  pure (map user_from_row users)

pub lock_failure : DbError → Error
lock_failure no_rows = sentinel not_found
lock_failure e = wrap_driver "lock user" e

pub delete_body : DeleteUserInput → Action Error (Unit {0})
unfolding lock_failure commit_tx
delete_body input = do
  row ← on_error lock_failure (exec (Users.lock_user_row input.user_id))
  on_error (wrap_driver "delete workspaces owned by user")
      (exec (delete_workspaces_owned_by_user row.id))
  removed ← on_error (wrap_driver "delete user") (exec (Users.delete_user row.id))
  reject_if (removed == 0) (sentinel not_found)
  commit_tx

-- Service.DeleteUser
unfoldable pub delete_user : DeleteUserInput → Action Error (Unit {0})
unfolding delete_body
delete_user input = do
  reject_if (not (input.actor_id == input.user_id)) (sentinel forbidden)
  with_tx rollback_first "begin transaction" (delete_body input)
