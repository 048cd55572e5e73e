-- ===== src/User.antt =====
-- internal/user: model.go and errors.go. The service and its proofs are in the children.
pub mod Service
pub mod Handler
use waypoint_be.Base.{String, List}
use waypoint_be.Store.{Uuid, Time, UserRow}
use waypoint_be.Session.{Failure}

pub data UserError : Type 0 where
  forbidden not_found user_name_taken email_taken identity_taken : UserError
  invalid_id invalid_user_name invalid_email invalid_display_name invalid_identity : UserError

abbrev pub Error : Type 0
Error = Failure UserError

pub record User : Type 0 where
  pub id : Uuid
  pub email : String
  pub user_name : String
  pub display_name : String
  pub created_at : Time

pub record WorkspaceMembership : Type 0 where
  pub workspace_id : Uuid
  pub workspace_name : String

pub record UserProfile : Type 0 where
  pub user : User
  pub workspace_memberships : List WorkspaceMembership

pub record ExternalIdentity : Type 0 where
  pub issuer : String
  pub subject : String

pub record CreateUserInput : Type 0 where
  pub email : String
  pub user_name : String
  pub display_name : String
  pub identity : ExternalIdentity

pub record DeleteUserInput : Type 0 where
  pub user_id : Uuid
  pub actor_id : Uuid

-- The requests and the responses of the handlers. A response's `id` is the UUID's text.
pub record CreateUserRequest : Type 0 where
  pub user_name : String
  pub display_name : String

pub record CreateUserResponse : Type 0 where
  pub id : String
  pub email : String
  pub user_name : String
  pub display_name : String
  pub created_at : Time

pub record GetUserResponse : Type 0 where
  pub id : String
  pub email : String
  pub user_name : String
  pub display_name : String
  pub created_at : Time

pub record ListUsersResponse : Type 0 where
  pub users : List GetUserResponse

pub record MeUser : Type 0 where
  pub id : String
  pub email : String
  pub user_name : String
  pub display_name : String
  pub created_at : Time

pub record MeWorkspaceMembership : Type 0 where
  pub workspace_id : String
  pub workspace_name : String

pub record MeResponse : Type 0 where
  pub user : MeUser
  pub workspace_memberships : List MeWorkspaceMembership

-- The texts of the sentinels.
abbrev pub user_error_text : UserError → String
user_error_text forbidden = "insufficient user permissions"
user_error_text not_found = "user not found"
user_error_text user_name_taken = "user name already in use"
user_error_text email_taken = "email already in use"
user_error_text identity_taken = "user identity already in use"
user_error_text invalid_id = "invalid user id"
user_error_text invalid_user_name = "invalid user name"
user_error_text invalid_email = "invalid email"
user_error_text invalid_display_name = "invalid display name"
user_error_text invalid_identity = "identity issuer and subject are required"

-- userFromRow
unfoldable pub user_from_row : UserRow → User
user_from_row row = record {
  id = row.id;
  email = row.email;
  user_name = row.user_name;
  display_name = row.display_name;
  created_at = row.created_at;
}
