-- ===== src/User/Handler.antt =====
-- internal/user/handler.go, one function for each handler, and Service.GetActorID. The UUIDs and
-- the time that CreateUser takes are arguments.
pub mod Access
pub mod Reading
pub mod Answers
pub mod Errors
pub mod Returning
use waypoint_be.Base.{ℕ, ◌<◌, String, Bool, ◌||◌, [], map, ◌==◌, if◌then◌else◌, ◌<>◌}
use waypoint_be.Store.{Uuid, Time}
use waypoint_be.Session.{is_sentinel, error_text, other}
use waypoint_be.Http.{
  Request, created_user, one_user, all_users, profile, JwtClaims, JwtConfig, Libraries, Reply,
  write_header, http_error, path_id, read_json,
}
use waypoint_be.Http.Serving.{Serving, ◌>>=◌, ◌>>◌, pure, respond, valid, call, send_json}
use waypoint_be.Middleware.{extract_and_validate_jwt}
use waypoint_be.User.{
  UserError, forbidden, not_found, user_name_taken, email_taken, identity_taken, invalid_id,
  invalid_user_name, invalid_email, invalid_display_name, invalid_identity, Error, User,
  WorkspaceMembership, UserProfile, CreateUserResponse, GetUserResponse, MeWorkspaceMembership,
  MeResponse, user_error_text,
}
use waypoint_be.User.Service

-- Each sentinel's number, by which errors.Is tells them apart.
abbrev pub user_error_number : UserError → ℕ
user_error_number forbidden = 0
user_error_number not_found = 1
user_error_number user_name_taken = 2
user_error_number email_taken = 3
user_error_number identity_taken = 4
user_error_number invalid_id = 5
user_error_number invalid_user_name = 6
user_error_number invalid_email = 7
user_error_number invalid_display_name = 8
user_error_number invalid_identity = 9

-- errors.Is(err, e)
abbrev pub errors_is : UserError → Error → Bool
errors_is e = is_sentinel (λ x. user_error_number x == user_error_number e)

-- The status and the text that writeError sends.
unfoldable pub public_error : Libraries → Error → ℕ × String
public_error lib e =
    let text = error_text user_error_text lib.driver_text e in
    if errors_is forbidden e
    then (403, text)
    else if errors_is not_found e
    then (404, text)
    else if errors_is email_taken e || errors_is user_name_taken e || errors_is identity_taken e
    then (409, text)
    else if errors_is invalid_email e
        || errors_is invalid_user_name e
        || errors_is invalid_display_name e
        || errors_is invalid_identity e
        || errors_is invalid_id e
    then (400, "invalid request body: " <> text)
    else (500, "internal server error")

-- writeError
unfoldable pub write_error : Libraries → Error → Reply → Reply
unfolding public_error
write_error lib e = let (status, public) = public_error lib e in http_error public status

-- writeError of the error that httpx.WriteJSON returned
abbrev pub write_failed : Libraries → String → Reply → Reply
write_failed lib e = write_error lib (other e)

abbrev pub unauthorized : {E : Type 0} → E → Reply → Reply
unauthorized _ = http_error "Unauthorized" 401

-- The answer of GetActorID to an identity that it does not resolve.
unfoldable pub unresolved : Error → Reply → Reply
unresolved e =
    if errors_is not_found e
    then http_error (user_error_text forbidden) 403
    else http_error "internal server error" 500

-- `if errors.Is(err, ErrNotFound)` before writeError
unfoldable pub write_read_error : Libraries → Error → Reply → Reply
unfolding write_error
write_read_error lib e =
    if errors_is not_found e then http_error (user_error_text not_found) 404 else write_error lib e

module _ (lib : Libraries) (config : JwtConfig) (r : Request) where
  abbrev pub claims_of : Serving JwtClaims
  claims_of = valid (extract_and_validate_jwt lib r config) unauthorized

  -- Service.GetActorID
  unfoldable pub get_actor_id : Serving Uuid
  unfolding unresolved
  get_actor_id = do
    claims ← claims_of
    actor ← call (Service.read_user_by_identity claims.issuer claims.subject) unresolved
    pure actor.id

  -- The UUID in the path, or 400.
  abbrev pub path_user : String → Serving Uuid
  path_user name = valid (path_id lib r name) (λ _. http_error (user_error_text invalid_id) 400)

  abbrev pub created : User → CreateUserResponse
  created u = record {
    id = lib.uuid_text u.id;
    email = u.email;
    user_name = u.user_name;
    display_name = u.display_name;
    created_at = u.created_at;
  }

  abbrev pub shown : User → GetUserResponse
  shown u = record {
    id = lib.uuid_text u.id;
    email = u.email;
    user_name = u.user_name;
    display_name = u.display_name;
    created_at = u.created_at;
  }

  -- Handler.CreateUser
  unfoldable pub create_user : Uuid → Uuid → Time → Serving (Unit {0})
  unfolding write_error
  create_user user_id identity_id now = do
    claims ← claims_of
    request ←
        valid (read_json lib.decode_user lib.decode_nothing r.body)
          (λ e. http_error ("invalid request body: " <> e) 400)
    u ←
        call
          (Service.create_user user_id identity_id now (record {
            email = claims.email;
            user_name = request.user_name;
            display_name = request.display_name;
            identity = record { issuer = claims.issuer; subject = claims.subject };
          }))
          (write_error lib)
    send_json lib 201 (created_user (created u)) (write_failed lib)

  -- Handler.GetUser
  unfoldable pub get_user : Serving (Unit {0})
  unfolding write_read_error
  get_user = do
    id ← path_user "id"
    u ← call (Service.read_user id) (write_read_error lib)
    send_json lib 200 (one_user (shown u)) (write_failed lib)

  -- Handler.ListUsers
  unfoldable pub list_users : Serving (Unit {0})
  unfolding write_error
  list_users = do
    users ← call Service.list_users (write_error lib)
    send_json lib 200 (all_users (record { users = map shown users })) (write_failed lib)

  abbrev me_membership : WorkspaceMembership → MeWorkspaceMembership
  me_membership m = record {
    workspace_id = lib.uuid_text m.workspace_id;
    workspace_name = m.workspace_name;
  }

  abbrev pub me_response : UserProfile → MeResponse
  me_response p = record {
    user = record {
      id = lib.uuid_text p.user.id;
      email = p.user.email;
      user_name = p.user.user_name;
      display_name = p.user.display_name;
      created_at = p.user.created_at;
    };
    workspace_memberships = map me_membership p.workspace_memberships;
  }

  -- Handler.Me
  unfoldable pub me : Serving (Unit {0})
  unfolding write_read_error
  me = do
    claims ← claims_of
    p ← call (Service.read_user_profile claims.issuer claims.subject) (write_read_error lib)
    send_json lib 200 (profile (me_response p)) (write_failed lib)

  -- Handler.DeleteUser
  unfoldable pub delete_user : Serving (Unit {0})
  unfolding get_actor_id write_error
  delete_user = do
    actor_id ← get_actor_id
    user_id ← path_user "id"
    call (Service.delete_user (record { user_id = user_id; actor_id = actor_id })) (write_error lib)
    respond (write_header 204)
