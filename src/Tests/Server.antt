-- ===== src/Tests/Server.antt =====
-- The theorems on requests and on the start of the server, at concrete libraries.
use waypoint_be.Base.{
  ℕ, String, ◌≡◌, refl, ◌⊎◌, true, false, none, some, List, [], ◌∷◌, str_eq, arith, if◌then◌else◌,
  any, is_empty, trim_space, decimal, Result, ok, err,
}
use waypoint_be.Store.{unavailable}
use waypoint_be.Session.{Session, sentinel, joined, rollback_first, wrap_driver}
use waypoint_be.Membership.{IsValid}
use waypoint_be.Session.Healthy.{healthy}
use waypoint_be.Http.{
  Request, decoded, end_of_input, created_user, JwtClaims, JwtConfig, Libraries, Head, read_json,
}
use waypoint_be.Http.Serving.{Exchange}
use waypoint_be.Middleware.{validate_jwt, extract_and_validate_jwt}
use waypoint_be.Middleware.Claims.{Accepted, extract_and_validate_jwt-Accepted}
use waypoint_be.User.{User, email_taken}
use waypoint_be.User.Handler as UserHandler
use waypoint_be.User.Handler.Returning.{blank, delivered, create_user-get_user}
use waypoint_be.User.Handler.Errors.{sentinel_answer, joined_text, public_error-join_rollback}
use waypoint_be.Workspace.{invalid_name}
use waypoint_be.Workspace.Handler as WorkspaceHandler
use waypoint_be.Workspace.Handler.Answers.{is_public, public_error-texts}
use waypoint_be.Workspace.Service.{create_workspace as service_create_workspace}
use waypoint_be.Workspace.Service.Foundation.{Founded, create_workspace-Founded}
use waypoint_be.Server.{
  Target, add_workspace_member, routes, Bindings, match, chosen, select, value_of, Ambient, serve,
}
use waypoint_be.Server.Access.{Permitted, serve-Permitted}
use waypoint_be.Server.Validity.{serve-IsValid}
use waypoint_be.Server.Answers.{Status, serve-Answered}
use waypoint_be.Server.Tokens.{asks_token, turned_away, serve-unauthorized}
use waypoint_be.Tests.{team, team-IsValid, losing}

-- Segments of a path that stand for the ids of the small workspace.
uuid_of : String → Result String ℕ
uuid_of text =
    if str_eq text "w7"
    then ok 7
    else if str_eq text "u3"
    then ok 3
    else if str_eq text "u4"
    then ok 4
    else err "invalid UUID"

-- Every token is ann's.
abbrev ann_claims : JwtClaims
ann_claims = record { issuer = "iss"; subject = "s1"; email = "a@x" }

abbrev libraries : Libraries
libraries = record {
  parse_uuid = uuid_of;
  uuid_text = λ id. decimal id;
  bearer = λ hs. ok "token";
  parse_token = λ raw keys methods issuer audience. ok ann_claims;
  decode_user = λ b. (decoded (record { user_name = "dan"; display_name = "Dan" }), b);
  decode_workspace = λ b. (decoded (record { name = "Lab" }), b);
  decode_nothing = λ b. (end_of_input, b);
  marshal = λ v. ok "{}";
  driver_text = λ e. "connection lost";
}

abbrev trusted : JwtConfig
trusted = record { issuer = "iss"; audience = "api"; key_func = λ t. ok 1 }

abbrev ambient : Ambient
ambient = record { first_id = 8; second_id = 38; now = 9 }

abbrev ann_request : Request
ann_request = record {
  authorization = "Bearer token" ∷ [];
  path_value = λ n. "";
  body = record { text = "{}"; limit = none };
}

abbrev anonymous : Request
anonymous = record ann_request { authorization = [] }

abbrev exchange : Session → Exchange
exchange s = record {
  session = s;
  reply = record { content_type = none; head = none; body = ""; writes = [] };
}

abbrev add_path : List String
add_path = "workspaces" ∷ "w7" ∷ "users" ∷ "u3" ∷ []

abbrev add_values : Bindings
add_values = ("workspace_id", "w7") ∷ ("user_id", "u3") ∷ []

serve-Permitted_example :
    let after =
      (serve libraries trusted ambient "POST" add_path ann_request
        (exchange losing)).1.session.committed in
    (after ≡ team)
    ⊎ ((t : Target) × (bs : Bindings) × (select "POST" add_path routes false ≡ chosen t bs)
        × Permitted libraries trusted ambient t
            (record ann_request { path_value = value_of bs })
            team
            after)
serve-Permitted_example =
    serve-Permitted libraries trusted ambient "POST" add_path ann_request (exchange losing)

serve-IsValid_example :
    IsValid
      (serve libraries trusted ambient "POST" add_path ann_request
        (exchange losing)).1.session.committed
unfolding any
serve-IsValid_example =
    serve-IsValid libraries trusted ambient "POST" add_path ann_request (exchange losing)
      team-IsValid (λ bs e. refl)

serve-Answered_example :
    (h : Head) × ((serve libraries trusted ambient "POST" add_path ann_request
        (exchange losing)).1.reply.head
      ≡ some h)
    × Status (select "POST" add_path routes false) h.status
serve-Answered_example =
    serve-Answered libraries trusted ambient "POST" add_path ann_request (exchange losing) refl

add_path-chosen : select "POST" add_path routes false ≡ chosen add_workspace_member add_values
unfolding select match routes is_empty
add_path-chosen = refl

serve-unauthorized_example :
    serve libraries trusted ambient "POST" add_path anonymous (exchange losing)
    ≡ turned_away (exchange losing)
unfolding asks_token extract_and_validate_jwt
serve-unauthorized_example =
    serve-unauthorized libraries trusted ambient "POST" add_path anonymous (exchange losing)
      add_workspace_member add_values _ add_path-chosen refl refl

extract_and_validate_jwt-Accepted_example : Accepted libraries ann_request trusted ann_claims
unfolding extract_and_validate_jwt validate_jwt is_empty
extract_and_validate_jwt-Accepted_example =
    extract_and_validate_jwt-Accepted libraries ann_request trusted ann_claims refl

public_error-texts_example :
    is_public
      (WorkspaceHandler.public_error
        (joined (sentinel invalid_name) (wrap_driver "rollback transaction" unavailable))).1
    ≡ true
public_error-texts_example =
    public_error-texts
      (joined (sentinel invalid_name) (wrap_driver "rollback transaction" unavailable))

public_error-join_rollback_example :
    UserHandler.public_error libraries
      (joined (wrap_driver "rollback transaction" unavailable) (sentinel email_taken))
    ≡ sentinel_answer email_taken (joined_text libraries rollback_first email_taken unavailable)
public_error-join_rollback_example =
    public_error-join_rollback libraries rollback_first email_taken unavailable
      (joined (wrap_driver "rollback transaction" unavailable) (sentinel email_taken)) refl

create_workspace-Founded_example :
    let after =
      (service_create_workspace 8 9 (record { name = "Lab"; actor_id = 2 }) losing).1.committed in
    (after ≡ team) ⊎ Founded 8 9 (record { name = "Lab"; actor_id = 2 }) team after
create_workspace-Founded_example =
    create_workspace-Founded 8 9 (record { name = "Lab"; actor_id = 2 }) losing

-- The same with a token of a user who is not registered, and one user's id printed.
abbrev newcomer : Libraries
newcomer = record libraries {
  uuid_text = λ id. "u4";
  parse_token = λ raw keys methods issuer audience.
      ok (record { issuer = "iss"; subject = "s4"; email = "d@x" });
}

abbrev ask_dan : Request
ask_dan = record ann_request { path_value = λ n. "u4" }

abbrev dan_head : Head
dan_head = record { status = 201; content_type = some "application/json" }

dan_sent :
    (UserHandler.create_user newcomer trusted ann_request 4 34 10
      (exchange (healthy team))).1.reply.head
    ≡ some dan_head
unfolding UserHandler.create_user extract_and_validate_jwt is_empty read_json
    waypoint_be.User.Service.create_user trim_space waypoint_be.Session.with_tx
    waypoint_be.Session.exec waypoint_be.Store.Users.create_user any
    waypoint_be.Store.Users.create_user_identity waypoint_be.Session.commit
    waypoint_be.Http.Serving.send_json
dan_sent = refl

create_user-get_user_example :
    let after =
      (UserHandler.create_user newcomer trusted ann_request 4 34 10 (exchange (healthy team))).1 in
    (body : String) × (newcomer.marshal (
        created_user (record {
          id = newcomer.uuid_text 4;
          email = trim_space "d@x";
          user_name = trim_space "dan";
          display_name = trim_space "Dan";
          created_at = 10;
        }))
      ≡ ok body)
    × (after.reply ≡ delivered 201 body)
    × ((UserHandler.get_user newcomer trusted ask_dan
          (record { session = healthy after.session.committed; reply = blank })).1.reply
        ≡ delivered 200 "{}")
unfolding uuid_of extract_and_validate_jwt validate_jwt is_empty read_json
create_user-get_user_example =
    create_user-get_user newcomer trusted ann_request ask_dan 4 34 10 (healthy team)
      (record { issuer = "iss"; subject = "s4"; email = "d@x" })
      (record { user_name = "dan"; display_name = "Dan" }) dan_head "{}" (ground arith) refl refl
      refl dan_sent refl refl refl
