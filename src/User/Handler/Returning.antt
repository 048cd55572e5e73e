-- ===== src/User/Handler/Returning.antt =====
-- internal/user/handler.go: GetUser for the id that CreateUser has answered with.
use text.Mathlib.TextLemmas.{nil-append}
use waypoint_be.Base.{
  ℕ, String, ◌≡◌, refl, sym, ap, ◌∙◌, ◌≢◌, true, false, Option, none, some, [], arith, ◌==◌, any,
  trim_space, ◌<>◌, Result, ok, err,
}
use waypoint_be.Store.{Uuid, zero_id, Time, Store}
use waypoint_be.Session.{Session}
use waypoint_be.Session.Healthy.{healthy}
use waypoint_be.Http.{
  Request, created_user, one_user, JwtClaims, JwtConfig, Libraries, Head, Reply, write_header,
  write, path_id, read_json, write_payload, write_json,
}
use waypoint_be.Http.Serving.{Exchange, proceed, ended, wrote, send_json}
use waypoint_be.Http.Answers.{is_refusal, Refuses}
use waypoint_be.Middleware.{extract_and_validate_jwt}
use waypoint_be.User.{Error, User, CreateUserInput, CreateUserRequest}
use waypoint_be.User.Service
use waypoint_be.User.Service.Identity.{create_user-read_user}
use waypoint_be.User.Handler.{create_user, get_user, write_error, write_failed, created, shown}
use waypoint_be.User.Handler.Answers.{write_error-Refuses, failed-Refuses}

-- A response of which nothing has been written, and whose writes succeed.
abbrev pub blank : Reply
blank = record { content_type = none; head = none; body = ""; writes = [] }

-- That response with a status and a JSON text.
abbrev pub delivered : ℕ → String → Reply
delivered status text = record {
  content_type = some "application/json";
  head = some (record { status = status; content_type = some "application/json" });
  body = text;
  writes = [];
}

-- What the registration with the claims and the body is of.
abbrev pub input_of : JwtClaims → CreateUserRequest → CreateUserInput
input_of claims request = record {
  email = claims.email;
  user_name = request.user_name;
  display_name = request.display_name;
  identity = record { issuer = claims.issuer; subject = claims.subject };
}

not_equal : (a b : ℕ) → a ≢ b → (a == b) ≡ false
not_equal a b n = ground arith

some-injective : {A : Type 0} (a b : A) → some a ≡ some b → a ≡ b
some-injective a b h = cc

path_id-ok :
    (lib : Libraries) (r : Request) (name : String) (id : Uuid)
    → lib.parse_uuid (r.path_value name) ≡ ok id
    → id ≢ zero_id
    → path_id lib r name ≡ ok id
unfolding path_id
path_id-ok lib r name id h n = rw (h, not_equal id zero_id n) refl

apart_from_refusals : (code : ℕ) → is_refusal code ≡ true → code ≢ 201
unfolding is_refusal any
apart_from_refusals code r k =
    let q : is_refusal 201 ≡ true = ap is_refusal (sym k) ∙ r in ground arith

-- A text that is written to an empty body is the body.
written :
    (status : ℕ) (text : String)
    → record (delivered status text) { body = "" <> text } ≡ delivered status text
written status text = ap (λ b. record (delivered status text) { body = b }) (nil-append text)

-- A refusal has not answered with 201.
not_refused :
    {E A : Type 0} {f : E → Reply → Reply} (t : Refuses f) (e : E) (h : Head)
    → (f e blank).head ≡ some h
    → h.status ≡ 201
    → A
not_refused t e h sent status =
    let (g, same, there) = t.fresh e blank refl in
    absurd (
      apart_from_refusals (t.code e) (t.refused e)
        (sym same ∙ ap (λ z. z.status) (some-injective g h (sym there ∙ sent)) ∙ status))

module _ (lib : Libraries) (config : JwtConfig) where
  get_user-delivered :
      (later : Request) (st : Store) (u : User) (id : Uuid) (text : String)
      → path_id lib later "id" ≡ ok id
      → (Service.read_user id (healthy st)).0 ≡ ok u
      → lib.marshal (one_user (shown lib config later u)) ≡ ok text
      → (get_user lib config later (record { session = healthy st; reply = blank })).1.reply
        ≡ delivered 200 text
  unfolding get_user send_json write_json write write_header
  get_user-delivered later st u id text p h m = rw (p, h, m) (written 200 text)

  module _ (r : Request) (s : Session) where
    -- The rest of CreateUser, after the call of the service.
    answer : Result Error User × Session → Option (Unit {0}) × Exchange
    answer z =
        proceed (λ u. send_json lib 201 (created_user (created lib config r u)) (write_failed lib))
          (ended (write_error lib) (record { session = s; reply = blank }) z)

    create_user-answer :
        (user_id identity_id : Uuid) (now : Time) (claims : JwtClaims) (request : CreateUserRequest)
        → extract_and_validate_jwt lib r config ≡ ok claims
        → read_json lib.decode_user lib.decode_nothing r.body ≡ ok request
        → create_user lib config r user_id identity_id now (record { session = s; reply = blank })
          ≡ answer (Service.create_user user_id identity_id now (input_of claims request) s)
    unfolding create_user answer
    create_user-answer user_id identity_id now claims request t b = rw (t, b) refl

    -- An answer with 201 was delivered.
    answer-delivered :
        (z : Result Error User × Session) (h : Head)
        → (answer z).1.reply.head ≡ some h
        → h.status ≡ 201
        → (u : User) × (body : String) × (z.0 ≡ ok u)
          × (lib.marshal (created_user (created lib config r u)) ≡ ok body)
          × ((answer z).1.reply ≡ delivered 201 body)
          × ((answer z).1.session ≡ z.1)
    unfolding answer send_json write_json write write_header
    answer-delivered (err e, s') h sent status =
        not_refused (write_error-Refuses lib) e h sent status
    answer-delivered (ok u, s') h sent status =
        go (lib.marshal (created_user (created lib config r u))) refl sent
      where
        go :
            (v : Result String String)
            → lib.marshal (created_user (created lib config r u)) ≡ v
            → (wrote (write_failed lib) (write_payload v 201 blank)).head ≡ some h
            → (u' : User) × (body : String) × (◌≡◌ {A = Result Error User} (ok u) (ok u'))
              × (lib.marshal (created_user (created lib config r u')) ≡ ok body)
              × (wrote
                    (write_failed lib)
                    (write_payload (lib.marshal (created_user (created lib config r u))) 201 blank)
                  ≡ delivered 201 body)
              × (s' ≡ s')
        go (ok text) e k = (u, text, refl, e, rw e (written 201 text), refl)
        go (err e') e k = not_refused (failed-Refuses lib) e' h k status

-- On a response to which nothing has been written and whose writes succeed, with accepted claims,
-- a body that is read, and an id that is not zero, that uuid.Parse reads back from its text and
-- whose text a later request has in its path, whatever befell the driver: where POST /users has
-- answered 201, its body is the JSON text of the CreateUserResponse with the id's text, the
-- trimmed email of the claims, the trimmed user name and display name of the body and the time of
-- the call; and a later GET /users/{id}, its driver calls served and its GetUserResponse with the
-- same values marshalled, answers 200 with that JSON text.
pub create_user-get_user :
    (lib : Libraries) (config : JwtConfig) (r later : Request) (user_id identity_id : Uuid)
    (now : Time) (s : Session) (claims : JwtClaims) (request : CreateUserRequest) (h : Head)
    (text : String)
    → user_id ≢ zero_id
    → lib.parse_uuid (lib.uuid_text user_id) ≡ ok user_id
    → extract_and_validate_jwt lib r config ≡ ok claims
    → read_json lib.decode_user lib.decode_nothing r.body ≡ ok request
    → (create_user lib config r user_id identity_id now
        (record { session = s; reply = blank })).1.reply.head
      ≡ some h
    → h.status ≡ 201
    → later.path_value "id" ≡ lib.uuid_text user_id
    → lib.marshal (
        one_user (record {
          id = lib.uuid_text user_id;
          email = trim_space claims.email;
          user_name = trim_space request.user_name;
          display_name = trim_space request.display_name;
          created_at = now;
        }))
      ≡ ok text
    → let after =
        (create_user lib config r user_id identity_id now
          (record { session = s; reply = blank })).1 in
      (body : String) × (lib.marshal (
          created_user (record {
            id = lib.uuid_text user_id;
            email = trim_space claims.email;
            user_name = trim_space request.user_name;
            display_name = trim_space request.display_name;
            created_at = now;
          }))
        ≡ ok body)
      × (after.reply ≡ delivered 201 body)
      × ((get_user lib config later
            (record { session = healthy after.session.committed; reply = blank })).1.reply
          ≡ delivered 200 text)
create_user-get_user lib config r later user_id identity_id now s claims request h text n p t b sent
      status path m =
    let z = Service.create_user user_id identity_id now (input_of claims request) s in
    let e = create_user-answer lib config r s user_id identity_id now claims request t b in
    let (u, body, made, printed, reply, session) =
      answer-delivered lib config r s z h (ap (λ y. y.1.reply.head) (sym e) ∙ sent) status in
    let (same, found) =
      create_user-read_user user_id identity_id now (input_of claims request) s u made in
    let kept = ap (λ y. y.1.session) e ∙ session in
    (
      body,
      sym (ap (λ v. lib.marshal (created_user (created lib config r v))) same) ∙ printed,
      ap (λ y. y.1.reply) e ∙ reply,
      get_user-delivered lib config later _ u user_id text
          (path_id-ok lib later "id" user_id (ap lib.parse_uuid path ∙ p) n)
          (ap (λ t. (Service.read_user user_id (healthy t.committed)).0) kept ∙ found)
          (ap (λ v. lib.marshal (one_user (shown lib config later v))) same ∙ m),
    )
