-- ===== src/Http.antt =====
-- internal/httpx, and what the handlers use of net/http: the request, the response as it is
-- written, and the helpers that read and write JSON. The libraries that parse and print are
-- the fields of `Libraries`.
pub mod Serving
pub mod Rules
pub mod Answers
use waypoint_be.Base.{
  ℕ, zero, ◌-◌, ◌<◌, String, Bool, true, false, not, Option, none, some, List, [], ◌∷◌, ◌==◌,
  if◌then◌else◌, ◌<>◌, Result, ok, err, and_then, map_err,
}
use waypoint_be.Store.{Uuid, zero_id, DbError}
use waypoint_be.Session.{◌>>=◌, ◌>>◌}
use waypoint_be.User.{
  CreateUserRequest, CreateUserResponse, GetUserResponse, ListUsersResponse, MeResponse,
}
use waypoint_be.Workspace.{CreateWorkspaceRequest, Workspace, WorkspaceMember}

-- A request's body; http.MaxBytesHandler sets the limit.
pub record Body : Type 0 where
  pub text : String
  pub limit : Option ℕ

-- `authorization` is r.Header.Values("Authorization"), and `path_value` is r.PathValue.
pub record Request : Type 0 where
  pub authorization : List String
  pub path_value : String → String
  pub body : Body

-- What json.Decoder.Decode does with the next value of its input.
pub data Decoded (A : Type 0) : Type 0 where
  decoded : A → Decoded A
  end_of_input : Decoded A
  malformed : String → Decoded A

abbrev pub Decoder : Type 0 → Type 0
Decoder A = Body → Decoded A × Body

-- The values that the handlers write as JSON.
pub data Payload : Type 0 where
  created_user : CreateUserResponse → Payload
  one_user : GetUserResponse → Payload
  all_users : ListUsersResponse → Payload
  profile : MeResponse → Payload
  workspace : Workspace → Payload
  member : WorkspaceMember → Payload

-- The claims of an access token that the handlers use.
pub record JwtClaims : Type 0 where
  pub issuer : String
  pub subject : String
  pub email : String

-- A key function takes the token's text to a key's number.
pub record JwtConfig : Type 0 where
  pub issuer : String
  pub audience : String
  pub key_func : String → Result String ℕ

-- The code outside the repository.
pub record Libraries : Type 0 where
  pub parse_uuid : String → Result String Uuid  -- uuid.Parse
  pub uuid_text : Uuid → String  -- UUID.String
  pub bearer : List String → Result String String  -- request.BearerExtractor on the headers
  -- jwt.ParseWithClaims with the valid methods, the issuer and the audience, an expiration
  -- being required
  pub parse_token :
      String → (String → Result String ℕ) → List String → String → String → Result String JwtClaims
  -- json.Decoder.Decode with DisallowUnknownFields, into each of the three destinations
  pub decode_user : Decoder CreateUserRequest
  pub decode_workspace : Decoder CreateWorkspaceRequest
  pub decode_nothing : Decoder (Unit {0})
  pub marshal : Payload → Result String String  -- json.Marshal
  pub driver_text : DbError → String  -- the Error method of pgx's errors

-- The header of a response that has been sent.
pub record Head : Type 0 where
  pub status : ℕ
  pub content_type : Option String

-- A response: the header to send, the header that was sent, what has been written, and what
-- befalls the writes to come; a write past the end of the list succeeds.
pub record Reply : Type 0 where
  pub content_type : Option String
  pub head : Option Head
  pub body : String
  pub writes : List (Option String)

-- ResponseWriter.WriteHeader: the first call counts.
unfoldable pub write_header : ℕ → Reply → Reply
write_header code r = elim r.head [
  | none ↦ record r { head = some (record { status = code; content_type = r.content_type }) }
  | some _ ↦ r
]

abbrev pub write_from : List (Option String) → String → Reply → Result String (Unit {0}) × Reply
write_from [] text r = (ok tt, record r { body = r.body <> text })
write_from (none ∷ ws) text r = (ok tt, record r { body = r.body <> text; writes = ws })
write_from (some e ∷ ws) text r = (err e, record r { writes = ws })

-- ResponseWriter.Write, which sends the header 200 where none was sent
unfoldable pub write : String → Reply → Result String (Unit {0}) × Reply
unfolding write_header
write text r = write_from r.writes text (write_header 200 r)

-- http.Error
unfoldable pub http_error : String → ℕ → Reply → Reply
unfolding write_header write
http_error text code r =
    (write (text <> "\n")
      (write_header code (record r { content_type = some "text/plain; charset=utf-8" }))).1

-- httpx.PathID
unfoldable pub path_id : Libraries → Request → String → Result String Uuid
path_id lib r name =
    and_then (map_err (λ e. "parse " <> name <> ": " <> e) (lib.parse_uuid (r.path_value name)))
      λ id. if id == zero_id then err (name <> " must not be a zero UUID") else ok id

-- The error of a decoding, and its value.
abbrev pub decoded_value : {A : Type 0} → Decoded A → Result String A
decoded_value (decoded a) = ok a
decoded_value end_of_input = err "EOF"
decoded_value (malformed e) = err e

abbrev pub is_end : {A : Type 0} → Decoded A → Bool
is_end end_of_input = true
is_end _ = false

-- httpx.ReadJSON
unfoldable pub read_json : {A : Type 0} → Decoder A → Decoder (Unit {0}) → Body → Result String A
read_json decode decode_nothing body =
    let (first, rest) = decode body in
    let (second, _) = decode_nothing rest in
    and_then (map_err (λ e. "decode request body: " <> e) (decoded_value first))
      λ a. if is_end second then ok a else err "request body must contain a single JSON object"

abbrev pub write_payload : Result String String → ℕ → Reply → Result String (Unit {0}) × Reply
write_payload (err e) status r = (err e, r)
write_payload (ok text) status r =
    write text (write_header status (record r { content_type = some "application/json" }))

-- httpx.WriteJSON
unfoldable pub write_json : Libraries → ℕ → Payload → Reply → Result String (Unit {0}) × Reply
unfolding write_header write
write_json lib status value r = write_payload (lib.marshal value) status r
