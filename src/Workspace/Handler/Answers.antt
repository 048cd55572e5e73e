-- ===== src/Workspace/Handler/Answers.antt =====
-- internal/workspace/handler.go: the status that each handler answers with, and what an answer to an
-- error shows of it.
use waypoint_be.Base.{
  ℕ, String, ◌≡◌, refl, Bool, true, false, List, [], ◌∷◌, map, str_eq, if◌then◌else◌, any,
}
use waypoint_be.Store.{Uuid, Time}
use waypoint_be.Session.{other}
use waypoint_be.Http.{Request, workspace, member, JwtConfig, Libraries, path_id, read_json}
use waypoint_be.Http.Serving.{Exchange, Serving, ◌>>=◌}
use waypoint_be.Http.Rules.{Serves, bind-Serves, served-end}
use waypoint_be.Http.Answers.{
  is_refusal, Refuses, error-Refuses, Waiting, Ended, check-Answered, act-Answered, header-Answered,
  send-Answered,
}
use waypoint_be.User.Handler.{get_actor_id}
use waypoint_be.User.Handler.Answers.{
  get_actor_id-Answered, invalid_path-Refuses, invalid_body-Refuses, either-code,
}
use waypoint_be.Workspace.{
  forbidden, workspace_not_found, workspace_member_not_found, user_not_found, invalid_id,
  invalid_name, already_member, owner_removal, Error, workspace_error_text,
}
use waypoint_be.Workspace.Service
use waypoint_be.Workspace.Handler.{
  path_part, create_workspace, get_workspace, add_workspace_member, remove_workspace_member,
  delete_workspace, write_error, write_failed, public_error, errors_is,
}

public_error-code : (e : Error) → is_refusal (public_error e).0 ≡ true
unfolding public_error is_refusal any
public_error-code e = either-code (errors_is forbidden e) _ _ refl (
    either-code (errors_is invalid_id e) _ _ refl (
      either-code (errors_is invalid_name e) _ _ refl (
        either-code (errors_is workspace_not_found e) _ _ refl (
          either-code (errors_is workspace_member_not_found e) _ _ refl (
            either-code (errors_is user_not_found e) _ _ refl (
              either-code (errors_is already_member e) _ _ refl
                (either-code (errors_is owner_removal e) _ _ refl refl)))))))

pub write_error-Refuses : Refuses write_error
unfolding write_error
write_error-Refuses =
    error-Refuses (λ e. (public_error e).1) (λ e. (public_error e).0) public_error-code

pub failed-Refuses : Refuses write_failed
unfolding write_error
failed-Refuses =
    error-Refuses (λ e. (public_error (other e)).1) (λ e. (public_error (other e)).0)
      λ e. public_error-code (other e)

module _ (lib : Libraries) (config : JwtConfig) (r : Request) (success : ℕ) where
  actor_first :
      {A : Type 0} {rest : Uuid → Serving A}
      → ((id : Uuid) → Serves Waiting (rest id) (λ _. Ended success) (Ended success))
      → Serves Waiting (get_actor_id lib config r >>= rest) (λ _. Ended success) (Ended success)
  actor_first t = bind-Serves (λ _. Waiting) (get_actor_id-Answered lib config r success) t

  path_next :
      {A : Type 0} (name : String) {rest : Uuid → Serving A}
      → ((id : Uuid) → Serves Waiting (rest id) (λ _. Ended success) (Ended success))
      → Serves Waiting (path_part lib config r name >>= rest) (λ _. Ended success) (Ended success)
  path_next name t =
      bind-Serves (λ _. Waiting)
        (check-Answered success (path_id lib r name) _
          (invalid_path-Refuses (workspace_error_text invalid_id)))
        t

module _ (lib : Libraries) (config : JwtConfig) (r : Request) where
  pub create_workspace-Answered :
      (fresh : Uuid) (now : Time) (x : Exchange)
      → Waiting x
      → Ended 201 (create_workspace lib config r fresh now x).1
  unfolding create_workspace
  create_workspace-Answered fresh now x u =
      served-end {m = create_workspace lib config r fresh now}
        (actor_first lib config r 201 λ actor_id.
          bind-Serves (λ _. Waiting)
            (check-Answered 201 (read_json lib.decode_workspace lib.decode_nothing r.body) _
              invalid_body-Refuses)
            λ request.
              bind-Serves (λ _. Waiting) (act-Answered 201 _ write_error write_error-Refuses)
                λ y. send-Answered 201 lib (workspace y) write_failed failed-Refuses)
        x u

  pub get_workspace-Answered :
      (x : Exchange) → Waiting x → Ended 200 (get_workspace lib config r x).1
  unfolding get_workspace
  get_workspace-Answered x u =
      served-end {m = get_workspace lib config r}
        (actor_first lib config r 200 λ actor_id.
          path_next lib config r 200 "workspace_id" λ workspace_id.
            bind-Serves (λ _. Waiting)
              (act-Answered 200
                (Service.read_workspace
                  (record { workspace_id = workspace_id; actor_id = actor_id }))
                write_error write_error-Refuses)
              λ y. send-Answered 200 lib (workspace y) write_failed failed-Refuses)
        x u

  pub add_workspace_member-Answered :
      (now : Time) (x : Exchange)
      → Waiting x
      → Ended 201 (add_workspace_member lib config r now x).1
  unfolding add_workspace_member
  add_workspace_member-Answered now x u =
      served-end {m = add_workspace_member lib config r now}
        (actor_first lib config r 201 λ actor_id.
          path_next lib config r 201 "workspace_id" λ workspace_id.
            path_next lib config r 201 "user_id" λ user_id.
              bind-Serves (λ _. Waiting) (act-Answered 201 _ write_error write_error-Refuses)
                λ y. send-Answered 201 lib (member y) write_failed failed-Refuses)
        x u

  pub remove_workspace_member-Answered :
      (x : Exchange) → Waiting x → Ended 204 (remove_workspace_member lib config r x).1
  unfolding remove_workspace_member
  remove_workspace_member-Answered x u =
      served-end {m = remove_workspace_member lib config r}
        (actor_first lib config r 204 λ actor_id.
          path_next lib config r 204 "workspace_id" λ workspace_id.
            path_next lib config r 204 "user_id" λ user_id.
              bind-Serves (λ _. Waiting) (act-Answered 204 _ write_error write_error-Refuses)
                λ _. header-Answered 204)
        x u

  pub delete_workspace-Answered :
      (x : Exchange) → Waiting x → Ended 204 (delete_workspace lib config r x).1
  unfolding delete_workspace
  delete_workspace-Answered x u =
      served-end {m = delete_workspace lib config r}
        (actor_first lib config r 204 λ actor_id.
          path_next lib config r 204 "workspace_id" λ workspace_id.
            bind-Serves (λ _. Waiting) (act-Answered 204 _ write_error write_error-Refuses)
              λ _. header-Answered 204)
        x u

-- The texts that writeError may send.
pub public_texts : List String
public_texts =
    "internal server error"
    ∷ map workspace_error_text (
        forbidden ∷ invalid_id ∷ invalid_name ∷ workspace_not_found ∷ workspace_member_not_found
        ∷ user_not_found ∷ already_member ∷ owner_removal ∷ [])

-- One of those texts.
pub is_public : String → Bool
unfolding public_texts
is_public text = any (λ t. str_eq t text) public_texts

either-public :
    (b : Bool) (x y : ℕ × String)
    → is_public x.1 ≡ true
    → is_public y.1 ≡ true
    → is_public (if b then x else y).1 ≡ true
either-public true x y h k = h
either-public false x y h k = k

-- For every error, the text that the workspace handlers' writeError sends is the text of one of
-- the sentinels or `internal server error`: nothing of the driver's or of a wrapping error
-- reaches the client.
pub public_error-texts : (e : Error) → is_public (public_error e).1 ≡ true
unfolding public_error is_public public_texts any
public_error-texts e = either-public (errors_is forbidden e) _ _ refl (
    either-public (errors_is invalid_id e) _ _ refl (
      either-public (errors_is invalid_name e) _ _ refl (
        either-public (errors_is workspace_not_found e) _ _ refl (
          either-public (errors_is workspace_member_not_found e) _ _ refl (
            either-public (errors_is user_not_found e) _ _ refl (
              either-public (errors_is already_member e) _ _ refl
                (either-public (errors_is owner_removal e) _ _ refl refl)))))))
