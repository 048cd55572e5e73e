-- ===== src/User/Handler/Answers.antt =====
-- internal/user/handler.go and Service.GetActorID: the status that each handler answers with.
use waypoint_be.Base.{
  ℕ, String, ◌≡◌, refl, Bool, true, false, ◌||◌, some, map, if◌then◌else◌, any, ◌<>◌,
}
use waypoint_be.Store.{Uuid, Time}
use waypoint_be.Session.{other}
use waypoint_be.Http.{
  Request, created_user, one_user, all_users, profile, JwtConfig, Libraries, Head, Reply,
  http_error, path_id, read_json,
}
use waypoint_be.Http.Serving.{Exchange}
use waypoint_be.Http.Rules.{going, Serves, bind-Serves, served-end}
use waypoint_be.Http.Answers.{
  is_refusal, Unanswered, Refuses, error-Refuses, Waiting, Ended, check-Answered, act-Answered,
  header-Answered, send-Answered,
}
use waypoint_be.Middleware.{extract_and_validate_jwt}
use waypoint_be.User.{
  forbidden, not_found, user_name_taken, email_taken, identity_taken, invalid_id, invalid_user_name,
  invalid_email, invalid_display_name, invalid_identity, Error, user_error_text,
}
use waypoint_be.User.Service
use waypoint_be.User.Handler.{
  get_actor_id, unresolved, create_user, get_user, list_users, me, delete_user, unauthorized,
  write_error, write_failed, write_read_error, public_error, created, shown, me_response, errors_is,
}

either-Refuses :
    {E : Type 0} (b : E → Bool) {f g : E → Reply → Reply}
    → Refuses f
    → Refuses g
    → Refuses (λ e. if b e then f e else g e)
either-Refuses {E} b {f} {g} t u = record {
  code = λ e. if b e then t.code e else u.code e;
  refused = λ e. refused e (b e);
  fresh = λ e r h. fresh e (b e) r h;
  kept = λ e r h k. kept e (b e) r h k;
}
  where
    refused : (e : E) (c : Bool) → is_refusal (if c then t.code e else u.code e) ≡ true
    refused e true = t.refused e
    refused e false = u.refused e

    fresh :
        (e : E) (c : Bool) (r : Reply)
        → Unanswered r
        → (h : Head) × (h.status ≡ (if c then t.code e else u.code e))
          × (((if c then f e else g e) r).head ≡ some h)
    fresh e true r h = t.fresh e r h
    fresh e false r h = u.fresh e r h

    kept :
        (e : E) (c : Bool) (r : Reply) (h : Head)
        → r.head ≡ some h
        → ((if c then f e else g e) r).head ≡ some h
    kept e true r h k = t.kept e r h k
    kept e false r h k = u.kept e r h k

module _ {E : Type 0} where
  pub unauthorized-Refuses : Refuses (unauthorized {E = E})
  unfolding is_refusal any
  unauthorized-Refuses = error-Refuses (λ _. "Unauthorized") (λ _. 401) (λ _. refl)

pub unresolved-Refuses : Refuses unresolved
unfolding unresolved is_refusal any
unresolved-Refuses =
    either-Refuses (errors_is not_found)
      (error-Refuses (λ _. user_error_text forbidden) (λ _. 403) (λ _. refl))
      (error-Refuses (λ _. "internal server error") (λ _. 500) (λ _. refl))

-- A choice between two refusals.
pub either-code :
    (b : Bool) (x y : ℕ × String)
    → is_refusal x.0 ≡ true
    → is_refusal y.0 ≡ true
    → is_refusal (if b then x else y).0 ≡ true
either-code true x y h k = h
either-code false x y h k = k

module _ (lib : Libraries) where
  public_error-code : (e : Error) → is_refusal (public_error lib e).0 ≡ true
  unfolding public_error is_refusal any
  public_error-code e = either-code (errors_is forbidden e) _ _ refl (
      either-code (errors_is not_found e) _ _ refl (
        either-code
          (errors_is email_taken e || errors_is user_name_taken e || errors_is identity_taken e) _ _
          refl
          (either-code
            (errors_is invalid_email e
              || errors_is invalid_user_name e
              || errors_is invalid_display_name e
              || errors_is invalid_identity e
              || errors_is invalid_id e)
            _ _ refl refl)))

  pub write_error-Refuses : Refuses (write_error lib)
  unfolding write_error
  write_error-Refuses =
      error-Refuses (λ e. (public_error lib e).1) (λ e. (public_error lib e).0) public_error-code

  pub write_read_error-Refuses : Refuses (write_read_error lib)
  unfolding write_read_error is_refusal any
  write_read_error-Refuses =
      either-Refuses (errors_is not_found)
        (error-Refuses (λ _. user_error_text not_found) (λ _. 404) (λ _. refl)) write_error-Refuses

  -- A refusal for an error that is made into another.
  pub failed-Refuses : Refuses (write_failed lib)
  unfolding write_error
  failed-Refuses =
      error-Refuses (λ e. (public_error lib (other e)).1) (λ e. (public_error lib (other e)).0)
        λ e. public_error-code (other e)

pub invalid_path-Refuses : {E : Type 0} (text : String) → Refuses {E = E} (λ _. http_error text 400)
unfolding is_refusal any
invalid_path-Refuses text = error-Refuses (λ _. text) (λ _. 400) (λ _. refl)

pub invalid_body-Refuses :
    Refuses {E = String} (λ e. http_error ("invalid request body: " <> e) 400)
unfolding is_refusal any
invalid_body-Refuses = error-Refuses (λ e. "invalid request body: " <> e) (λ _. 400) (λ _. refl)

module _ (lib : Libraries) (config : JwtConfig) (r : Request) where
  pub get_actor_id-Answered :
      (success : ℕ) → Serves Waiting (get_actor_id lib config r) (λ _. Waiting) (Ended success)
  unfolding get_actor_id
  get_actor_id-Answered success =
      bind-Serves (λ _. Waiting)
        (check-Answered success (extract_and_validate_jwt lib r config) unauthorized
          unauthorized-Refuses)
        λ c.
          bind-Serves (λ _. Waiting)
            (act-Answered success (Service.read_user_by_identity c.issuer c.subject) unresolved
              unresolved-Refuses)
            λ u. record { run = λ x h. going u.id x h }

  pub create_user-Answered :
      (user_id identity_id : Uuid) (now : Time) (x : Exchange)
      → Waiting x
      → Ended 201 (create_user lib config r user_id identity_id now x).1
  unfolding create_user
  create_user-Answered user_id identity_id now x u =
      served-end {m = create_user lib config r user_id identity_id now}
        (bind-Serves (λ _. Waiting)
          (check-Answered 201 (extract_and_validate_jwt lib r config) unauthorized
            unauthorized-Refuses)
          λ c.
            bind-Serves (λ _. Waiting)
              (check-Answered 201 (read_json lib.decode_user lib.decode_nothing r.body) _
                invalid_body-Refuses)
              λ request.
                bind-Serves (λ _. Waiting)
                  (act-Answered 201 _ (write_error lib) (write_error-Refuses lib))
                  λ v.
                    send-Answered 201 lib (created_user (created lib config r v)) (write_failed lib)
                      (failed-Refuses lib))
        x u

  pub get_user-Answered : (x : Exchange) → Waiting x → Ended 200 (get_user lib config r x).1
  unfolding get_user
  get_user-Answered x u =
      served-end {m = get_user lib config r}
        (bind-Serves (λ _. Waiting)
          (check-Answered 200 (path_id lib r "id") _
            (invalid_path-Refuses (user_error_text invalid_id)))
          λ id.
            bind-Serves (λ _. Waiting)
              (act-Answered 200 (Service.read_user id) (write_read_error lib)
                (write_read_error-Refuses lib))
              λ v.
                send-Answered 200 lib (one_user (shown lib config r v)) (write_failed lib)
                  (failed-Refuses lib))
        x u

  pub list_users-Answered : (x : Exchange) → Waiting x → Ended 200 (list_users lib config r x).1
  unfolding list_users
  list_users-Answered x u =
      served-end {m = list_users lib config r}
        (bind-Serves (λ _. Waiting)
          (act-Answered 200 Service.list_users (write_error lib) (write_error-Refuses lib))
          λ v.
            send-Answered 200 lib (all_users (record { users = map (shown lib config r) v }))
              (write_failed lib) (failed-Refuses lib))
        x u

  pub me-Answered : (x : Exchange) → Waiting x → Ended 200 (me lib config r x).1
  unfolding me
  me-Answered x u =
      served-end {m = me lib config r}
        (bind-Serves (λ _. Waiting)
          (check-Answered 200 (extract_and_validate_jwt lib r config) unauthorized
            unauthorized-Refuses)
          λ c.
            bind-Serves (λ _. Waiting)
              (act-Answered 200 (Service.read_user_profile c.issuer c.subject)
                (write_read_error lib) (write_read_error-Refuses lib))
              λ v.
                send-Answered 200 lib (profile (me_response lib config r v)) (write_failed lib)
                  (failed-Refuses lib))
        x u

  pub delete_user-Answered : (x : Exchange) → Waiting x → Ended 204 (delete_user lib config r x).1
  unfolding delete_user
  delete_user-Answered x u =
      served-end {m = delete_user lib config r}
        (bind-Serves (λ _. Waiting) (get_actor_id-Answered 204)
          λ actor_id.
            bind-Serves (λ _. Waiting)
              (check-Answered 204 (path_id lib r "id") _
                (invalid_path-Refuses (user_error_text invalid_id)))
              λ user_id.
                bind-Serves (λ _. Waiting)
                  (act-Answered 204
                    (Service.delete_user (record { user_id = user_id; actor_id = actor_id }))
                    (write_error lib) (write_error-Refuses lib))
                  λ _. header-Answered 204)
        x u
