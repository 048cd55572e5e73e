-- ===== src/User/Handler/Reading.antt =====
-- internal/user/handler.go: the handlers that only read.
use waypoint_be.Base.{◌≡◌, refl, ◌∙◌}
use waypoint_be.Session.{Session}
use waypoint_be.Http.{Request, JwtConfig, Libraries, path_id}
use waypoint_be.Http.Serving.{Exchange}
use waypoint_be.Http.Rules.{bind-Serves, served-end, At, checks-Serves, acts-Serves, sends-Serves}
use waypoint_be.User.Service
use waypoint_be.User.Service.Reading.{
  read_user-committed, list_users-committed, read_user_profile-committed,
}
use waypoint_be.User.Handler.{get_user, list_users, me}
use waypoint_be.User.Handler.Access.{Same}

module _ (lib : Libraries) (config : JwtConfig) (r : Request) where
  pub get_user-committed :
      (x : Exchange) → (get_user lib config r x).1.session.committed ≡ x.session.committed
  unfolding get_user
  get_user-committed x =
      let R : Session → Type 0 = Same lib config r x.session.committed in
      served-end {m = get_user lib config r}
        (bind-Serves (λ _. At R) (checks-Serves R R (path_id lib r "id") _ (λ s h. h))
          λ id.
            bind-Serves (λ _. At R)
              (acts-Serves R R (Service.read_user id) _ (λ s h. read_user-committed id s ∙ h))
              λ u. sends-Serves R lib 200 _ _)
        x refl

  pub list_users-unchanged :
      (x : Exchange) → (list_users lib config r x).1.session.committed ≡ x.session.committed
  unfolding list_users
  list_users-unchanged x =
      let R : Session → Type 0 = Same lib config r x.session.committed in
      served-end {m = list_users lib config r}
        (bind-Serves (λ _. At R)
          (acts-Serves R R Service.list_users _ (λ s h. list_users-committed s ∙ h))
          λ u. sends-Serves R lib 200 _ _)
        x refl

  pub me-committed : (x : Exchange) → (me lib config r x).1.session.committed ≡ x.session.committed
  unfolding me
  me-committed x =
      let R : Session → Type 0 = Same lib config r x.session.committed in
      served-end {m = me lib config r}
        (bind-Serves (λ _. At R) (checks-Serves R R _ _ (λ s h. h))
          λ c.
            bind-Serves (λ _. At R)
              (acts-Serves R R (Service.read_user_profile c.issuer c.subject) _
                (λ s h. read_user_profile-committed c.issuer c.subject s ∙ h))
              λ u. sends-Serves R lib 200 _ _)
        x refl
