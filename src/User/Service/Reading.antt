-- ===== src/User/Service/Reading.antt =====
-- internal/user/service.go, the methods that read users: they change nothing, and what
-- ReadUserByIdentity finds.
use waypoint_be.Base.{String, ◌≡◌, refl, ap, ◌∙◌, Option, map, arith, Result, ok, err}
use waypoint_be.Store.{Uuid, UserRow, Store, Query}
use waypoint_be.Store.Users
use waypoint_be.Store.Workspaces.{list_user_workspaces}
use waypoint_be.Session.{Session, Action, continue, ◌>>=◌, pure, on_error, query, wrap_driver}
use waypoint_be.Session.Statement.{query-read, query-faults, method-session, answered}
use waypoint_be.Session.Clear.{IsClear, IsClear-later}
use waypoint_be.User.{User, UserProfile, Error, user_from_row}
use waypoint_be.User.Service.{
  read_user, read_user_by_identity, read_user_profile, list_users, read_failure, membership,
}

one_row-read :
    {A : Type 0} (o : Option A) (st : Store) (a : A) (st' : Store)
    → Users.one_row o st ≡ ok (a, st')
    → st' ≡ st
one_row-read o st a st' h = ground arith

by_identity-read :
    (issuer subject : String) (st : Store) (a : UserRow) (st' : Store)
    → Users.select_user_by_identity issuer subject st ≡ ok (a, st')
    → st' ≡ st
unfolding Users.select_user_by_identity
by_identity-read issuer subject st a st' h = one_row-read _ st a st' h

pub read_user_by_identity-committed :
    (issuer subject : String) (s : Session)
    → (read_user_by_identity issuer subject s).1.committed ≡ s.committed
unfolding read_user_by_identity
read_user_by_identity-committed issuer subject s =
    let q : Query UserRow = Users.select_user_by_identity issuer subject in
    ap (λ t. t.committed) (method-session q (read_failure "read user by identity") user_from_row s)
    ∙ query-read q (by_identity-read issuer subject) s

pub read_user_by_identity-IsClear :
    (issuer subject : String) (s : Session)
    → IsClear s
    → IsClear (read_user_by_identity issuer subject s).1
unfolding read_user_by_identity
read_user_by_identity-IsClear issuer subject s h =
    let q : Query UserRow = Users.select_user_by_identity issuer subject in
    rw (method-session q (read_failure "read user by identity") user_from_row s, query-faults q s)
      (IsClear-later s.faults h)

pub read_user_by_identity-found :
    (issuer subject : String) (s : Session) (u : User)
    → (read_user_by_identity issuer subject s).0 ≡ ok u
    → (row : UserRow) × (user_from_row row ≡ u)
      × (Users.select_user_by_identity issuer subject s.committed ≡ ok (row, s.committed))
unfolding read_user_by_identity
read_user_by_identity-found issuer subject s u h =
    let q : Query UserRow = Users.select_user_by_identity issuer subject in
    let (row, same, took) = answered q (read_failure "read user by identity") user_from_row s u h in
    (row, same, took ∙ ap (λ st. ok (row, st)) (read_user_by_identity-committed issuer subject s))

pub read_user-committed : (id : Uuid) (s : Session) → (read_user id s).1.committed ≡ s.committed
unfolding read_user Users.select_user
read_user-committed id s =
    let q : Query UserRow = Users.select_user id in
    ap (λ t. t.committed) (method-session q (read_failure "read user") user_from_row s)
    ∙ query-read q (λ st a st' h. one_row-read _ st a st' h) s

pub list_users-committed : (s : Session) → (list_users s).1.committed ≡ s.committed
unfolding list_users Users.list_users
list_users-committed s =
    ap (λ t. t.committed)
      (method-session Users.list_users (wrap_driver "list users") (map user_from_row) s)
    ∙ query-read Users.list_users (λ st a st' h. ground arith) s

-- The workspaces of a profile.
abbrev listing : User → Action Error UserProfile
listing user = do
  workspaces ← on_error (wrap_driver "list user workspaces") (query (list_user_workspaces user.id))
  pure (record { user = user; workspace_memberships = map membership workspaces })

listing-committed : (u : User) (s : Session) → (listing u s).1.committed ≡ s.committed
unfolding list_user_workspaces
listing-committed u s =
    ap (λ t. t.committed)
      (method-session (list_user_workspaces u.id) (wrap_driver "list user workspaces")
        (λ ws. record { user = u; workspace_memberships = map membership ws }) s)
    ∙ query-read (list_user_workspaces u.id) (λ st a st' h. ground arith) s

pub read_user_profile-committed :
    (issuer subject : String) (s : Session)
    → (read_user_profile issuer subject s).1.committed ≡ s.committed
unfolding read_user_profile
read_user_profile-committed issuer subject s =
    go (read_user_by_identity issuer subject s) ∙ read_user_by_identity-committed issuer subject s
  where
    go : (x : Result Error User × Session) → (continue listing x).1.committed ≡ x.1.committed
    go (ok u, t) = listing-committed u t
    go (err e, t) = refl
