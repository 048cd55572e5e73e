-- ===== src/User/Service/Identity.antt =====
-- internal/user/service.go, Service.ReadUserByIdentity after Service.CreateUser: the user of the
-- new identity.
use waypoint_be.Base.{
  trim_space, ap, ◌≡◌, ◌∙◌, Bool, false, ◌&&◌, some, [], ◌∷◌, ◌++◌, eq_refl, arith, ◌==◌, any,
  find?, any-append, any-single, find?-last, any-false_mono, ok,
}
use waypoint_be.Store.{Uuid, Time, UserRow, UserIdentityRow, Store}
use waypoint_be.Store.Users
use waypoint_be.Store.Users.{has_identity, is_identity}
use waypoint_be.Session.{Session, query}
use waypoint_be.Session.Healthy.{healthy}
use waypoint_be.User.{User, CreateUserInput, user_from_row}
use waypoint_be.User.Service.{create_user, read_user_by_identity, read_user}
use waypoint_be.User.Service.Registration.{Registered, create_user-Done}

module _ (user_id identity_id : Uuid) (now : Time) (input : CreateUserInput) (before : Store)
    (absent : any (is_identity input.identity.issuer input.identity.subject) before.identities
      ≡ false) where
  abbrev new_row : UserIdentityRow
  new_row = record {
    id = identity_id;
    user_id = user_id;
    issuer = input.identity.issuer;
    subject = input.identity.subject;
    created_at = now;
  }

  -- The user has the identity among the rows with the new one.
  abbrev matches : UserRow → Bool
  matches u =
      any (λ i. is_identity input.identity.issuer input.identity.subject i && i.user_id == u.id)
        (before.identities ++ new_row ∷ [])

  matches-new : (u : UserRow) → matches u ≡ (user_id == u.id)
  matches-new u =
      any-append _ before.identities (new_row ∷ [])
      ∙ ground (
        arith,
        any-single
            (λ i. is_identity input.identity.issuer input.identity.subject i && i.user_id == u.id)
            new_row,
        any-false_mono
            (λ i. is_identity input.identity.issuer input.identity.subject i && i.user_id == u.id)
            (is_identity input.identity.issuer input.identity.subject) before.identities
            (λ i h. ground arith) absent,
        eq_refl input.identity.issuer,
        eq_refl input.identity.subject,
      )

  only_new : any (λ r. r.id == user_id) before.users ≡ false → any matches before.users ≡ false
  only_new h =
      any-false_mono matches (λ r. r.id == user_id) before.users
        (λ u m. ground (arith, matches-new u)) h

-- The identity is the new user's and no other's.
identity_found :
    (user_id identity_id : Uuid) (now : Time) (input : CreateUserInput) (before after : Store)
    (row : UserRow)
    → Registered user_id identity_id now input before after row
    → find? (has_identity input.identity.issuer input.identity.subject after) after.users ≡ some row
identity_found user_id identity_id now input before after row d = rw d.tables (
    find?-last (matches user_id identity_id now input before d.new_identity) before.users row
      (only_new user_id identity_id now input before d.new_identity d.new_user)
      (matches-new user_id identity_id now input before d.new_identity row
        ∙ ground (arith, d.user_row)))

-- The new row is the one with the new id.
new_found :
    (user_id identity_id : Uuid) (now : Time) (input : CreateUserInput) (before after : Store)
    (row : UserRow)
    → Registered user_id identity_id now input before after row
    → find? (λ r. r.id == user_id) after.users ≡ some row
new_found user_id identity_id now input before after row d =
    rw d.tables
      (find?-last (λ r. r.id == user_id) before.users row d.new_user (ground (arith, d.user_row)))

-- A user that CreateUser returned, on any session, is what ReadUserByIdentity then returns for
-- the input's issuer and subject when its driver calls are served.
pub create_user-read_user_by_identity :
    (user_id identity_id : Uuid) (now : Time) (input : CreateUserInput) (s : Session) (u : User)
    → (create_user user_id identity_id now input s).0 ≡ ok u
    → (read_user_by_identity input.identity.issuer input.identity.subject
        (healthy (create_user user_id identity_id now input s).1.committed)).0
      ≡ ok u
unfolding read_user_by_identity query Users.select_user_by_identity
create_user-read_user_by_identity user_id identity_id now input s u e =
    let (row, same, d) = create_user-Done user_id identity_id now input s u e in
    ground (arith, identity_found user_id identity_id now input s.committed _ row d)

-- The user that a registration makes.
abbrev pub registered_user : Uuid → Time → CreateUserInput → User
registered_user user_id now input = record {
  id = user_id;
  email = trim_space input.email;
  user_name = trim_space input.user_name;
  display_name = trim_space input.display_name;
  created_at = now;
}

-- A user that CreateUser returned has the id and the trimmed fields, and ReadUser then returns it.
pub create_user-read_user :
    (user_id identity_id : Uuid) (now : Time) (input : CreateUserInput) (s : Session) (u : User)
    → (create_user user_id identity_id now input s).0 ≡ ok u
    → (u ≡ registered_user user_id now input)
      × ((read_user user_id (healthy (create_user user_id identity_id now input s).1.committed)).0
          ≡ ok u)
unfolding read_user query Users.select_user user_from_row
create_user-read_user user_id identity_id now input s u e =
    let (row, same, d) = create_user-Done user_id identity_id now input s u e in
    let found = new_found user_id identity_id now input s.committed _ row d in
    (same ∙ ap user_from_row d.user_row, ground (arith, found))
