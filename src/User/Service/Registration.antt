-- ===== src/User/Service/Registration.antt =====
-- internal/user/service.go, Service.CreateUser: the tables that it leaves, and the contract of the
-- memberships.
use waypoint_be.Base.{
  ◌≡◌, refl, ◌⊎◌, inl, inr, false, ◌||◌, [], ◌∷◌, ◌++◌, str_eq, arith, ◌==◌, any, any-append,
  is_empty, trim_space, ok,
}
use waypoint_be.Store.{Uuid, Time, UserRow, UserIdentityRow, Store, has_user}
use waypoint_be.Store.Users
use waypoint_be.Store.Users.{is_identity}
use waypoint_be.Session.{Session, Action, ◌>>=◌, on_error, exec, sentinel, rollback_first, with_tx}
use waypoint_be.Session.Rules.{
  returned, Triple, pure-Triple, bind-Triple, on_error-Triple, reject-Triple, Kept, During,
  statement-Triple, commit-Triple, with_tx_from-Triple, ends_from-Kept,
}
use waypoint_be.Session.Results.{Any, commit_now-Triple, with_tx_into-Triple, ends_ok}
use waypoint_be.Membership.{IsValid}
use waypoint_be.User.{
  invalid_user_name, invalid_email, invalid_display_name, invalid_identity, Error, User,
  CreateUserInput, user_from_row,
}
use waypoint_be.User.Service.{
  create_user, create_body, trimmed, create_user_failure, create_identity_failure, commit_tx,
}

-- What a registration does to the tables: one user, with the fields trimmed, and one identity of
-- that user, as the token gives it; neither was there.
pub record Registered (user_id identity_id : Uuid) (now : Time) (input : CreateUserInput)
    (before after : Store) (row : UserRow) : Type 0 where
  pub user_row : row ≡ record {
    id = user_id;
    email = trim_space input.email;
    user_name = trim_space input.user_name;
    display_name = trim_space input.display_name;
    created_at = now;
  }
  pub new_user : has_user user_id before ≡ false
  pub new_email : any (λ r. str_eq r.email (trim_space input.email)) before.users ≡ false
  pub new_name : any (λ r. str_eq r.user_name (trim_space input.user_name)) before.users ≡ false
  pub new_identity :
      any (is_identity input.identity.issuer input.identity.subject) before.identities ≡ false
  pub tables : after ≡ record before {
    users = before.users ++ row ∷ [];
    identities =
        before.identities
        ++ record {
          id = identity_id;
          user_id = user_id;
          issuer = input.identity.issuer;
          subject = input.identity.subject;
          created_at = now;
        }
          ∷ [];
  }

module _ (user_id identity_id : Uuid) (now : Time) (input : CreateUserInput) (before : Store) where
  abbrev pub Done : Store → UserRow → Type 0
  Done after row = Registered user_id identity_id now input before after row

  -- After the first insertion.
  record Half (after : Store) (row : UserRow) : Type 0 where
    user_row : row ≡ record {
      id = user_id;
      email = trim_space input.email;
      user_name = trim_space input.user_name;
      display_name = trim_space input.display_name;
      created_at = now;
    }
    new_user : has_user user_id before ≡ false
    new_email : any (λ r. str_eq r.email (trim_space input.email)) before.users ≡ false
    new_name : any (λ r. str_eq r.user_name (trim_space input.user_name)) before.users ≡ false
    tables : after ≡ record before { users = before.users ++ row ∷ [] }

  first-Half :
      (row : UserRow) (st' : Store)
      → Users.create_user (trimmed user_id input) now before ≡ ok (row, st')
      → Half st' row
  unfolding Users.create_user
  first-Half row st' h = ground arith

  abbrev identity_of : UserRow → Users.CreateUserIdentityParams
  identity_of row = record {
    id = identity_id;
    user_id = row.id;
    issuer = input.identity.issuer;
    subject = input.identity.subject;
  }

  second-Done :
      (st st' : Store) (row : UserRow) (i : UserIdentityRow)
      → Half st row
      → Users.create_user_identity (identity_of row) now st ≡ ok (i, st')
      → Done st' row
  unfolding Users.create_user_identity
  second-Done st st' row i k h = record {
    user_row = k.user_row;
    new_user = k.new_user;
    new_email = k.new_email;
    new_name = k.new_name;
    new_identity = ground (arith, k.tables);
    tables = ground (arith, k.tables, k.user_row);
  }

  module _ (Inv : Store → Type 0) where
    -- The body up to its commit, and then.
    inserts-Triple :
        {A : Type 0} {Q : A → Session → Type 0} (rest : UserRow → Action Error A)
        → ((row : UserRow) → Triple (During Inv (λ st. Done st row)) (rest row) Q (λ _. Kept Inv))
        → Triple
            (During Inv (λ st. st ≡ before))
            (on_error create_user_failure (exec (Users.create_user (trimmed user_id input) now))
              >>= λ u.
                  on_error create_identity_failure
                    (exec (Users.create_user_identity (identity_of u) now))
                  >>= λ _. rest u)
            Q
            (λ _. Kept Inv)
    inserts-Triple rest t =
        bind-Triple (λ row. During Inv (λ st. Half st row))
          (statement-Triple Inv (Users.create_user (trimmed user_id input) now) (λ st. st ≡ before)
            _ (λ st e row st' h. first-Half row st' (rw e at h)) create_user_failure)
          λ row.
            bind-Triple (λ _. During Inv (λ st. Done st row))
              (statement-Triple Inv (Users.create_user_identity (identity_of row) now)
                (λ st. Half st row) (λ _ st. Done st row)
                (λ st k i st' h. second-Done st st' row i k h) create_identity_failure)
              λ _. t row

  abbrev Only : Store → Type 0
  Only st = (st ≡ before) ⊎ ((row : UserRow) × Done st row)

  create_body-Only :
      Triple
        (During Only (λ st. st ≡ before))
        (create_body user_id identity_id now input)
        (λ _. Kept Only)
        (λ _. Kept Only)
  unfolding create_body commit_tx
  create_body-Only = inserts-Triple Only _ λ row.
      bind-Triple (λ _. Kept Only)
        (on_error-Triple _ (Kept Only)
          (commit-Triple Only (λ st. Done st row) (λ st d. inr (row, d))))
        λ _. pure-Triple (λ _. Kept Only) _ (user_from_row row)

  -- A returned user is that of the row, and the tables are those of the registration.
  abbrev pub Result-Done : User → Store → Type 0
  Result-Done u st = (row : UserRow) × (u ≡ user_from_row row) × Done st row

  create_body-Done :
      Triple
        (During Any (λ st. st ≡ before))
        (create_body user_id identity_id now input)
        (λ u s. Result-Done u s.committed)
        (λ _. Kept Any)
  unfolding create_body commit_tx
  create_body-Done = inserts-Triple Any _ λ row.
      bind-Triple (λ _ s. Done s.committed row)
        (on_error-Triple _ (Kept Any) (commit_now-Triple (λ st. Done st row)))
        λ _. record { run = λ s d. returned (user_from_row row) s (row, refl, d) }

-- The checks of the fields, before the transaction.
checked-Triple :
    (user_id identity_id : Uuid) (now : Time) (input : CreateUserInput) {P : Session → Type 0}
    {Q : User → Session → Type 0} {R : Error → Session → Type 0}
    → ((e : Error) (s : Session) → P s → R e s)
    → Triple P
        (with_tx rollback_first "begin transaction" (create_body user_id identity_id now input))
        Q
        R
    → Triple P (create_user user_id identity_id now input) Q R
unfolding create_user
checked-Triple user_id identity_id now input r t =
    reject-Triple (is_empty (trim_space input.email)) (sentinel invalid_email) (r _) λ _.
      reject-Triple (is_empty (trim_space input.user_name)) (sentinel invalid_user_name) (r _) λ _.
        reject-Triple (is_empty (trim_space input.display_name)) (sentinel invalid_display_name)
          (r _)
          λ _.
            reject-Triple
              (is_empty (trim_space input.identity.issuer)
                || is_empty (trim_space input.identity.subject))
              (sentinel invalid_identity) (r _) λ _. t

-- On any session, CreateUser leaves the committed tables as they were, or the id, email, user
-- name and identity were all free and the committed tables have exactly one more user, with the
-- trimmed texts of the input, and one more identity.
pub create_user-Registered :
    (user_id identity_id : Uuid) (now : Time) (input : CreateUserInput) (s : Session)
    → let after = (create_user user_id identity_id now input s).1.committed in
      (after ≡ s.committed)
      ⊎ ((row : UserRow) × Registered user_id identity_id now input s.committed after row)
create_user-Registered user_id identity_id now input s =
    let O = Only user_id identity_id now input s.committed in
    ends_from-Kept O (λ t. t.committed ≡ s.committed)
      (checked-Triple user_id identity_id now input (λ e t h. inl h)
        (with_tx_from-Triple O (λ st. st ≡ s.committed) (λ st e. inl e) rollback_first _
          (create_body-Only user_id identity_id now input s.committed)))
      s refl

pub create_user-Done :
    (user_id identity_id : Uuid) (now : Time) (input : CreateUserInput) (s : Session) (u : User)
    → (create_user user_id identity_id now input s).0 ≡ ok u
    → Result-Done user_id identity_id now input s.committed u
        (create_user user_id identity_id now input s).1.committed
create_user-Done user_id identity_id now input s u e =
    ends_ok (λ t. t.committed ≡ s.committed) (Result-Done user_id identity_id now input s.committed)
      (checked-Triple user_id identity_id now input (λ e t h. tt)
        (with_tx_into-Triple (λ st. st ≡ s.committed)
          (Result-Done user_id identity_id now input s.committed) rollback_first _
          (create_body-Done user_id identity_id now input s.committed)))
      s u refl e

-- A registration keeps the contract of the membership tables.
Registered-IsValid :
    (user_id identity_id : Uuid) (now : Time) (input : CreateUserInput) (before after : Store)
    (row : UserRow)
    → Registered user_id identity_id now input before after row
    → IsValid before
    → IsValid after
Registered-IsValid user_id identity_id now input before after row d v = rw d.tables (record {
  one_owner = v.one_owner;
  workspace_exists = v.workspace_exists;
  user_exists =
      λ u h. v.user_exists u (ground (arith, any-append (λ r. r.id == u) before.users (row ∷ [])));
  stands_once = v.stands_once;
})

-- CreateUser keeps valid tables valid, on every branch and whatever befalls its driver calls.
pub create_user-IsValid :
    (user_id identity_id : Uuid) (now : Time) (input : CreateUserInput) (s : Session)
    → IsValid s.committed
    → IsValid (create_user user_id identity_id now input s).1.committed
create_user-IsValid user_id identity_id now input s v =
    elim (create_user-Registered user_id identity_id now input s) [
      | inl same ↦ rw same v
      | inr (row, d) ↦ Registered-IsValid user_id identity_id now input s.committed _ row d v
    ]
