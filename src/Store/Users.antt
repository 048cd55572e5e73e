-- ===== src/Store/Users.antt =====
-- The statements of internal/db/sqlc/users.sql.go and user_identities.sql.go, with the constraints
-- of the tables `users` and `user_identities`.
use waypoint_be.Base.{
  ℕ, String, Bool, not, ◌&&◌, Option, none, some, List, [], ◌∷◌, ◌++◌, str_eq, ◌==◌, if◌then◌else◌,
  filter, any, find?, count, order_by, Result, ok, err,
}
use waypoint_be.Store.{
  Uuid, Time, UserRow, UserIdentityRow, Store, DbError, no_rows, unique_violation,
  foreign_key_violation, restrict_violation, Query, has_user,
}

pub record CreateUserParams : Type 0 where
  pub id : Uuid
  pub email : String
  pub user_name : String
  pub display_name : String

unfoldable pub create_user : CreateUserParams → Time → Query UserRow
create_user arg now st =
    let row : UserRow = record {
      id = arg.id;
      email = arg.email;
      user_name = arg.user_name;
      display_name = arg.display_name;
      created_at = now;
    } in
    if has_user arg.id st
    then err (unique_violation "users_pkey")
    else if any (λ r. str_eq r.email arg.email) st.users
    then err (unique_violation "users_email_unique")
    else if any (λ r. str_eq r.user_name arg.user_name) st.users
    then err (unique_violation "users_user_name_unique")
    else ok (row, record st { users = st.users ++ row ∷ [] })

pub record CreateUserIdentityParams : Type 0 where
  pub id : Uuid
  pub user_id : Uuid
  pub issuer : String
  pub subject : String

abbrev pub is_identity : String → String → UserIdentityRow → Bool
is_identity issuer subject i = str_eq i.issuer issuer && str_eq i.subject subject

unfoldable pub create_user_identity : CreateUserIdentityParams → Time → Query UserIdentityRow
create_user_identity arg now st =
    let row : UserIdentityRow = record {
      id = arg.id;
      user_id = arg.user_id;
      issuer = arg.issuer;
      subject = arg.subject;
      created_at = now;
    } in
    if any (λ r. r.id == arg.id) st.identities
    then err (unique_violation "user_identities_pkey")
    else if any (is_identity arg.issuer arg.subject) st.identities
    then err (unique_violation "user_identities_identity_unique")
    else if not (has_user arg.user_id st)
    then err (foreign_key_violation "user_identities_user_id_fkey")
    else ok (row, record st { identities = st.identities ++ row ∷ [] })

-- A row that a QueryRow reads, or pgx.ErrNoRows.
abbrev pub one_row : {A : Type 0} → Option A → Store → Result DbError (A × Store)
one_row none st = err no_rows
one_row (some a) st = ok (a, st)

unfoldable pub select_user : Uuid → Query UserRow
select_user id st = one_row (find? (λ r. r.id == id) st.users) st

-- SELECT ... FOR UPDATE: the row lock keeps other transactions from the row until this one ends.
unfoldable pub lock_user_row : Uuid → Query UserRow
lock_user_row id st = one_row (find? (λ r. r.id == id) st.users) st

-- The user has this identity in `user_identities`.
abbrev pub has_identity : String → String → Store → UserRow → Bool
has_identity issuer subject st u =
    any (λ i. is_identity issuer subject i && i.user_id == u.id) st.identities

-- The join of `users` and `user_identities`: its first row, in the order of the users.
unfoldable pub select_user_by_identity : String → String → Query UserRow
select_user_by_identity issuer subject st =
    one_row (find? (has_identity issuer subject st) st.users) st

unfoldable pub list_users : Query (List UserRow)
list_users st = ok (order_by (λ r. r.id) st.users, st)

-- Messages restrict the deletion; identities and memberships cascade. The result is the number of
-- rows affected.
unfoldable pub delete_user : Uuid → Query ℕ
delete_user id st =
    if not (has_user id st)
    then ok (0, st)
    else if any (λ m. m.author_id == id) st.channel_messages
    then err (restrict_violation "channel_messages_author_id_fkey")
    else if any (λ m. m.author_id == id) st.direct_messages
    then err (restrict_violation "direct_messages_author_id_fkey")
    else if any (λ m. m.recipient_id == id) st.direct_messages
    then err (restrict_violation "direct_messages_recipient_id_fkey")
    else ok (
      count (λ r. r.id == id) st.users,
      record st {
        users = filter (λ r. not (r.id == id)) st.users;
        identities = filter (λ r. not (r.user_id == id)) st.identities;
        members = filter (λ r. not (r.user_id == id)) st.members;
        channel_members = filter (λ r. not (r.user_id == id)) st.channel_members;
      },
    )

-- Without an ORDER BY: in the order of the table.
unfoldable pub list_user_identities : Query (List UserIdentityRow)
list_user_identities st = ok (st.identities, st)

unfoldable pub select_user_identity : Uuid → Query UserIdentityRow
select_user_identity id st = one_row (find? (λ i. i.id == id) st.identities) st

-- The first row of the user, in the order of the table.
unfoldable pub select_user_identity_by_user_id : Uuid → Query UserIdentityRow
select_user_identity_by_user_id u st = one_row (find? (λ i. i.user_id == u) st.identities) st
