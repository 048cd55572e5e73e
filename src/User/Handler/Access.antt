-- ===== src/User/Handler/Access.antt =====
-- internal/user/handler.go and Service.GetActorID: who acts in a request, and what the handlers may
-- leave in the committed tables.
use mathlib.Core.Path.{subst}
use waypoint_be.Base.{◌≡◌, refl, sym, ap, ◌∙◌, ◌⊎◌, inl, inr, ok}
use waypoint_be.Store.{Uuid, Time, UserRow, Store}
use waypoint_be.Store.Users as Statements
use waypoint_be.Session.{Session}
use waypoint_be.Http.{
  Request, created_user, JwtClaims, JwtConfig, Libraries, write_header, path_id, read_json,
}
use waypoint_be.Http.Serving.{Exchange}
use waypoint_be.Http.Rules.{
  going, Serves, bind-Serves, valid-Serves, weaken-Serves, served-end, At, acts-Serves,
  responds-Serves, reports-Serves, sends-Serves,
}
use waypoint_be.Middleware.{extract_and_validate_jwt}
use waypoint_be.User.{User, CreateUserInput, DeleteUserInput, CreateUserRequest, user_from_row}
use waypoint_be.User.Service
use waypoint_be.User.Service.Registration.{Registered, create_user-Registered}
use waypoint_be.User.Service.Deletion.{Gone, delete_user-Gone}
use waypoint_be.User.Service.Reading.{read_user_by_identity-committed, read_user_by_identity-found}
use waypoint_be.User.Handler.{
  claims_of, get_actor_id, unresolved, create_user, delete_user, unauthorized, write_error,
}

module _ (lib : Libraries) (config : JwtConfig) (r : Request) (before : Store) where
  -- The user of the request: the token is valid, and the tables have its identity.
  pub record Actor (id : Uuid) : Type 0 where
    pub claims : JwtClaims
    pub token : extract_and_validate_jwt lib r config ≡ ok claims
    pub row : UserRow
    pub found :
        Statements.select_user_by_identity claims.issuer claims.subject before ≡ ok (row, before)
    pub same : id ≡ row.id

  abbrev pub Same : Session → Type 0
  Same s = s.committed ≡ before

  pub claims-Serves :
      Serves
        (At Same)
        (claims_of lib config r)
        (λ c. At (λ s. Same s × (extract_and_validate_jwt lib r config ≡ ok c)))
        (At Same)
  claims-Serves =
      valid-Serves (extract_and_validate_jwt lib r config) unauthorized
        (λ c. At (λ s. Same s × (extract_and_validate_jwt lib r config ≡ ok c))) (λ e x h. h)
        λ c e x h. (h, e)

  pub get_actor_id-Serves :
      Serves (At Same) (get_actor_id lib config r) (λ id. At (λ s. Same s × Actor id)) (At Same)
  unfolding get_actor_id user_from_row
  get_actor_id-Serves =
      bind-Serves (λ c. At (λ s. Same s × (extract_and_validate_jwt lib r config ≡ ok c)))
        claims-Serves
        λ c.
          bind-Serves (λ u. At (λ s. Same s × Actor u.id))
            (reports-Serves (λ s. Same s × (extract_and_validate_jwt lib r config ≡ ok c)) Same
              (Service.read_user_by_identity c.issuer c.subject) unresolved
              (λ u s. Same s × Actor u.id)
              (λ s h. read_user_by_identity-committed c.issuer c.subject s ∙ h.0)
              (λ s h u e. (
                read_user_by_identity-committed c.issuer c.subject s ∙ h.0,
                acting c h.1 s h.0 u e,
              )))
            λ u. record { run = λ x h. going u.id x h }
    where
      acting :
          (c : JwtClaims)
          → extract_and_validate_jwt lib r config ≡ ok c
          → (s : Session) → Same s
          → (u : User) → (Service.read_user_by_identity c.issuer c.subject s).0 ≡ ok u
          → Actor u.id
      acting c t s h u e =
          let (row, same, found) = read_user_by_identity-found c.issuer c.subject s u e in
          record {
            claims = c;
            token = t;
            row = row;
            found =
                subst
                  (λ st. Statements.select_user_by_identity c.issuer c.subject st ≡ ok (row, st)) h
                  found;
            same = ap (λ v. v.id) (sym same);
          }

  -- What a registration over HTTP may do to the tables.
  pub record RegisteredBy (user_id identity_id : Uuid) (now : Time) (after : Store) : Type 0 where
    pub claims : JwtClaims
    pub token : extract_and_validate_jwt lib r config ≡ ok claims
    pub request : CreateUserRequest
    pub body : read_json lib.decode_user lib.decode_nothing r.body ≡ ok request
    pub row : UserRow
    pub change :
        Registered user_id identity_id now
          (record {
            email = claims.email;
            user_name = request.user_name;
            display_name = request.display_name;
            identity = record { issuer = claims.issuer; subject = claims.subject };
          })
          before
          after
          row

  -- What a deletion over HTTP may do to the tables.
  pub record GoneBy (after : Store) : Type 0 where
    pub actor_id : Uuid
    pub actor : Actor actor_id
    pub user_id : Uuid
    pub path : path_id lib r "id" ≡ ok user_id
    pub change : Gone (record { user_id = user_id; actor_id = actor_id }) before after

  -- Nothing has changed, or the change is the one that is meant.
  abbrev pub Only : (Store → Type 0) → Session → Type 0
  Only Change s = (s.committed ≡ before) ⊎ Change s.committed

  -- What a call may leave, from what it may leave on its own session.
  pub moved :
      (Change : Store → Store → Type 0) (st after : Store)
      → st ≡ before
      → (after ≡ st) ⊎ Change st after
      → (after ≡ before) ⊎ Change before after
  moved Change st after h c = rw h at c

module _ (lib : Libraries) (config : JwtConfig) (r : Request) where
  pub create_user-RegisteredBy :
      (user_id identity_id : Uuid) (now : Time) (x : Exchange)
      → let after = (create_user lib config r user_id identity_id now x).1.session.committed in
        (after ≡ x.session.committed)
        ⊎ RegisteredBy lib config r x.session.committed user_id identity_id now after
  unfolding create_user
  create_user-RegisteredBy user_id identity_id now x =
      let before : Store = x.session.committed in
      let R : Session → Type 0 =
        Only lib config r before (RegisteredBy lib config r before user_id identity_id now) in
      served-end
        (bind-Serves {R = At R}
          (λ c.
            At (λ s. Same lib config r before s × (extract_and_validate_jwt lib r config ≡ ok c)))
          (weaken-Serves (λ y h. inl h) (claims-Serves lib config r before))
          λ c.
            bind-Serves
              (λ request. At (λ s.
                (Same lib config r before s × (extract_and_validate_jwt lib r config ≡ ok c))
                × (read_json lib.decode_user lib.decode_nothing r.body ≡ ok request)))
              (valid-Serves (read_json lib.decode_user lib.decode_nothing r.body) _ _
                (λ e y h. inl h.0) (λ request e y h. (h, e)))
              λ request.
                let input : CreateUserInput = record {
                  email = c.email;
                  user_name = request.user_name;
                  display_name = request.display_name;
                  identity = record { issuer = c.issuer; subject = c.subject };
                } in
                bind-Serves (λ _. At R)
                  (acts-Serves _ R (Service.create_user user_id identity_id now input)
                    (write_error lib)
                    (λ s h.
                      elim (moved lib config r before
                        (λ b a. (row : UserRow) × Registered user_id identity_id now input b a row)
                        s.committed _ h.0.0
                        (create_user-Registered user_id identity_id now input s)) [
                          | inl e ↦ inl e
                          | inr (row, d) ↦ inr (record {
                            claims = c;
                            token = h.0.1;
                            request = request;
                            body = h.1;
                            row = row;
                            change = d;
                          })
                        ]))
                  λ u. sends-Serves R lib 201 (created_user _) _)
        x refl

  pub delete_user-GoneBy :
      (x : Exchange)
      → let after = (delete_user lib config r x).1.session.committed in
        (after ≡ x.session.committed) ⊎ GoneBy lib config r x.session.committed after
  unfolding delete_user
  delete_user-GoneBy x =
      let before : Store = x.session.committed in
      let R : Session → Type 0 = Only lib config r before (GoneBy lib config r before) in
      served-end
        (bind-Serves {R = At R}
          (λ id. At (λ s. Same lib config r before s × Actor lib config r before id))
          (weaken-Serves (λ y h. inl h) (get_actor_id-Serves lib config r before))
          λ actor_id.
            bind-Serves
              (λ user_id. At (λ s.
                (Same lib config r before s × Actor lib config r before actor_id)
                × (path_id lib r "id" ≡ ok user_id)))
              (valid-Serves (path_id lib r "id") _ _ (λ e y h. inl h.0) (λ id e y h. (h, e)))
              λ user_id.
                let input : DeleteUserInput = record { user_id = user_id; actor_id = actor_id } in
                bind-Serves (λ _. At R)
                  (acts-Serves _ R (Service.delete_user input) (write_error lib) (λ s h.
                    elim (moved lib config r before (Gone input) s.committed _ h.0.0
                      (delete_user-Gone input s)) [
                        | inl e ↦ inl e
                        | inr g ↦ inr (record {
                          actor_id = actor_id;
                          actor = h.0.1;
                          user_id = user_id;
                          path = h.1;
                          change = g;
                        })
                      ]))
                  λ _. responds-Serves R (write_header 204))
        x refl
