-- ===== src/Server/Steps.antt =====
-- internal/waypoint: the steps of the handlers against the contract of the membership tables.
use waypoint_be.Base.{String, Result}
use waypoint_be.Session.{Session, Action}
use waypoint_be.Session.Clear.{IsClear}
use waypoint_be.Membership.{IsValid}
use waypoint_be.Http.{Request, JwtConfig, Libraries, Reply, http_error, path_id}
use waypoint_be.Http.Serving.{Serving, ◌>>=◌, valid, call}
use waypoint_be.Http.Rules.{
  going, Serves, bind-Serves, weaken-Serves, At, checks-Serves, acts-Serves,
}
use waypoint_be.User.Service as Users
use waypoint_be.User.Service.Reading.{
  read_user_by_identity-committed, read_user_by_identity-IsClear,
}
use waypoint_be.User.Handler as UserHandler
use waypoint_be.Workspace.Handler as WorkspaceHandler
use waypoint_be.Store.{Uuid}
use waypoint_be.Workspace.{workspace_error_text, invalid_id}

abbrev pub Holds : Session → Type 0
Holds s = IsValid s.committed

-- Valid tables, and no call of the driver that fails before it is sent.
abbrev pub HoldsClear : Session → Type 0
HoldsClear s = IsValid s.committed × IsClear s

-- What a request starts from, and what the read of its actor keeps.
pub record Opening (P : Session → Type 0) : Type 0 where
  pub holds : (s : Session) → P s → Holds s
  pub reads :
      (issuer subject : String) (s : Session)
      → P s
      → P (Users.read_user_by_identity issuer subject s).1

pub valid_start : Opening Holds
valid_start = record {
  holds = λ s h. h;
  reads = λ issuer subject s h. rw (read_user_by_identity-committed issuer subject s) h;
}

pub clear_start : Opening HoldsClear
clear_start = record {
  holds = λ s h. h.0;
  reads = λ issuer subject s h. (
    rw (read_user_by_identity-committed issuer subject s) h.0,
    read_user_by_identity-IsClear issuer subject s h.1,
  );
}

module _ (lib : Libraries) (config : JwtConfig) (r : Request) {P : Session → Type 0}
    (k : Opening P) where
  pub get_actor_id-IsValid :
      Serves (At P) (UserHandler.get_actor_id lib config r) (λ _. At P) (At Holds)
  unfolding UserHandler.get_actor_id
  get_actor_id-IsValid =
      weaken-Serves (λ x h. k.holds x.session h)
        (bind-Serves (λ _. At P) (checks-Serves P P _ _ (λ s h. h))
          λ c.
            bind-Serves (λ _. At P)
              (acts-Serves P P (Users.read_user_by_identity c.issuer c.subject)
                UserHandler.unresolved (k.reads c.issuer c.subject))
              λ u. record { run = λ x h. going u.id x h })

  -- A check of the request.
  pub check-IsValid :
      {E A B : Type 0} (v : Result E A) (f : E → Reply → Reply) {rest : A → Serving B}
      → ((a : A) → Serves (At P) (rest a) (λ _. At Holds) (At Holds))
      → Serves (At P) (valid v f >>= rest) (λ _. At Holds) (At Holds)
  check-IsValid v f t = bind-Serves (λ _. At P) (checks-Serves P Holds v f k.holds) t

  -- The call of the service, and the answer.
  pub act-IsValid :
      {E A B : Type 0} (m : Action E A) (f : E → Reply → Reply) {rest : A → Serving B}
      → ((s : Session) → P s → Holds (m s).1)
      → ((a : A) → Serves (At Holds) (rest a) (λ _. At Holds) (At Holds))
      → Serves (At P) (call m f >>= rest) (λ _. At Holds) (At Holds)
  act-IsValid m f keep t = bind-Serves (λ _. At Holds) (acts-Serves P Holds m f keep) t

  -- A UUID of the path.
  pub path-IsValid :
      {B : Type 0} (name : String) {rest : Uuid → Serving B}
      → ((id : Uuid) → Serves (At P) (rest id) (λ _. At Holds) (At Holds))
      → Serves
          (At P)
          (WorkspaceHandler.path_part lib config r name >>= rest)
          (λ _. At Holds)
          (At Holds)
  path-IsValid name t =
      check-IsValid (path_id lib r name) (λ _. http_error (workspace_error_text invalid_id) 400) t

  -- The UUID of the acting user.
  pub actor_first :
      {B : Type 0} {rest : Uuid → Serving B}
      → ((id : Uuid) → Serves (At P) (rest id) (λ _. At Holds) (At Holds))
      → Serves (At P) (UserHandler.get_actor_id lib config r >>= rest) (λ _. At Holds) (At Holds)
  actor_first t = bind-Serves (λ _. At P) get_actor_id-IsValid t
