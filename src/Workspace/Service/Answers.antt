-- ===== src/Workspace/Service/Answers.antt =====
-- internal/workspace/service.go while the database serves every call: the form of a decision table
-- over the tables, and the steps that the methods share.
pub mod Removal
pub mod Addition
pub mod Reading
pub mod Dissolution
pub mod Founding
use mathlib.Core.Path.{subst}
use waypoint_be.Base.{
  ◌-◌, ◌≡◌, refl, sym, ap, ◌∙◌, inl, inr, Bool, true, false, not, ◌&&◌, none, some, [], str_eq,
  arith, ◌==◌, if◌then◌else◌, ==→≡, Bool-cases, Option-cases, any, find?, find?-sound, find?-any,
  find?-none, any_both-found, any_both-missing, Result, ok, err, map_err,
}
use waypoint_be.Store.{Uuid, WorkspaceRow, WorkspaceMemberRow, Store, no_rows, has_workspace}
use waypoint_be.Store.Workspaces.{is_member, lock_workspace_row, select_workspace_member}
use waypoint_be.Store.Users.{one_row}
use waypoint_be.Session.{
  closed_tx, Session, Action, continue, ◌>>=◌, ◌>>◌, reject_if, on_error, exec, commit, sentinel,
}
use waypoint_be.Session.Healthy.{
  inside, Answers, exec-inside, exec-inside_err, commit-inside, Answers-bind, Answers-raise,
  on_error-ok, on_error-err,
}
use waypoint_be.Membership.{IsValid}
use waypoint_be.Workspace.{WorkspaceError, forbidden, workspace_not_found, Error, role_owner}
use waypoint_be.Workspace.Service.{
  lock_workspace, owner_only, commit_tx, lock_failure, actor_failure,
}

-- The actor's row in the workspace gives it the owner's role.
abbrev pub is_owner_of : Uuid → Uuid → Store → Bool
is_owner_of a w st = any (λ r. is_member w a r && str_eq r.role role_owner) st.members

abbrev pub is_member_of : Uuid → Uuid → Store → Bool
is_member_of u w st = any (is_member w u) st.members

-- A table's entry: the value or the sentinel, and the committed tables.
abbrev pub Entry : Type 0 → Type 0
Entry A = Result WorkspaceError A × Store

-- The call ended as the entry says.
abbrev pub Fits : {A : Type 0} → Result Error A × Session → Entry A → Type 0
Fits x t = Answers x (map_err sentinel t.0) t.1

pub Fits-entry :
    {A : Type 0} {x : Result Error A × Session} (t t' : Entry A) → t ≡ t' → Fits x t' → Fits x t
Fits-entry {A} {x} t t' e h = rw e h

module _ (st : Store) where
  pub lock-found :
      (w : Uuid) (row : WorkspaceRow)
      → find? (λ r. r.id == w) st.workspaces ≡ some row
      → lock_workspace w (inside st st) ≡ (ok row, inside st st)
  unfolding lock_workspace lock_workspace_row
  lock-found w row h =
      on_error-ok lock_failure (exec (lock_workspace_row w)) (inside st st) (inside st st) row
        (exec-inside (lock_workspace_row w) st st row st (ap (λ o. one_row o st) h))

  pub lock-missing :
      (w : Uuid)
      → find? (λ r. r.id == w) st.workspaces ≡ none
      → lock_workspace w (inside st st) ≡ (err (sentinel workspace_not_found), inside st st)
  unfolding lock_workspace lock_workspace_row lock_failure
  lock-missing w h =
      on_error-err lock_failure (exec (lock_workspace_row w)) (inside st st) _ no_rows
        (exec-inside_err (lock_workspace_row w) st st no_rows (ap (λ o. one_row o st) h))

  actor-found :
      (w a : Uuid) (actor : WorkspaceMemberRow)
      → find? (is_member w a) st.members ≡ some actor
      → on_error actor_failure (exec (select_workspace_member w a)) (inside st st)
        ≡ (ok actor, inside st st)
  unfolding select_workspace_member
  actor-found w a actor h =
      on_error-ok actor_failure (exec (select_workspace_member w a)) (inside st st) (inside st st)
        actor (exec-inside (select_workspace_member w a) st st actor st (ap (λ o. one_row o st) h))

  actor-missing :
      (w a : Uuid)
      → find? (is_member w a) st.members ≡ none
      → on_error actor_failure (exec (select_workspace_member w a)) (inside st st)
        ≡ (err (sentinel forbidden), inside st st)
  unfolding select_workspace_member actor_failure
  actor-missing w a h =
      on_error-err actor_failure (exec (select_workspace_member w a)) (inside st st) _ no_rows
        (exec-inside_err (select_workspace_member w a) st st no_rows (ap (λ o. one_row o st) h))

  -- Under the contract a user has one row in a workspace, so that the row tells the role.
  owner_only-answer :
      (w a : Uuid)
      → IsValid st
      → owner_only w a (inside st st)
        ≡ ((if is_owner_of a w st then ok tt else err (sentinel forbidden)), inside st st)
  unfolding owner_only
  owner_only-answer w a v = elim (Option-cases (find? (is_member w a) st.members)) [
    | inl e ↦
        ap (continue _) (actor-missing w a e)
        ∙ ap (λ (b : Bool). ((if b then ok tt else err (sentinel forbidden)), inside st st))
            (sym (any_both-missing (is_member w a) (λ r. str_eq r.role role_owner) st.members e))
    | inr (actor, e) ↦
        ap (continue _) (actor-found w a actor e)
        ∙ ground (
          arith,
          any_both-found (is_member w a) (λ r. str_eq r.role role_owner) st.members actor
              (v.stands_once w a) e,
        )
  ]

-- The entries with which a method for owners begins.
abbrev pub owners_entry : {A : Type 0} → Uuid → Uuid → Store → Entry A → Entry A
owners_entry w a st t =
    if not (has_workspace w st)
    then (err workspace_not_found, st)
    else if not (is_owner_of a w st)
    then (err forbidden, st)
    else t

pub raised-Fits :
    {A B : Type 0} (m : Action Error A) (f : A → Action Error B) (s : Session) (e : WorkspaceError)
    (st cur : Store)
    → m s ≡ (err (sentinel e), inside st cur)
    → Fits ((m >>= f) s) (err e, st)
raised-Fits m f s e st cur h = Answers-raise m f s (sentinel e) (inside st cur) h refl refl

pub owner_first-Fits :
    {A : Type 0} (st : Store) (w a : Uuid) (rest : Uuid → Action Error A) (t : Entry A)
    → IsValid st
    → (has_workspace w st ≡ true → is_owner_of a w st ≡ true → Fits (rest w (inside st st)) t)
    → Fits
        ((lock_workspace w >>= λ row. owner_only row.id a >> rest row.id) (inside st st))
        (owners_entry w a st t)
owner_first-Fits {A} st w a rest t v k =
    elim (Option-cases (find? (λ r. r.id == w) st.workspaces)) [
      | inl e ↦
          Fits-entry _ (err workspace_not_found, st)
            (ground (arith, find?-none (λ r. r.id == w) st.workspaces e))
            (raised-Fits (lock_workspace w) body (inside st st) workspace_not_found st st
              (lock-missing st w e))
      | inr (row, e) ↦
          (let there : has_workspace w st ≡ true = find?-any (λ r. r.id == w) st.workspaces row e in
            let at : row.id ≡ w =
              ==→≡ row.id w (find?-sound (λ r. r.id == w) st.workspaces row e) in
            Answers-bind (lock_workspace w) body (inside st st) row (inside st st)
              (lock-found st w row e) (rw at (checked there)))
    ]
  where
    body : WorkspaceRow → Action Error A
    body row = owner_only row.id a >> rest row.id

    checked :
        has_workspace w st ≡ true
        → Fits ((owner_only w a >> rest w) (inside st st)) (owners_entry w a st t)
    checked there = elim (Bool-cases (is_owner_of a w st)) [
      | inl owner ↦ Fits-entry _ t (ground arith) (
          Answers-bind (owner_only w a) (λ _. rest w) (inside st st) tt (inside st st)
            (owner_only-answer st w a v
              ∙ ap (λ (b : Bool). ((if b then ok tt else err (sentinel forbidden)), inside st st))
                  owner)
            (k there owner))
      | inr other ↦
          Fits-entry _ (err forbidden, st) (ground arith)
            (raised-Fits (owner_only w a) (λ _. rest w) (inside st st) forbidden st st
              (owner_only-answer st w a v
                ∙ ap (λ (b : Bool). ((if b then ok tt else err (sentinel forbidden)), inside st st))
                    other))
    ]

-- A test that rejects, before the transaction or in it.
pub reject-Fits :
    {A : Type 0} (test : Bool) (e : WorkspaceError) (m : Action Error A) (s : Session) (t : Entry A)
    → s.faults ≡ []
    → (test ≡ false → Fits (m s) t)
    → Fits ((reject_if test (sentinel e) >> m) s) (if test then (err e, s.committed) else t)
reject-Fits true e m s t q k = record { result = refl; store = refl; quiet = q }
reject-Fits false e m s t q k = k refl

-- The end of a body.
pub commit_tx-inside :
    (st cur : Store)
    → commit_tx (inside st cur)
      ≡ (ok tt, record (inside st cur) { committed = cur; status = closed_tx })
unfolding commit_tx
commit_tx-inside st cur = on_error-ok _ commit (inside st cur) _ tt (commit-inside st cur)
