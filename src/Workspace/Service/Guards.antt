-- ===== src/Workspace/Service/Guards.antt =====
-- The checks with which the methods of the workspace service begin, as rules.
use waypoint_be.Base.{
  ◌<◌, ◌≡◌, ◌&&◌, Option, none, some, str_eq, arith, ◌==◌, ==→≡, find?, count, find?-sound,
  find?-both, ok,
}
use waypoint_be.Store.{Uuid, Store}
use waypoint_be.Store.Workspaces.{is_member, lock_workspace_row, select_workspace_member}
use waypoint_be.Store.Users.{one_row}
use waypoint_be.Session.Rules.{
  Triple, bind-Triple, on_error-Triple, reject_if-Triple, Kept, During, statement-Triple,
  commit-Triple, During-weaken,
}
use waypoint_be.Workspace.Service.{
  lock_workspace, owner_only, commit_tx, lock_failure, actor_failure,
}

-- The acting user has a row with the role 'owner' in the workspace.
abbrev pub Owned : Uuid → Uuid → Store → Type 0
Owned w a st = 0 < count (λ r. is_member w a r && str_eq r.role "owner") st.members

-- A read of one row gives a row of the query, and leaves the tables.
pub one_row-found :
    {A : Type 0} (o : Option A) (st st' : Store) (a : A)
    → one_row o st ≡ ok (a, st')
    → (o ≡ some a) × (st' ≡ st)
one_row-found none st st' a h = cc
one_row-found (some b) st st' a h = ground arith

module _ (Inv : Store → Type 0) (Now : Store → Type 0) where
  pub lock_workspace-Triple :
      (w : Uuid) → Triple (During Inv Now) (lock_workspace w) (λ _. During Inv Now) (λ _. Kept Inv)
  unfolding lock_workspace lock_workspace_row
  lock_workspace-Triple w =
      statement-Triple Inv (lock_workspace_row w) Now (λ _. Now)
        (λ st n a st' h. rw (one_row-found _ st st' a h).1 n) lock_failure

  pub owner_only-Triple :
      (w a : Uuid)
      → Triple
          (During Inv Now)
          (owner_only w a)
          (λ _. During Inv (λ st. Now st × Owned w a st))
          (λ _. Kept Inv)
  unfolding owner_only select_workspace_member
  owner_only-Triple w a =
      bind-Triple
        (λ actor. During Inv (λ st. Now st × (find? (is_member w a) st.members ≡ some actor)))
        (statement-Triple Inv (select_workspace_member w a) Now _
          (λ st n m st' h. let f = one_row-found _ st st' m h in rw f.1 (n, f.0)) actor_failure)
        λ actor.
          reject_if-Triple _ _ (λ s h. h.0)
            λ is_owner. During-weaken Inv _ _ λ st n. (
              n.0,
              find?-both (is_member w a) (λ r. str_eq r.role "owner") st.members actor n.1
                  (ground arith),
            )

  pub commit_tx-Triple :
      ((st : Store) → Now st → Inv st)
      → Triple (During Inv Now) commit_tx (λ _. Kept Inv) (λ _. Kept Inv)
  unfolding commit_tx
  commit_tx-Triple keep = on_error-Triple _ (Kept Inv) (commit-Triple Inv Now keep)

  -- The row that is locked is that of the workspace asked for.
  pub lock_workspace_at-Triple :
      (w : Uuid)
      → Triple
          (During Inv Now)
          (lock_workspace w)
          (λ row. During Inv (λ st. Now st × (row.id ≡ w)))
          (λ _. Kept Inv)
  unfolding lock_workspace lock_workspace_row
  lock_workspace_at-Triple w =
      statement-Triple Inv (lock_workspace_row w) Now _
        (λ st n row st' h.
          let f = one_row-found _ st st' row h in
          rw f.1 (n, ==→≡ row.id w (find?-sound (λ r. r.id == w) st.workspaces row f.0)))
        lock_failure
