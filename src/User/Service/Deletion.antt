-- ===== src/User/Service/Deletion.antt =====
-- internal/user/service.go, Service.DeleteUser: the tables that it leaves, with what hangs on the
-- account.
use waypoint_be.Base.{
  ℕ, ◌≡◌, refl, ◌∙◌, ◌⊎◌, inl, inr, true, false, not, ◌||◌, Option, none, some, List, [], ◌∷◌,
  arith, ◌==◌, if◌then◌else◌, ==→≡, ==_refl, any, count, count-filter, find?-sound, find?-any,
  count_never, ok,
}
use waypoint_be.Store.{Uuid, UserRow, DirectMessageRow, Store, has_user, has_workspace}
use waypoint_be.Store.Users
use waypoint_be.Store.Users.{one_row}
use waypoint_be.Store.Workspaces.{owns, delete_workspaces, delete_workspaces_owned_by_user}
use waypoint_be.Session.{Session, sentinel, wrap_driver, rollback_first}
use waypoint_be.Session.Rules.{
  Triple, bind-Triple, on_error-Triple, reject-Triple, Kept, During, statement-Triple,
  commit-Triple, with_tx_from-Triple, ends_from-Kept,
}
use waypoint_be.Membership.{of_user, IsValid}
use waypoint_be.Membership.Delete.{
  has_user-deleted, Deleted, delete_workspaces-Deleted, has_workspace-deleted,
  delete_workspaces-IsValid, delete_owned-OwnsNothing, UserDeleted, delete_user-UserDeleted,
  UserDeleted-IsValid,
}
use waypoint_be.User.{forbidden, not_found, DeleteUserInput}
use waypoint_be.User.Service.{delete_user, delete_body, lock_failure, commit_tx}

-- What a deletion does to the tables: the two statements, for a user who asked for it.
record Deletion (input : DeleteUserInput) (before after : Store) : Type 0 where
  by_self : (input.actor_id == input.user_id) ≡ true
  known : has_user input.user_id before ≡ true
  between : Store
  workspaces_deleted : delete_workspaces_owned_by_user input.user_id before ≡ ok (tt, between)
  rows : ℕ
  user_deleted : Users.delete_user input.user_id between ≡ ok (rows, after)

one_row-eq :
    {A : Type 0} (o : Option A) (st st' : Store) (a : A)
    → one_row o st ≡ ok (a, st')
    → (o ≡ some a) × (st' ≡ st)
one_row-eq none st st' a h = cc
one_row-eq (some b) st st' a h = ground arith

module _ (input : DeleteUserInput) (before : Store) where
  abbrev Only : Store → Type 0
  Only st = (st ≡ before) ⊎ Deletion input before st

  abbrev Locked : UserRow → Store → Type 0
  Locked row st = (st ≡ before) × (row.id ≡ input.user_id) × (has_user input.user_id before ≡ true)

  lock-Locked :
      (st : Store)
      → st ≡ before
      → (row : UserRow) (st' : Store) → Users.lock_user_row input.user_id st ≡ ok (row, st')
      → Locked row st'
  unfolding Users.lock_user_row
  lock-Locked st e row st' h =
      let f = one_row-eq _ st st' row h in
      (
        f.1 ∙ e,
        ==→≡ row.id input.user_id (find?-sound (λ r. r.id == input.user_id) st.users row f.0),
        rw (← e) (find?-any (λ r. r.id == input.user_id) st.users row f.0),
      )

  delete_body-Only :
      (input.actor_id == input.user_id) ≡ true
      → Triple
          (During Only (λ st. st ≡ before))
          (delete_body input)
          (λ _. Kept Only)
          (λ _. Kept Only)
  unfolding delete_body commit_tx
  delete_body-Only self =
      bind-Triple (λ row. During Only (Locked row))
        (statement-Triple Only (Users.lock_user_row input.user_id) (λ st. st ≡ before) _ lock-Locked
          lock_failure)
        λ row.
          bind-Triple
            (λ _. During Only (λ st.
              Locked row before
              × (delete_workspaces_owned_by_user input.user_id before ≡ ok (tt, st))))
            (statement-Triple Only (delete_workspaces_owned_by_user row.id) (Locked row) _
              (λ st k _ st' h. ((refl, k.1, k.2), rw (k.0, k.1) at h))
              (wrap_driver "delete workspaces owned by user"))
            λ _.
              bind-Triple (λ _. During Only (Deletion input before))
                (statement-Triple Only (Users.delete_user row.id) _ _
                  (λ st k n st' h. record {
                    by_self = self;
                    known = k.0.2;
                    between = st;
                    workspaces_deleted = k.1;
                    rows = n;
                    user_deleted = rw k.0.1 at h;
                  })
                  (wrap_driver "delete user"))
                λ removed.
                  reject-Triple (removed == 0) (sentinel not_found) (λ s h. h.0)
                    λ _.
                      on_error-Triple _ (Kept Only)
                        (commit-Triple Only (Deletion input before) (λ st d. inr d))

delete_user-Deletion :
    (input : DeleteUserInput) (s : Session)
    → let after = (delete_user input s).1.committed in
      (after ≡ s.committed) ⊎ Deletion input s.committed after
unfolding delete_user
delete_user-Deletion input s =
    ends_from-Kept (Only input s.committed) (λ t. t.committed ≡ s.committed)
      (reject-Triple (not (input.actor_id == input.user_id)) (sentinel forbidden) (λ t h. inl h)
        λ self.
          with_tx_from-Triple (Only input s.committed) (λ st. st ≡ s.committed) (λ st e. inl e)
            rollback_first _ (delete_body-Only input s.committed (ground arith)))
      s refl

-- What the deletion means: the account, its memberships and the workspaces that it owned are gone,
-- the other accounts and workspaces stay, and no direct message named the account.
pub record Gone (input : DeleteUserInput) (before after : Store) : Type 0 where
  pub by_self : (input.actor_id == input.user_id) ≡ true
  pub account_gone : has_user input.user_id after ≡ false
  pub others_stay : (x : Uuid) → (x == input.user_id) ≡ false → has_user x after ≡ has_user x before
  pub memberships_gone : count (of_user input.user_id) after.members ≡ 0
  pub owned_gone :
      (w : Uuid)
      → has_workspace w after
        ≡ (if owns input.user_id before w then false else has_workspace w before)
  pub no_direct_messages :
      any
        (λ m. m.author_id == input.user_id || m.recipient_id == input.user_id)
        before.direct_messages
      ≡ false

owned-Deleted :
    (u : Uuid) (st st' : Store)
    → delete_workspaces_owned_by_user u st ≡ ok (tt, st')
    → (delete_workspaces (owns u st) st ≡ ok st') × (st'.direct_messages ≡ st.direct_messages)
unfolding delete_workspaces_owned_by_user delete_workspaces
owned-Deleted u st st' h = ground arith

any_or :
    (u : Uuid) (ms : List DirectMessageRow)
    → any (λ m. m.author_id == u) ms ≡ false
    → any (λ m. m.recipient_id == u) ms ≡ false
    → any (λ m. m.author_id == u || m.recipient_id == u) ms ≡ false
unfolding any
any_or u [] h k = refl
any_or u (m ∷ ms) h k = ground (arith, any_or u ms)

delete_user-unmentioned :
    (u : Uuid) (st st' : Store) (n : ℕ)
    → Users.delete_user u st ≡ ok (n, st')
    → has_user u st ≡ true
    → (any (λ m. m.author_id == u) st.direct_messages ≡ false)
      × (any (λ m. m.recipient_id == u) st.direct_messages ≡ false)
unfolding Users.delete_user
delete_user-unmentioned u st st' n h known = ground arith

module _ (input : DeleteUserInput) (before after : Store) (d : Deletion input before after) where
  abbrev u : Uuid
  u = input.user_id

  first : Deleted (owns u before) before d.between
  first =
      delete_workspaces-Deleted (owns u before) before d.between
        (owned-Deleted u before d.between d.workspaces_deleted).0

  still_known : has_user u d.between ≡ true
  still_known = rw first.users_same d.known

  second : UserDeleted u d.between after
  second = delete_user-UserDeleted u d.between after d.rows d.user_deleted still_known

  Deletion-IsValid : IsValid before → IsValid after
  Deletion-IsValid v =
      UserDeleted-IsValid u d.between after second
        (delete_owned-OwnsNothing u before d.between first)
        (delete_workspaces-IsValid (owns u before) before d.between first v)

  Deletion-Gone : Gone input before after
  Deletion-Gone =
      let quiet = delete_user-unmentioned u d.between after d.rows d.user_deleted still_known in
      let same = (owned-Deleted u before d.between d.workspaces_deleted).1 in
      record {
        by_self = d.by_self;
        account_gone = ground (arith, has_user-deleted u d.between after second u, ==_refl u);
        others_stay =
            λ x ne. ground (arith, has_user-deleted u d.between after second x, first.users_same);
        memberships_gone = rw second.members_left (
            count-filter (of_user u) (λ r. not (r.user_id == u)) d.between.members
            ∙ count_never _ d.between.members (λ r. ground arith));
        owned_gone = λ w.
            rw second.workspaces_same
              (has_workspace-deleted (owns u before) before d.between first w);
        no_direct_messages = rw same at (any_or u d.between.direct_messages quiet.0 quiet.1);
      }

-- On any session, DeleteUser leaves the committed tables as they were, or the user deletes their
-- own account and was in no direct message, and then the account and its memberships are gone,
-- the workspaces that it owned are gone and all others stay, and every other user stays.
pub delete_user-Gone :
    (input : DeleteUserInput) (s : Session)
    → let after = (delete_user input s).1.committed in
      (after ≡ s.committed) ⊎ Gone input s.committed after
delete_user-Gone input s = elim (delete_user-Deletion input s) [
  | inl same ↦ inl same
  | inr d ↦ inr (Deletion-Gone input s.committed _ d)
]

-- DeleteUser keeps valid tables valid, on every branch and whatever befalls its driver calls.
pub delete_user-IsValid :
    (input : DeleteUserInput) (s : Session)
    → IsValid s.committed
    → IsValid (delete_user input s).1.committed
delete_user-IsValid input s v = elim (delete_user-Deletion input s) [
  | inl same ↦ rw same v
  | inr d ↦ Deletion-IsValid input s.committed _ d v
]
