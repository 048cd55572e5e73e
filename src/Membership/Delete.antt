-- ===== src/Membership/Delete.antt =====
-- The deletions from `workspaces`, `workspace_members` and `users`.
use waypoint_be.Base.{
  ℕ, ◌+◌, ◌≤◌, ◌<◌, ◌≡◌, ◌∙◌, ◌≢◌, inl, inr, Bool, true, false, not, ◌&&◌, List, [], ◌∷◌, str_eq,
  arith, ◌==◌, if◌then◌else◌, ==→≡, ==_refl, Bool-cases, filter, count, count-filter, count_mono,
  count_ext, count_never, count-filter-le, count-survives, any-survives, count-filter_missed, ok,
}
use waypoint_be.Store.{Uuid, WorkspaceMemberRow, Store, has_user, has_workspace}
use waypoint_be.Store.Users.{delete_user}
use waypoint_be.Store.Workspaces.{
  in_workspace, is_member, is_owner, delete_workspaces, delete_workspace, owns,
}
use waypoint_be.Membership.{of_user, owners, IsValid}

-- What a successful deletion of workspaces leaves of the three tables.
pub record Deleted (doomed : Uuid → Bool) (st st' : Store) : Type 0 where
  pub users_same : st'.users ≡ st.users
  pub workspaces_left : st'.workspaces ≡ filter (λ r. not (doomed r.id)) st.workspaces
  pub members_left : st'.members ≡ filter (λ r. not (doomed r.workspace_id)) st.members

pub delete_workspaces-Deleted :
    (doomed : Uuid → Bool) (st st' : Store)
    → delete_workspaces doomed st ≡ ok st'
    → Deleted doomed st st'
unfolding delete_workspaces
delete_workspaces-Deleted doomed st st' h = ground arith

module _ (doomed : Uuid → Bool) (st st' : Store) (d : Deleted doomed st st') where
  pub has_workspace-deleted :
      (w : Uuid) → has_workspace w st' ≡ (if doomed w then false else has_workspace w st)
  has_workspace-deleted w =
      rw d.workspaces_left
        (any-survives (λ r. r.id) doomed (λ r. r.id == w) w st.workspaces (λ x h. ==→≡ x.id w h))

  -- A test that fixes the workspace counts nothing in a deleted one and as before in another.
  pub members-deleted :
      (p : WorkspaceMemberRow → Bool) (w : Uuid)
      → ((r : WorkspaceMemberRow) → p r ≡ true → r.workspace_id ≡ w)
      → count p st'.members ≡ (if doomed w then 0 else count p st.members)
  members-deleted p w at =
      rw d.members_left (count-survives (λ r. r.workspace_id) doomed p w st.members at)

  fewer_members : (p : WorkspaceMemberRow → Bool) → count p st'.members ≤ count p st.members
  fewer_members p = rw d.members_left (count-filter-le p _ st.members)

  pub delete_workspaces-IsValid : IsValid st → IsValid st'
  delete_workspaces-IsValid v = record {
    one_owner = λ w h. ground (
      arith,
      has_workspace-deleted w,
      members-deleted (is_owner w) w (λ r e. ground arith),
      v.one_owner w,
    );
    workspace_exists = λ w h. ground (
      arith,
      has_workspace-deleted w,
      members-deleted (in_workspace w) w (λ r e. ground arith),
      v.workspace_exists w,
    );
    user_exists = λ u h.
        let old : has_user u st ≡ false = rw d.users_same at h in
        omega (arith, fewer_members (of_user u), v.user_exists u old);
    stands_once = λ w u. omega (arith, fewer_members (is_member w u), v.stands_once w u);
  }

-- Removing the membership of a user who is not the owner.
module _ (w u a : Uuid) (st : Store) where
  abbrev is_kept : WorkspaceMemberRow → Bool
  is_kept r = not (is_member w u r)

  abbrev pub shrunk : Store
  shrunk = record st {
    members = filter is_kept st.members;
    channel_members = filter (λ r. not (r.workspace_id == w && r.user_id == u)) st.channel_members;
  }

  fewer_rows :
      (p : WorkspaceMemberRow → Bool) → count p (filter is_kept st.members) ≤ count p st.members
  fewer_rows p = count-filter-le p is_kept st.members

  -- The owner's row of `w` is that of `a`, and stays.
  owner_stays :
      u ≢ a
      → 0 < count (λ r. is_member w a r && str_eq r.role "owner") st.members
      → owners w st ≡ 1
      → owners w shrunk ≡ 1
  owner_stays ne owned one = omega (
    arith,
    fewer_rows (is_owner w),
    count_mono (λ r. is_member w a r && str_eq r.role "owner") (λ r. is_kept r && is_owner w r)
        st.members (λ r h. ground (arith, ne)),
    count-filter (is_owner w) is_kept st.members,
  )

  owner_elsewhere : (x : Uuid) → (w == x) ≡ false → owners x shrunk ≡ owners x st
  owner_elsewhere x ne =
      count-filter (is_owner x) is_kept st.members
      ∙ count_ext (λ r. is_kept r && is_owner x r) (is_owner x) st.members (λ r. ground arith)

  pub remove_member-IsValid :
      u ≢ a
      → 0 < count (λ r. is_member w a r && str_eq r.role "owner") st.members
      → IsValid st
      → IsValid shrunk
  remove_member-IsValid ne owned v = record {
    one_owner = λ x h. elim (Bool-cases (w == x)) [
      | inl e ↦
          (let p : w ≡ x = ==→≡ w x e in rw (← p) (owner_stays ne owned (v.one_owner w (rw p h))))
      | inr far ↦ owner_elsewhere x far ∙ v.one_owner x h
    ];
    workspace_exists = λ x h. omega (arith, fewer_rows (in_workspace x), v.workspace_exists x h);
    user_exists = λ x h. omega (arith, fewer_rows (of_user x), v.user_exists x h);
    stands_once = λ x y. omega (arith, fewer_rows (is_member x y), v.stands_once x y);
  }

-- The user owns no workspace.
abbrev pub OwnsNothing : Uuid → Store → Type 0
OwnsNothing u st = count (λ r. of_user u r && str_eq r.role "owner") st.members ≡ 0

-- Once the owned workspaces are deleted, the user owns nothing.
pub delete_owned-OwnsNothing :
    (u : Uuid) (st st' : Store) → Deleted (owns u st) st st' → OwnsNothing u st'
delete_owned-OwnsNothing u st st' d = rw d.members_left (
    count-filter_missed (λ x r. is_member x.workspace_id u r && str_eq r.role "owner")
      (λ r. of_user u r && str_eq r.role "owner") (λ x h. ground (arith, ==_refl x.workspace_id))
      st.members)

-- What a successful deletion of an existing user leaves of the three tables.
pub record UserDeleted (u : Uuid) (st st' : Store) : Type 0 where
  pub users_left : st'.users ≡ filter (λ r. not (r.id == u)) st.users
  pub workspaces_same : st'.workspaces ≡ st.workspaces
  pub members_left : st'.members ≡ filter (λ r. not (r.user_id == u)) st.members

pub delete_user-UserDeleted :
    (u : Uuid) (st st' : Store) (n : ℕ)
    → delete_user u st ≡ ok (n, st')
    → has_user u st ≡ true
    → UserDeleted u st st'
unfolding delete_user
delete_user-UserDeleted u st st' n h known = ground arith

module _ (u : Uuid) (st st' : Store) (d : UserDeleted u st st') where
  left :
      (p : WorkspaceMemberRow → Bool)
      → count p st'.members ≡ count (λ r. not (r.user_id == u) && p r) st.members
  left p = rw d.members_left (count-filter p _ st.members)

  left-le : (p : WorkspaceMemberRow → Bool) → count p st'.members ≤ count p st.members
  left-le p = rw d.members_left (count-filter-le p _ st.members)

  pub has_user-deleted : (x : Uuid) → has_user x st' ≡ (if x == u then false else has_user x st)
  has_user-deleted x =
      rw d.users_left
        (any-survives (λ r. r.id) (λ k. k == u) (λ r. r.id == x) x st.users (λ r h. ==→≡ r.id x h))

  count-split :
      (w : Uuid) (rows : List WorkspaceMemberRow)
      → count (is_owner w) rows
        ≤ count (λ r. not (r.user_id == u) && is_owner w r) rows
          + count (λ r. of_user u r && str_eq r.role "owner") rows
  unfolding count
  count-split w [] = omega arith
  count-split w (r ∷ rows) = ground (arith, count-split w rows)

  pub UserDeleted-IsValid : OwnsNothing u st → IsValid st → IsValid st'
  UserDeleted-IsValid none_owned v = record {
    one_owner = λ w h.
        let old : has_workspace w st ≡ true = rw d.workspaces_same at h in
        omega (
          arith,
          left (is_owner w),
          left-le (is_owner w),
          count-split w st.members,
          none_owned,
          v.one_owner w old,
        );
    workspace_exists = λ w h.
        let old : has_workspace w st ≡ false = rw d.workspaces_same at h in
        omega (arith, left-le (in_workspace w), v.workspace_exists w old);
    user_exists = λ x h. elim (Bool-cases (x == u)) [
      | inl e ↦ left (of_user x) ∙ count_never _ st.members (λ r. ground (arith, e))
      | inr ne ↦
          (let old : has_user x st ≡ false = ground (arith, has_user-deleted x) in
            omega (arith, left-le (of_user x), v.user_exists x old))
    ];
    stands_once = λ w x. omega (arith, left-le (is_member w x), v.stands_once w x);
  }

pub deleted-IsValid :
    (w : Uuid) (st st' : Store) (n : ℕ)
    → delete_workspace w st ≡ ok (n, st')
    → IsValid st
    → IsValid st'
unfolding delete_workspace
deleted-IsValid w st st' n h v =
    delete_workspaces-IsValid (λ x. x == w) st st'
      (delete_workspaces-Deleted (λ x. x == w) st st' (ground arith)) v
