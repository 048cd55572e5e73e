-- ===== src/Membership/Insert.antt =====
-- The insertions into `workspaces` and `workspace_members`.
use waypoint_be.Base.{
  ◌+◌, ◌≤◌, ◌≡◌, refl, ap, ◌∙◌, inl, inr, Bool, true, false, ◌||◌, List, [], ◌∷◌, ◌++◌, str_eq,
  arith, ◌==◌, if◌then◌else◌, ==→≡, ==_refl, Bool-cases, ==-false_of_test, any, count, count-append,
  count-single, count_mono, any-false-count, any-append, any-single, ok,
}
use waypoint_be.Store.{Uuid, Time, WorkspaceRow, WorkspaceMemberRow, Store, has_user, has_workspace}
use waypoint_be.Store.Workspaces.{
  AddWorkspaceMemberParams, in_workspace, is_member, is_owner, add_workspace_member,
  CreateWorkspaceParams, create_workspace,
}
use waypoint_be.Membership.{of_user, IsValid, IsValidBut}

-- Every count over the members, after one more row.
count-snoc :
    (p : WorkspaceMemberRow → Bool) (xs : List WorkspaceMemberRow) (x : WorkspaceMemberRow)
    → count p (xs ++ x ∷ []) ≡ count p xs + (if p x then 1 else 0)
count-snoc p xs x = count-append p xs (x ∷ []) ∙ ap (λ n. count p xs + n) (count-single p x)

-- What a successful insertion into `workspace_members` has found and done.
pub record Added (arg : AddWorkspaceMemberParams) (now : Time) (st : Store)
    (row : WorkspaceMemberRow) (st' : Store) : Type 0 where
  pub row_given : row ≡ record {
    workspace_id = arg.workspace_id;
    user_id = arg.user_id;
    role = arg.role;
    joined_at = now;
  }
  pub appended : st' ≡ record st { members = st.members ++ row ∷ [] }
  pub was_absent : any (is_member arg.workspace_id arg.user_id) st.members ≡ false
  pub was_ownerless :
      str_eq arg.role "owner" ≡ true → any (is_owner arg.workspace_id) st.members ≡ false
  pub workspace_there : has_workspace arg.workspace_id st ≡ true
  pub user_there : has_user arg.user_id st ≡ true

pub add_workspace_member-Added :
    (arg : AddWorkspaceMemberParams) (now : Time) (st : Store) (row : WorkspaceMemberRow)
    (st' : Store)
    → add_workspace_member arg now st ≡ ok (row, st')
    → Added arg now st row st'
unfolding add_workspace_member
add_workspace_member-Added arg now st row st' h = ground arith

module _ (st : Store) (r : WorkspaceMemberRow) where
  abbrev grown : Store
  grown = record st { members = st.members ++ r ∷ [] }

  module _ (there : has_workspace r.workspace_id st ≡ true) (known : has_user r.user_id st ≡ true)
      (absent : any (is_member r.workspace_id r.user_id) st.members ≡ false) where
    workspace_exists-snoc :
        ((w : Uuid) → has_workspace w st ≡ false → count (in_workspace w) st.members ≡ 0)
        → (w : Uuid) → has_workspace w st ≡ false
        → count (in_workspace w) (st.members ++ r ∷ []) ≡ 0
    workspace_exists-snoc old w h =
        let apart = ==-false_of_test (λ v. has_workspace v st) r.workspace_id w there h in
        ground (arith, count-snoc (in_workspace w) st.members r, old w h, apart)

    user_exists-snoc :
        ((u : Uuid) → has_user u st ≡ false → count (of_user u) st.members ≡ 0)
        → (u : Uuid) → has_user u st ≡ false
        → count (of_user u) (st.members ++ r ∷ []) ≡ 0
    user_exists-snoc old u h =
        let apart = ==-false_of_test (λ v. has_user v st) r.user_id u known h in
        ground (arith, count-snoc (of_user u) st.members r, old u h, apart)

    stands_once-snoc :
        ((w u : Uuid) → count (is_member w u) st.members ≤ 1)
        → (w u : Uuid) → count (is_member w u) (st.members ++ r ∷ []) ≤ 1
    stands_once-snoc old w u = elim (Bool-cases (is_member w u r)) [
      | inl same ↦
          (let none_yet : count (is_member w u) st.members ≡ 0 =
              any-false-count _ _ (moved w u same) in
            ground (arith, count-snoc (is_member w u) st.members r, none_yet))
      | inr other ↦ ground (arith, count-snoc (is_member w u) st.members r, old w u)
    ]
      where
        moved : (w u : Uuid) → is_member w u r ≡ true → any (is_member w u) st.members ≡ false
        moved w u same =
            let p : r.workspace_id ≡ w = ground arith in
            let q : r.user_id ≡ u = ground arith in rw (← p, ← q) absent

    -- A row of another role than owner's.
    pub IsValid-snoc : IsValid st → str_eq r.role "owner" ≡ false → IsValid grown
    IsValid-snoc v plain = record {
      one_owner = λ w h. ground (arith, count-snoc (is_owner w) st.members r, v.one_owner w h);
      workspace_exists = workspace_exists-snoc v.workspace_exists;
      user_exists = user_exists-snoc v.user_exists;
      stands_once = stands_once-snoc v.stands_once;
    }

    -- The owner's row of a workspace that had no member.
    pub IsValidBut-snoc :
        IsValidBut r.workspace_id st → str_eq r.role "owner" ≡ true → IsValid grown
    IsValidBut-snoc v own = record {
      one_owner = λ w h. elim (Bool-cases (r.workspace_id == w)) [
        | inl e ↦ rw (← ==→≡ r.workspace_id w e) new_owned
        | inr ne ↦ ground (
          arith,
          count-snoc (is_owner w) st.members r,
          v.others_owned w (λ e. ground (arith, e)) h,
        )
      ];
      workspace_exists = workspace_exists-snoc v.workspace_exists;
      user_exists = user_exists-snoc v.user_exists;
      stands_once = stands_once-snoc v.stands_once;
    }
      where
        new_owned : count (is_owner r.workspace_id) (st.members ++ r ∷ []) ≡ 1
        new_owned = ground (
          arith,
          count-snoc (is_owner r.workspace_id) st.members r,
          count_mono (is_owner r.workspace_id) (in_workspace r.workspace_id) st.members
              (λ x h. ground arith),
          v.new_empty,
          ==_refl r.workspace_id,
        )

-- What a successful insertion into `workspaces` has found and done.
record Created (arg : CreateWorkspaceParams) (st : Store) (row : WorkspaceRow) (st' : Store)
    : Type 0 where
  id_given : row.id ≡ arg.id
  appended : st' ≡ record st { workspaces = st.workspaces ++ row ∷ [] }
  was_absent : has_workspace arg.id st ≡ false

create_workspace-Created :
    (arg : CreateWorkspaceParams) (now : Time) (st : Store) (row : WorkspaceRow) (st' : Store)
    → create_workspace arg now st ≡ ok (row, st')
    → Created arg st row st'
unfolding create_workspace
create_workspace-Created arg now st row st' h = ground arith

has_workspace-snoc :
    (w : Uuid) (st : Store) (row : WorkspaceRow)
    → any (λ r. r.id == w) (st.workspaces ++ row ∷ []) ≡ (has_workspace w st || row.id == w)
has_workspace-snoc w st row =
    any-append (λ r. r.id == w) st.workspaces (row ∷ [])
    ∙ ap (λ b. has_workspace w st || b) (any-single (λ r. r.id == w) row)

IsValidBut-new :
    (st : Store) (row : WorkspaceRow)
    → IsValid st
    → has_workspace row.id st ≡ false
    → IsValidBut row.id (record st { workspaces = st.workspaces ++ row ∷ [] })
IsValidBut-new st row v absent = record {
  new_exists = ground (arith, has_workspace-snoc row.id st row, ==_refl row.id);
  new_empty = v.workspace_exists row.id absent;
  others_owned = λ w ne h. v.one_owner w (ground (arith, has_workspace-snoc w st row));
  workspace_exists = λ w h. v.workspace_exists w (ground (arith, has_workspace-snoc w st row));
  user_exists = v.user_exists;
  stands_once = v.stands_once;
}

-- A new workspace, before its owner's row.
pub create_workspace-IsValidBut :
    (arg : CreateWorkspaceParams) (now : Time) (st : Store) (row : WorkspaceRow) (st' : Store)
    → IsValid st
    → create_workspace arg now st ≡ ok (row, st')
    → IsValidBut row.id st'
create_workspace-IsValidBut arg now st row st' v h =
    let c = create_workspace-Created arg now st row st' h in
    rw c.appended (IsValidBut-new st row v (rw c.id_given c.was_absent))

-- The owner's row completes the workspace.
pub add_owner-IsValid :
    (w u : Uuid) (now : Time) (st : Store) (row : WorkspaceMemberRow) (st' : Store)
    → IsValidBut w st
    → add_workspace_member (record { workspace_id = w; user_id = u; role = "owner" }) now st
      ≡ ok (row, st')
    → IsValid st'
add_owner-IsValid w u now st row st' v h =
    let a = add_workspace_member-Added _ now st row st' h in
    rw (a.appended, a.row_given)
      (IsValidBut-snoc st _ a.workspace_there a.user_there a.was_absent v refl)

-- Another member joins.
pub add_member-IsValid :
    (w u : Uuid) (now : Time) (st : Store) (row : WorkspaceMemberRow) (st' : Store)
    → IsValid st
    → add_workspace_member (record { workspace_id = w; user_id = u; role = "member" }) now st
      ≡ ok (row, st')
    → IsValid st'
add_member-IsValid w u now st row st' v h =
    let a = add_workspace_member-Added _ now st row st' h in
    rw (a.appended, a.row_given)
      (IsValid-snoc st _ a.workspace_there a.user_there a.was_absent v refl)
