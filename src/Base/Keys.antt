-- ===== src/Base/Keys.antt =====
-- Tables as lists of rows: the rows that go and those that stay, and tests of two parts.
use Prim.Native.Nat.{ℕ, ◌≤◌}
use mathlib.Core.Path.{◌≡◌, refl, ap, ◌∙◌}
use mathlib.Core.Bool.{Bool, true, false, not, ◌&&◌}
use mathlib.Core.Option.{none, some}
use mathlib.Core.List.{List, [], ◌∷◌, ◌++◌}
use native.Mathlib.Omega.{arith}
use waypoint_be.Base.Tests.{◌==◌, if◌then◌else◌}
use waypoint_be.Base.Rows.{filter, any, find?, count, count-filter, order_by, count-order_by}

module _ {ℓ} {A : Type ℓ} where
  pub count-filter-le : (p q : A → Bool) (xs : List A) → count p (filter q xs) ≤ count p xs
  unfolding count filter
  count-filter-le p q [] = omega arith
  count-filter-le p q (x ∷ xs) = ground (arith, count-filter-le p q xs)

-- Deleting the rows whose key is doomed, seen by a test that fixes the key.
module _ {ℓ} {A : Type ℓ} (key : A → ℕ) (doomed : ℕ → Bool) where
  abbrev pub survives : A → Bool
  survives x = not (doomed (key x))

  doomed_alike :
      (p : A → Bool) (k : ℕ)
      → ((x : A) → p x ≡ true → key x ≡ k)
      → (x : A) → p x ≡ true
      → doomed (key x) ≡ doomed k
  doomed_alike p k at x h = ap doomed (at x h)

  pub count-survives :
      (p : A → Bool) (k : ℕ) (xs : List A)
      → ((x : A) → p x ≡ true → key x ≡ k)
      → count p (filter survives xs) ≡ (if doomed k then 0 else count p xs)
  unfolding count filter
  count-survives p k [] at = ground arith
  count-survives p k (x ∷ xs) at = ground (arith, doomed_alike p k at x, count-survives p k xs at)

  pub any-survives :
      (p : A → Bool) (k : ℕ) (xs : List A)
      → ((x : A) → p x ≡ true → key x ≡ k)
      → any p (filter survives xs) ≡ (if doomed k then false else any p xs)
  unfolding any filter
  any-survives p k [] at = ground arith
  any-survives p k (x ∷ xs) at = ground (arith, doomed_alike p k at x, any-survives p k xs at)

module _ {ℓ} {A : Type ℓ} (f : A → A → Bool) (p : A → Bool)
    (self : (x : A) → p x ≡ true → f x x ≡ true) where
  count_missed :
      (xs ys : List A)
      → ((g : A → Bool) → any g ys ≡ true → any g xs ≡ true)
      → count (λ x. not (any (f x) xs) && p x) ys ≡ 0
  unfolding count any
  count_missed xs [] incl = refl
  count_missed xs (y ∷ ys) incl =
      let rest = count_missed xs ys (λ g h. incl g (ground (arith, h))) in
      ground (arith, self y, incl (f y), rest)

  -- Deleting all rows that some row answers to leaves none that answers to itself.
  pub count-filter_missed : (xs : List A) → count p (filter (λ x. not (any (f x) xs)) xs) ≡ 0
  count-filter_missed xs =
      count-filter p (λ x. not (any (f x) xs)) xs ∙ count_missed xs xs (λ g h. h)

module _ {ℓ} {A : Type ℓ} (p q : A → Bool) where
  pub any_both-none : (xs : List A) → count p xs ≡ 0 → any (λ x. p x && q x) xs ≡ false
  unfolding any count
  any_both-none [] h = refl
  any_both-none (x ∷ xs) h = ground (arith, any_both-none xs)

  -- Where at most one row meets `p`, the row found tells whether some row meets both.
  pub any_both-found :
      (xs : List A) (a : A) → count p xs ≤ 1 → find? p xs ≡ some a → any (λ x. p x && q x) xs ≡ q a
  unfolding any count find?
  any_both-found [] a one h = cc
  any_both-found (x ∷ xs) a one h = ground (arith, any_both-none xs, any_both-found xs a)

  pub any_both-missing : (xs : List A) → find? p xs ≡ none → any (λ x. p x && q x) xs ≡ false
  unfolding any find?
  any_both-missing [] h = refl
  any_both-missing (x ∷ xs) h = ground (arith, any_both-missing xs)

module _ {ℓ} {A : Type ℓ} (p : A → Bool) where
  pub count-eq-zero_test : (xs : List A) → (count p xs == 0) ≡ not (any p xs)
  unfolding any count
  count-eq-zero_test [] = refl
  count-eq-zero_test (x ∷ xs) = ground (arith, count-eq-zero_test xs)

module _ {ℓ} {A : Type ℓ} (p : A → Bool) where
  pub any-order_by : (key : A → ℕ) (xs : List A) → any p (order_by key xs) ≡ any p xs
  any-order_by key xs = ground (
    arith,
    count-eq-zero_test p (order_by key xs),
    count-eq-zero_test p xs,
    count-order_by p key xs,
  )

  pub find?-last :
      (xs : List A) (x : A) → any p xs ≡ false → p x ≡ true → find? p (xs ++ x ∷ []) ≡ some x
  unfolding find? any
  find?-last [] x h k = ground arith
  find?-last (y ∷ xs) x h k = ground (arith, find?-last xs x)

  pub any-false_mono :
      (q : A → Bool) (xs : List A)
      → ((x : A) → p x ≡ true → q x ≡ true)
      → any q xs ≡ false
      → any p xs ≡ false
  unfolding any
  any-false_mono q [] h k = refl
  any-false_mono q (x ∷ xs) h k = ground (arith, h x, any-false_mono q xs h)
