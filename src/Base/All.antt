-- ===== src/Base/All.antt =====
-- Tables as lists of rows: what all rows meet, and tests through a map.
use Prim.Native.Nat.{◌≤◌, ◌<◌}
use mathlib.Core.Path.{◌≡◌, refl}
use mathlib.Core.Bool.{Bool, true, false, ◌&&◌}
use mathlib.Core.List.{List, [], ◌∷◌, ◌++◌, map}
use native.Mathlib.Omega.{arith}
use waypoint_be.Base.Rows.{length, filter, any, count}

module _ {ℓ} {A : Type ℓ} where
  -- Every row meets the test.
  unfoldable pub all : (A → Bool) → List A → Bool
  all p [] = true
  all p (x ∷ xs) = p x && all p xs

  pub all_mono :
      (p q : A → Bool) (xs : List A)
      → ((x : A) → p x ≡ true → q x ≡ true)
      → all p xs ≡ true
      → all q xs ≡ true
  unfolding all
  all_mono p q [] h k = refl
  all_mono p q (x ∷ xs) h k = ground (arith, h x, all_mono p q xs h)

  pub all-append : (p : A → Bool) (xs ys : List A) → all p (xs ++ ys) ≡ (all p xs && all p ys)
  unfolding all
  all-append p [] ys = refl
  all-append p (x ∷ xs) ys = ground (arith, all-append p xs ys)

  pub all-filter : (p q : A → Bool) (xs : List A) → all p xs ≡ true → all p (filter q xs) ≡ true
  unfolding all filter
  all-filter p q [] h = refl
  all-filter p q (x ∷ xs) h = ground (arith, all-filter p q xs)

  pub all_both :
      (p q : A → Bool) (xs : List A)
      → all p xs ≡ true
      → all q xs ≡ true
      → all (λ x. p x && q x) xs ≡ true
  unfolding all
  all_both p q [] h k = refl
  all_both p q (x ∷ xs) h k = ground (arith, all_both p q xs)

  pub all-any_not :
      (p q : A → Bool) (xs : List A)
      → ((x : A) → p x ≡ true → q x ≡ false)
      → all p xs ≡ true
      → any q xs ≡ false
  unfolding all any
  all-any_not p q [] h k = refl
  all-any_not p q (x ∷ xs) h k = ground (arith, h x, all-any_not p q xs h)

  pub all-count_zero :
      (p q : A → Bool) (xs : List A)
      → ((x : A) → p x ≡ true → q x ≡ false)
      → all p xs ≡ true
      → count q xs ≡ 0
  unfolding all count
  all-count_zero p q [] h k = refl
  all-count_zero p q (x ∷ xs) h k = ground (arith, h x, all-count_zero p q xs h)

  -- A filter keeps all rows, or is shorter.
  pub filter-all : (p : A → Bool) (xs : List A) → all p xs ≡ true → filter p xs ≡ xs
  unfolding all filter
  filter-all p [] h = refl
  filter-all p (x ∷ xs) h = ground (arith, filter-all p xs)

  pub length-filter-le : (p : A → Bool) (xs : List A) → length (filter p xs) ≤ length xs
  unfolding filter
  length-filter-le p [] = omega arith
  length-filter-le p (x ∷ xs) = ground (arith, length-filter-le p xs)

  pub length-filter-lt :
      (p : A → Bool) (xs : List A) → all p xs ≡ false → length (filter p xs) < length xs
  unfolding all filter
  length-filter-lt p [] h = cc
  length-filter-lt p (x ∷ xs) h = ground (arith, length-filter-lt p xs, length-filter-le p xs)

module _ {ℓ κ} {A : Type ℓ} {B : Type κ} (f : A → B) where
  pub any-map : (p : B → Bool) (xs : List A) → any p (map f xs) ≡ any (λ x. p (f x)) xs
  unfolding any
  any-map p [] = refl
  any-map p (x ∷ xs) = ground (arith, any-map p xs)

  pub all-map : (p : B → Bool) (xs : List A) → all p (map f xs) ≡ all (λ x. p (f x)) xs
  unfolding all
  all-map p [] = refl
  all-map p (x ∷ xs) = ground (arith, all-map p xs)

  pub count-map : (p : B → Bool) (xs : List A) → count p (map f xs) ≡ count (λ x. p (f x)) xs
  unfolding count
  count-map p [] = refl
  count-map p (x ∷ xs) = ground (arith, count-map p xs)

module _ {ℓ} {A : Type ℓ} where
  pub all-single : (p : A → Bool) (x : A) → all p (x ∷ []) ≡ p x
  unfolding all
  all-single p x = ground arith

  pub filter_ext :
      (p q : A → Bool) (xs : List A) → ((x : A) → p x ≡ q x) → filter p xs ≡ filter q xs
  unfolding filter
  filter_ext p q [] h = refl
  filter_ext p q (x ∷ xs) h = ground (arith, h x, filter_ext p q xs h)
