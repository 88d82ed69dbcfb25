-- ===== src/Common/Sorting.antt =====
-- `sorted(xs, key=...)`: a stable sort, over the order "strictly before" of the keys.
use mini_qmt.Common.Tests.{if◌then◌else◌}
use mini_qmt.Common.Int.{ℤ, ◌+ℤ◌, int_laws}
use mini_qmt.Common.Lists.{sum_by, total_by, All}
use Prim.Native.Nat.{ℕ, ◌+◌}
use mathlib.Core.Path.{◌≡◌, refl, ap, ◌∙◌}
use mathlib.Core.List.{List, [], ◌∷◌}
use mathlib.Core.Bool.{Bool, true, false}
use native.Mathlib.Omega.{arith}

module _ {ℓ} {A : Type ℓ} (before : A → A → Bool) where
  unfoldable pub insert : A → List A → List A
  insert x [] = x ∷ []
  insert x (y ∷ ys) = if before y x then y ∷ insert x ys else x ∷ y ∷ ys

  unfoldable pub sort : List A → List A
  unfolding insert
  sort [] = []
  sort (x ∷ xs) = insert x (sort xs)

  sum_by-insert : (f : A → ℕ) (x : A) (ys : List A) → sum_by f (insert x ys) ≡ f x + sum_by f ys
  unfolding insert
  sum_by-insert f x [] = refl
  sum_by-insert f x (y ∷ ys) = ground (arith, sum_by-insert f x ys)

  -- Sorting changes no sum.
  pub sum_by-sort : (f : A → ℕ) (xs : List A) → sum_by f (sort xs) ≡ sum_by f xs
  unfolding sort
  sum_by-sort f [] = refl
  sum_by-sort f (x ∷ xs) = omega (arith, sum_by-insert f x (sort xs), sum_by-sort f xs)

  total_by-insert :
      (f : A → ℤ) (x : A) (ys : List A) → total_by f (insert x ys) ≡ f x +ℤ total_by f ys
  unfolding insert
  total_by-insert f x [] = refl
  total_by-insert f x (y ∷ ys) = grind (int_laws, total_by-insert f x ys)

  pub total_by-sort : (f : A → ℤ) (xs : List A) → total_by f (sort xs) ≡ total_by f xs
  unfolding sort
  total_by-sort f [] = refl
  total_by-sort f (x ∷ xs) = total_by-insert f x (sort xs) ∙ ap (λ t. f x +ℤ t) (total_by-sort f xs)

  module _ (P : A → Type 0) where
    pub All-insert : (x : A) (ys : List A) → P x → All P ys → All P (insert x ys)
    unfolding insert
    All-insert x [] h k = (h, tt)
    All-insert x (y ∷ ys) h k = go (before y x) (All-insert x ys h k.1)
      where
        go : (b : Bool) → All P (insert x ys) → All P (if b then y ∷ insert x ys else x ∷ y ∷ ys)
        go true r = (k.0, r)
        go false r = (h, k)

    -- Sorting keeps what holds of every element.
    pub All-sort : (xs : List A) → All P xs → All P (sort xs)
    unfolding sort
    All-sort [] h = tt
    All-sort (x ∷ xs) h = All-insert x (sort xs) h.0 (All-sort xs h.1)

module _ {ℓ} {A : Type ℓ} (before : A → A → Bool) where
  -- Neither before the other: the same element.
  unfoldable pub insert_new : A → List A → List A
  insert_new x [] = x ∷ []
  insert_new x (y ∷ ys) =
      if before x y then x ∷ y ∷ ys else if before y x then y ∷ insert_new x ys else y ∷ ys

  -- `sorted(set(xs))`
  unfoldable pub sorted_set : List A → List A
  unfolding insert_new
  sorted_set [] = []
  sorted_set (x ∷ xs) = insert_new x (sorted_set xs)
