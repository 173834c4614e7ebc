-- ===== src/Common/Sums.antt =====
-- Sums of a figure over a list.
use Prim.Native.Nat.{ℕ, ◌+◌, ◌≤◌}
use mathlib.Core.Path.{◌≡◌, refl}
use mathlib.Core.Bool.{Bool, true, not}
use mathlib.Core.List.{List, [], ◌∷◌, ◌++◌}
use native.Mathlib.Omega.{arith}
use maestro_llamacpp.Common.Tests.{if◌then◌else◌}
use maestro_llamacpp.Common.Lists.{keep, All}

module _ {ℓ} {A : Type ℓ} where
  -- The exact sum, which no machine word bounds.
  unfoldable pub sum_by : (A → ℕ) → List A → ℕ
  sum_by f [] = 0
  sum_by f (x ∷ xs) = f x + sum_by f xs

  pub sum_by-append : (f : A → ℕ) (xs ys : List A) → sum_by f (xs ++ ys) ≡ sum_by f xs + sum_by f ys
  unfolding sum_by
  sum_by-append f [] ys = omega arith
  sum_by-append f (x ∷ xs) ys = omega (arith, sum_by-append f xs ys)

  pub sum_by-keep_le : (f : A → ℕ) (p : A → Bool) (xs : List A) → sum_by f (keep p xs) ≤ sum_by f xs
  unfolding sum_by keep
  sum_by-keep_le f p [] = omega arith
  sum_by-keep_le f p (x ∷ xs) = ground (arith, sum_by-keep_le f p xs)

  -- A filter and its complement share the sum out.
  pub sum_by-keep-not :
      (f : A → ℕ) (p : A → Bool) (xs : List A)
      → sum_by f (keep p xs) + sum_by f (keep (λ x. not (p x)) xs) ≡ sum_by f xs
  unfolding sum_by keep
  sum_by-keep-not f p [] = omega arith
  sum_by-keep-not f p (x ∷ xs) = ground (arith, sum_by-keep-not f p xs)

  -- The sum over a filter is the sum of the figure where the test holds.
  pub sum_by-keep :
      (f : A → ℕ) (p : A → Bool) (xs : List A)
      → sum_by f (keep p xs) ≡ sum_by (λ x. if p x then f x else 0) xs
  unfolding sum_by keep
  sum_by-keep f p [] = refl
  sum_by-keep f p (x ∷ xs) = ground (arith, sum_by-keep f p xs)

  pub sum_by-All :
      (f : A → ℕ) (p : A → Bool) (xs : List A)
      → All (λ x. p x ≡ true) xs
      → sum_by (λ x. if p x then f x else 0) xs ≡ sum_by f xs
  unfolding sum_by
  sum_by-All f p [] h = refl
  sum_by-All f p (x ∷ xs) h = ground (arith, sum_by-All f p xs h.1)

  pub sum_by-keep_mono :
      (f : A → ℕ) (p q : A → Bool) (xs : List A)
      → All (λ x. p x ≡ true → q x ≡ true) xs
      → sum_by f (keep p xs) ≤ sum_by f (keep q xs)
  unfolding sum_by keep
  sum_by-keep_mono f p q [] h = omega arith
  sum_by-keep_mono f p q (x ∷ xs) h = ground (arith, h.0, sum_by-keep_mono f p q xs h.1)
