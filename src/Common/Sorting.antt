-- ===== src/Common/Sorting.antt =====
-- Rust's `sort_by_key`: a stable sort, here by insertion.
use Prim.Native.Nat.{ℕ, ◌+◌, ◌≤◌}
use mathlib.Core.Path.{◌≡◌, refl, ap, ◌∙◌}
use mathlib.Core.Logic.{inl, inr}
use mathlib.Core.List.{List, [], ◌∷◌, ◌++◌, Perm}
use mathlib.Core.List.Perm
use native.Mathlib.Omega.{arith}
use native.Mathlib.Nat.{le_trans}
use maestro_llamacpp.Common.Tests.{if◌then◌else◌, leb, leb→le, Bool-cases}
use maestro_llamacpp.Common.Lists.{All, All-imp, All-append_left, All-append_right}
use maestro_llamacpp.Common.Sums.{sum_by}

module _ {ℓ} {A : Type ℓ} (key : A → ℕ) where
  unfoldable pub insert_by_key : A → List A → List A
  insert_by_key x [] = x ∷ []
  insert_by_key x (y ∷ ys) =
      let rest = insert_by_key x ys in if leb (key x) (key y) then x ∷ y ∷ ys else y ∷ rest

  unfoldable pub sort_by_key : List A → List A
  unfolding insert_by_key
  sort_by_key [] = []
  sort_by_key (x ∷ xs) = insert_by_key x (sort_by_key xs)

  -- Every element's key is at most those behind it.
  abbrev pub IsSortedBy : List A → Type 0
  IsSortedBy [] = Unit
  IsSortedBy (x ∷ xs) = All (λ y. key x ≤ key y) xs × IsSortedBy xs

  pub sum_by-insert_by_key :
      (f : A → ℕ) (x : A) (xs : List A) → sum_by f (insert_by_key x xs) ≡ f x + sum_by f xs
  unfolding insert_by_key sum_by
  sum_by-insert_by_key f x [] = refl
  sum_by-insert_by_key f x (y ∷ ys) = ground (arith, sum_by-insert_by_key f x ys)

  -- Sorting changes no sum over the list.
  pub sum_by-sort_by_key : (f : A → ℕ) (xs : List A) → sum_by f (sort_by_key xs) ≡ sum_by f xs
  unfolding sort_by_key sum_by
  sum_by-sort_by_key f [] = refl
  sum_by-sort_by_key f (x ∷ xs) =
      sum_by-insert_by_key f x (sort_by_key xs) ∙ ap (λ n. f x + n) (sum_by-sort_by_key f xs)

  pub All-insert_by_key {κ} :
      (P : A → Type κ) (x : A) (xs : List A) → P x → All P xs → All P (insert_by_key x xs)
  unfolding insert_by_key
  All-insert_by_key P x [] px h = (px, tt)
  All-insert_by_key P x (y ∷ ys) px h = elim (Bool-cases (leb (key x) (key y))) [
    | inl e ↦ rw e (px, h)
    | inr e ↦ rw e (h.0, All-insert_by_key P x ys px h.1)
  ]

  -- What holds of every element holds of every element in the sorted list.
  pub All-sort_by_key {κ} : (P : A → Type κ) (xs : List A) → All P xs → All P (sort_by_key xs)
  unfolding sort_by_key
  All-sort_by_key P [] h = tt
  All-sort_by_key P (x ∷ xs) h =
      All-insert_by_key P x (sort_by_key xs) h.0 (All-sort_by_key P xs h.1)

  insert_by_key-IsSortedBy : (x : A) (xs : List A) → IsSortedBy xs → IsSortedBy (insert_by_key x xs)
  unfolding insert_by_key
  insert_by_key-IsSortedBy x [] h = (tt, tt)
  insert_by_key-IsSortedBy x (y ∷ ys) h = elim (Bool-cases (leb (key x) (key y))) [
    | inl e ↦
        rw e (
          (leb→le _ _ e, All-imp _ _ (λ z (q : key y ≤ key z). le_trans (leb→le _ _ e) q) ys h.0),
          h,
        )
    | inr e ↦ rw e (
      All-insert_by_key (λ z. key y ≤ key z) x ys (ground arith) h.0,
      insert_by_key-IsSortedBy x ys h.1,
    )
  ]

  pub sort_by_key-IsSortedBy : (xs : List A) → IsSortedBy (sort_by_key xs)
  unfolding sort_by_key
  sort_by_key-IsSortedBy [] = tt
  sort_by_key-IsSortedBy (x ∷ xs) =
      insert_by_key-IsSortedBy x (sort_by_key xs) (sort_by_key-IsSortedBy xs)

-- In a sorted list every element of the front is at most every element of the back.
pub IsSortedBy-append {ℓ} :
    {A : Type ℓ} (key : A → ℕ) (xs ys : List A)
    → IsSortedBy key (xs ++ ys)
    → All (λ x. All (λ y. key x ≤ key y) ys) xs
IsSortedBy-append key [] ys h = tt
IsSortedBy-append key (x ∷ xs) ys h =
    (All-append_right _ xs ys h.0, IsSortedBy-append key xs ys h.1)

module _ {ℓ} {A : Type ℓ} (key : A → ℕ) where
  insert_by_key-perm : (x : A) (xs : List A) → Perm (insert_by_key key x xs) (x ∷ xs)
  unfolding insert_by_key
  insert_by_key-perm x [] = Perm.refl (x ∷ [])
  insert_by_key-perm x (y ∷ ys) = elim (Bool-cases (leb (key x) (key y))) [
    | inl e ↦ rw e (Perm.refl (x ∷ y ∷ ys))
    | inr e ↦ rw e (Perm.trans (Perm.cons y (insert_by_key-perm x ys)) (Perm.swap x y ys))
  ]

  -- Sorting keeps every element as often as it stood there.
  pub sort_by_key-perm : (xs : List A) → Perm (sort_by_key key xs) xs
  unfolding sort_by_key
  sort_by_key-perm [] = Perm.refl []
  sort_by_key-perm (x ∷ xs) =
      Perm.trans (insert_by_key-perm x (sort_by_key key xs)) (Perm.cons x (sort_by_key-perm xs))

module _ {ℓ} {A : Type ℓ} (key : A → ℕ) where
  pub IsSortedBy-append_left : (xs ys : List A) → IsSortedBy key (xs ++ ys) → IsSortedBy key xs
  IsSortedBy-append_left [] ys h = tt
  IsSortedBy-append_left (x ∷ xs) ys h =
      (All-append_left _ xs ys h.0, IsSortedBy-append_left xs ys h.1)
