-- ===== src/Common/Options.antt =====
-- Chains of options: Rust's `?` on an `Option`, and `find_map`.
use mathlib.Core.Path.{◌≡◌}
use mathlib.Core.Option.{Option, none, some}
use mathlib.Core.List.{List, [], ◌∷◌}
use Prim.Native.Nat.{ℕ, zero, suc}

infixl 5 ◌>>=◌
abbrev pub ◌>>=◌ : {A B : Type 0} → Option A → (A → Option B) → Option B
none >>= f = none
some a >>= f = f a

-- What every result of the second step has, the chain's result has.
pub bind-All :
    {A B : Type 0} (P : B → Type 0) (o : Option A) (f : A → Option B)
    → ((a : A) (b : B) → f a ≡ some b → P b)
    → (b : B) → (o >>= f) ≡ some b
    → P b
bind-All P none f g b h = cc
bind-All P (some a) f g b h = g a b h

module _ {A B : Type 0} where
  unfoldable pub find_map : (A → Option B) → List A → Option B
  find_map f [] = none
  find_map f (x ∷ xs) = let rest = find_map f xs in elim (f x) [ none ↦ rest | some b ↦ some b ]

-- `get` of a slice
unfoldable pub get_elem? : {A : Type 0} → ℕ → List A → Option A
get_elem? n [] = none
get_elem? zero (x ∷ xs) = some x
get_elem? (suc n) (x ∷ xs) = get_elem? n xs
