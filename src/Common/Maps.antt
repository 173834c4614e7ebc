-- ===== src/Common/Maps.antt =====
-- A `BTreeMap` from texts: its pairs in the order of its keys.
use mathlib.Core.Path.{◌≡◌, refl, sym, ap, ◌∙◌}
use mathlib.Core.Logic.{inl, inr}
use mathlib.Core.Bool.{Bool, true, false, ◌&&◌, ◌||◌}
use mathlib.Core.Option.{Option, none, some}
use mathlib.Core.List.{List, [], ◌∷◌}
use native.Mathlib.Omega.{arith}
use maestro_llamacpp.Common.Tests.{ltb, ◌==◌, if◌then◌else◌, Bool-cases}
use maestro_llamacpp.Common.Text.{Text, text_eq}
use maestro_llamacpp.Common.Text.Equality.{text_eq_iff}

-- The order of the keys.
unfoldable pub text_lt : Text → Text → Bool
text_lt [] [] = false
text_lt [] (d ∷ t) = true
text_lt (c ∷ s) [] = false
text_lt (c ∷ s) (d ∷ t) = ltb c d || (c == d && text_lt s t)

module _ {ℓ} {V : Type ℓ} where
  unfoldable pub get : Text → List (Text × V) → Option V
  get k [] = none
  get k ((j, v) ∷ m) = let rest = get k m in if text_eq j k then some v else rest

  unfoldable pub insert : Text → V → List (Text × V) → List (Text × V)
  insert key value [] = (key, value) ∷ []
  insert key value ((j, w) ∷ m) =
      let rest = insert key value m in
      if text_eq key j
      then (key, value) ∷ m
      else if text_lt key j
      then (key, value) ∷ (j, w) ∷ m
      else (j, w) ∷ rest

  pub get-insert :
      (k key : Text) (value : V) (m : List (Text × V))
      → get k (insert key value m) ≡ (if text_eq key k then some value else get k m)
  unfolding insert get
  get-insert k key value [] = refl
  get-insert k key value ((j, w) ∷ m) = elim (Bool-cases (text_eq key j)) [
    | inl e ↦
        let same : key ≡ j = (text_eq_iff key j).0 e in
        rw (e, insert) (ground (arith, ap (λ (t : Text). text_eq t k) same))
    | inr e ↦
        rw (e, insert)
          (elim (Bool-cases (text_lt key j)) [
            | inl l ↦ rw l refl
            | inr l ↦ rw l (elim (Bool-cases (text_eq j k)) [
              | inr n ↦ rw n (get-insert k key value m)
              | inl y ↦
                  let apart : text_eq key k ≡ false =
                    ap (text_eq key) (sym ((text_eq_iff j k).0 y)) ∙ e in
                  rw y (rw apart refl)
            ])
          ])
  ]
