-- ===== src/Catalog/Location/Relative.antt =====
-- Which locations a catalog may name.
use maestro_llamacpp.Common.{
  ℕ, ◌≤◌, ◌⊎◌, none, [], ◌∷◌, ◌≡◌, ◌≢◌, refl, sym, ap, arith, Option-cases, inl, inr,
}
use maestro_llamacpp.Common.Text.{Text, starts_with, is_ascii_alphabetic}
use maestro_llamacpp.Catalog.Location.{
  RelativePath, usable, drive_letter, anchor_of, anchored, new_path,
}

-- A letter of the alphabet, in either case.
abbrev IsLetter : ℕ → Type 0
IsLetter c = ((65 ≤ c) × (c ≤ 90)) ⊎ ((97 ≤ c) × (c ≤ 122))

-- What begins at the root of some system: with a slash (47), with a backslash (92), or with the letter of a
-- drive and a colon (58).
abbrev pub IsRooted : Text → Type 0
IsRooted [] = ⊥
IsRooted (c ∷ []) = (c ≡ 47) ⊎ (c ≡ 92)
IsRooted (c ∷ d ∷ s) = (c ≡ 47) ⊎ (c ≡ 92) ⊎ ((d ≡ 58) × IsLetter c)

abbrev pub IsRelative : Text → Type 0
IsRelative value = (value ≢ []) × (¬ IsRooted value)

anchor_of-none :
    (v : Text)
    → v ≢ []
    → ((anchor_of v ≡ none) → ¬ IsRooted v) × ((¬ IsRooted v) → anchor_of v ≡ none)
unfolding anchor_of drive_letter starts_with is_ascii_alphabetic
anchor_of-none [] given = absurd (given refl)
anchor_of-none (c ∷ []) given = (λ h r. ground arith, λ r. ground arith)
anchor_of-none (c ∷ d ∷ s) given = (λ h r. ground arith, λ r. ground arith)

path_text : (a b : RelativePath) → usable a ≡ usable b → b.text ≡ a.text
path_text a b h = let same : a ≡ b = cc in ap (λ (p : RelativePath). p.text) (sym same)

-- A location is usable if it is not empty and begins neither with a slash nor with a backslash nor
-- with a letter and a colon, and then it is the text as it was written; any other is refused.
pub new_path_iff :
    (value : Text) (path : RelativePath)
    → ((new_path value ≡ usable path) → IsRelative value × (path.text ≡ value))
      × (IsRelative value × (path.text ≡ value) → new_path value ≡ usable path)
unfolding new_path
new_path_iff [] path = (λ h. absurd (cc), λ r. absurd (r.0.0 refl))
new_path_iff (c ∷ s) path =
    let (to, from) = anchor_of-none (c ∷ s) (λ q. absurd (cc)) in
    elim (Option-cases (anchor_of (c ∷ s))) [
      | inl n ↦
          rw (n, new_path, anchored)
            (
              λ h. ((λ q. absurd (cc), to n), path_text (record { text = c ∷ s }) path h),
              λ r. ap (λ (t : Text). usable (record { text = t })) (sym r.1),
            )
      | inr (anchor, n) ↦
          rw (n, new_path, anchored) (λ h. absurd (cc), λ r. absurd (cc (from r.0.1, n)))
    ]
