-- ===== src/Catalog/Location.antt =====
-- src/catalog/path.rs: a location relative to the models root.
pub mod Relative
use maestro_llamacpp.Common.{ℕ, ◌&&◌, ◌||◌, Option, none, some, [], ◌∷◌, ◌++◌, ◌==◌, if◌then◌else◌}
use maestro_llamacpp.Common.Text.{Text, codes, starts_with, is_ascii_alphabetic}

pub record RelativePath : Type 0 where
  pub text : Text

pub data Checked {ℓ} (A : Type ℓ) : Type ℓ where
  usable : A → Checked A
  complaint : Text → Checked A

abbrev backslash : ℕ
backslash = 92

unfoldable pub drive_letter : Text → Option Text
drive_letter (letter ∷ b ∷ s) =
    if b == b':' && is_ascii_alphabetic letter then some (codes "a drive letter") else none
drive_letter _ = none

unfoldable pub anchor_of : Text → Option Text
unfolding drive_letter
anchor_of value =
    if starts_with value (backslash ∷ backslash ∷ [])
    then some (codes "a network share")
    else if starts_with value (b'/' ∷ []) || starts_with value (backslash ∷ [])
    then some (codes "a filesystem root")
    else drive_letter value

unfoldable pub anchored : Text → Option Text → Checked RelativePath
anchored value none = usable (record { text = value })
anchored value (some anchor) = complaint (
    codes "must be relative to the models root, but '"
    ++ value
    ++ codes "' is anchored to "
    ++ anchor)

unfoldable pub new_path : Text → Checked RelativePath
unfolding anchored
new_path [] = complaint (codes "must not be empty")
new_path (c ∷ s) = anchored (c ∷ s) (anchor_of (c ∷ s))
