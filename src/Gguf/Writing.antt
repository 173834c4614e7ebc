-- ===== src/Gguf/Writing.antt =====
-- The format that src/gguf.rs reads, from the side of a writer, and what a file in it says.
use maestro_llamacpp.Common.{
  ℕ, ◌*◌, ◌^◌, ◌≤◌, ◌<◌, true, Option, none, some, List, [], ◌∷◌, ◌++◌, ltb, length, All, map, ◌≡◌,
  if◌then◌else◌,
}
use maestro_llamacpp.Common.Text.{Text}
use maestro_llamacpp.Common.Bytes.{to_le_bytes}
use maestro_llamacpp.Gguf.Reader.{Files, width_of, unsigned}
use maestro_llamacpp.Gguf.{
  Metadata, is_per_layer, max_option, with_largest, with_elements, with_number, with_text,
  string_kind, array_kind, max_kept_text_bytes, max_key_bytes, max_layer_array, magic,
}

-- A value: a text, a scalar of a kind, and arrays of either. Texts and scalars are bytes.
pub data Value : Type 0 where
  text : List ℕ → Value
  scalar : ℕ → List ℕ → Value
  texts : List (List ℕ) → Value
  scalars : ℕ → List (List ℕ) → Value

pub record Pair : Type 0 where
  pub key : List ℕ
  pub value : Value

abbrev pub concat : List (List ℕ) → List ℕ
concat [] = []
concat (xs ∷ xss) = xs ++ concat xss

abbrev pub write_text : List ℕ → List ℕ
write_text s = to_le_bytes 8 (length s) ++ s

abbrev pub kind_of : Value → ℕ
kind_of (text s) = string_kind
kind_of (scalar kind bytes) = kind
kind_of (texts ss) = array_kind
kind_of (scalars kind xs) = array_kind

abbrev pub write_array : ℕ → ℕ → List ℕ → List ℕ
write_array kind count body = to_le_bytes 4 kind ++ (to_le_bytes 8 count ++ body)

abbrev pub write_value : Value → List ℕ
write_value (text s) = write_text s
write_value (scalar kind bytes) = bytes
write_value (texts ss) = write_array string_kind (length ss) (concat (map write_text ss))
write_value (scalars kind xs) = write_array kind (length xs) (concat xs)

abbrev pub write_pair : Pair → List ℕ
write_pair p = write_text p.key ++ (to_le_bytes 4 (kind_of p.value) ++ write_value p.value)

abbrev pub write_pairs : List Pair → List ℕ
write_pairs [] = []
write_pairs (p ∷ ps) = write_pair p ++ write_pairs ps

-- The file up to its tensors.
abbrev pub write : ℕ → ℕ → List Pair → List ℕ
write version tensors ps =
    magic
    ++ (to_le_bytes 4 version
        ++ (to_le_bytes 8 tensors ++ (to_le_bytes 8 (length ps) ++ write_pairs ps)))

-- The elements of an array that are integers and not negative, and the largest of them.
abbrev pub kept_elements : ℕ → List (List ℕ) → List ℕ
kept_elements kind [] = []
kept_elements kind (x ∷ xs) = elim (unsigned kind x) [
  | none ↦ kept_elements kind xs
  | some n ↦ n ∷ kept_elements kind xs
]

abbrev pub largest_from : Option ℕ → ℕ → List (List ℕ) → Option ℕ
largest_from largest kind [] = largest
largest_from largest kind (x ∷ xs) = largest_from (max_option largest (unsigned kind x)) kind xs

-- What a value says of the model under its key.
module _ (files : Files) where
  abbrev pub says : Text → Value → Metadata → Metadata
  says key (text s) m =
      with_text key
        (if ltb max_kept_text_bytes (length s) then none else some (files.from_utf8_lossy s)) m
  says key (scalar kind bytes) m = with_number key (unsigned kind bytes) m
  says key (texts ss) m = m
  says key (scalars kind xs) m =
      if is_per_layer key
      then with_elements key (kept_elements kind xs)
          (with_largest key (largest_from none kind xs) m)
      else m

  abbrev pub all_say : List Pair → Metadata → Metadata
  all_say [] m = m
  all_say (p ∷ ps) m = all_say ps (says (files.from_utf8_lossy p.key) p.value m)

  -- What a file may hold: texts and arrays of less than 2^63 bytes, scalars of the width of their
  -- kind, and of arrays by layer no more than 2^20 elements.
  abbrev pub IsValue : Text → Value → Type 0
  IsValue key (text s) = length s < 2 ^ 63
  IsValue key (scalar kind bytes) = width_of kind ≡ some (length bytes)
  IsValue key (texts ss) = (length ss < 2 ^ 63) × All (λ s. length s < 2 ^ 63) ss
  IsValue key (scalars kind xs) =
      (each : ℕ) × (width_of kind ≡ some each)
      × All (λ x. length x ≡ each) xs
      × (length xs * each < 2 ^ 63)
      × (is_per_layer key ≡ true → length xs ≤ max_layer_array)

  pub record IsPair (p : Pair) : Type 0 where
    pub short_key : length p.key ≤ max_key_bytes
    pub value : IsValue (files.from_utf8_lossy p.key) p.value
