-- ===== src/Catalog/Field.antt =====
-- src/catalog/field.rs: reading the fields of a TOML table. The toml crate's values are a
-- parameter: a value is asked whether it is a text, an integer or a table.
use maestro_llamacpp.Common.{
  ℕ, suc, Bool, true, not, ◌&&◌, ◌||◌, Option, none, some, List, [], ◌∷◌, ◌++◌, ltb, leb, ◌==◌,
  if◌then◌else◌, is_none,
}
use maestro_llamacpp.Common.Text.{
  Text, codes, text_eq, mem_text, show, is_digit, is_ascii_lowercase,
}
use maestro_llamacpp.Common.Word.{u32_max}
use maestro_llamacpp.Catalog.{Residency, parse_residency, Flags}
use maestro_llamacpp.Catalog.Location.{RelativePath, Checked, usable, complaint, new_path}

-- A 64-bit integer of TOML.
pub data ℤ : Type 0 where
  pos negsuc : ℕ → ℤ

show_int : ℤ → Text
show_int (pos n) = show n
show_int (negsuc n) = codes "-" ++ show (suc n)

-- A value's own views; a table is its keys and values, in the order of its keys.
pub record Values : Type 1 where
  pub Value : Type 0
  pub as_str : Value → Option Text
  pub as_integer : Value → Option ℤ
  pub as_table : Value → Option (List (Text × Value))

-- A value that was read, if it was, and the problems that the reading adds.
abbrev pub Reading : Type 0 → Type 0
Reading A = Option A × List Text

unfoldable pub problem : Text → Text → Text → Text
problem scope field complaint_of = scope ++ codes ": field '" ++ field ++ codes "' " ++ complaint_of

too_small : ℤ → Text
unfolding show_int
too_small number = codes "must be greater than zero, but is " ++ show_int number

unfoldable pub positive_of : ℤ → Checked ℕ
unfolding too_small
positive_of (negsuc n) = complaint (too_small (negsuc n))
positive_of (pos n) = if ltb 0 n && leb n u32_max then usable n else complaint (too_small (pos n))

unfoldable pub residency_of : Text → Checked Residency
residency_of text = elim (parse_residency text) [
  | some residency ↦ usable residency
  | none ↦ complaint (codes "must be one of resident or on-demand, but is '" ++ text ++ codes "'")
]

is_runtime_char : ℕ → Bool
is_runtime_char c = is_ascii_lowercase c || is_digit c || c == b'-'

all_chars : (ℕ → Bool) → Text → Bool
all_chars p [] = true
all_chars p (c ∷ s) = p c && all_chars p s

unfoldable pub runtime_of : Text → Checked Text
unfolding is_runtime_char all_chars
runtime_of text =
    if not (text_eq text []) && all_chars is_runtime_char text
    then usable text
    else complaint (
        codes
          "must be lowercase letters, digits and hyphens, because it names a binary beside llama-server, but is '"
        ++ text
        ++ codes "'")

abbrev and_then : {A B : Type 0} → Checked A → (A → Checked B) → Checked B
and_then (usable a) f = f a
and_then (complaint c) f = complaint c

module _ (toml : Values) where
  abbrev pub Table : Type 0
  Table = List (Text × toml.Value)

  unfoldable pub get : Text → Table → Option toml.Value
  get field [] = none
  get field ((key, value) ∷ table) =
      let rest = get field table in if text_eq key field then some value else rest

  unfoldable pub report_unknown : Table → List Text → Text → List Text
  report_unknown [] fields scope = []
  report_unknown ((key, value) ∷ table) fields scope =
      let rest = report_unknown table fields scope in
      if mem_text key fields then rest else problem scope key (codes "is not recognised") ∷ rest

  unfoldable pub table_at : Table → Text → Text → Reading Table
  table_at table scope field = elim (get field table) [
    | none ↦ (none, [])
    | some value ↦ elim (toml.as_table value) [
      | some inner ↦ (some inner, [])
      | none ↦ (none, problem scope field (codes "must be a table") ∷ [])
    ]
  ]

  reading_of : {A : Type 0} → Text → Text → Checked A → Reading A
  reading_of scope field (usable a) = (some a, [])
  reading_of scope field (complaint c) = (none, problem scope field c ∷ [])

  unfoldable pub optional :
      {A : Type 0} → Table → Text → Text → (toml.Value → Checked A) → Reading A
  unfolding reading_of
  optional table scope field parse = elim (get field table) [
    | none ↦ (none, [])
    | some value ↦ reading_of scope field (parse value)
  ]

  unfoldable pub required :
      {A : Type 0} → Table → Text → Text → (toml.Value → Checked A) → Reading A
  required table scope field parse =
      if is_none (get field table)
      then (none, problem scope field (codes "is required") ∷ [])
      else optional table scope field parse

  unfoldable pub as_text : toml.Value → Checked Text
  as_text value = elim (toml.as_str value) [
    | some text ↦ usable text
    | none ↦ complaint (codes "must be a string")
  ]

  unfoldable pub as_positive : toml.Value → Checked ℕ
  as_positive value = elim (toml.as_integer value) [
    | some number ↦ positive_of number
    | none ↦ complaint (codes "must be a whole number")
  ]

  unfoldable pub as_residency : toml.Value → Checked Residency
  as_residency value = and_then (as_text value) residency_of

  unfoldable pub as_runtime : toml.Value → Checked Text
  as_runtime value = and_then (as_text value) runtime_of

  unfoldable pub as_location : toml.Value → Checked RelativePath
  as_location value = and_then (as_text value) new_path

  not_text : Text → Text → Text
  not_text scope key =
      problem scope (codes "flags") (codes "carries '" ++ key ++ codes "', which must be a string")

  -- The flags of a table whose keys differ, in their order.
  unfoldable pub flags_in : Text → Table → Flags × List Text
  unfolding not_text
  flags_in scope [] = ([], [])
  flags_in scope ((key, value) ∷ table) =
      let rest = flags_in scope table in
      elim (as_text value) [
        | usable text ↦ ((key, text) ∷ rest.0, rest.1)
        | complaint c ↦ (rest.0, not_text scope key ∷ rest.1)
      ]

  unfoldable pub flags : Table → Text → Flags × List Text
  flags table scope =
      let at = table_at table scope (codes "flags") in
      elim at.0 [ none ↦ ([], at.1) | some inner ↦ flags_in scope inner ]
