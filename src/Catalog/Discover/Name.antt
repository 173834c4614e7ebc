-- ===== src/Catalog/Discover/Name.antt =====
-- src/catalog/discover/name.rs: whether a file is a model on its own, and what its entry is called.
use maestro_llamacpp.Common.{
  ℕ, Bool, true, false, not, ◌&&◌, ◌||◌, Option, none, some, List, [], ◌∷◌, ◌++◌, ◌==◌, any,
  is_some_and, is_none_or, unwrap_or, if◌then◌else◌,
}
use maestro_llamacpp.Common.Options.{◌>>=◌}
use maestro_llamacpp.Common.Text.{
  Text, codes, text_eq, mem_text, is_digit, is_ascii_alphabetic, to_ascii_lowercase, lowercase,
  rsplit_once, contains_text, ends_with, split_by, trim_start_by, trim_end_by,
}
use maestro_llamacpp.Catalog.Disk.{Disk}
use maestro_llamacpp.Catalog.Estimate.Shards.{shard_of}

abbrev pub reserved : List Text
reserved = codes "load" ∷ codes "unload" ∷ codes "sse" ∷ codes "props" ∷ codes "models" ∷ []

unfoldable pub is_ascii_alphanumeric : ℕ → Bool
is_ascii_alphanumeric c = is_ascii_alphabetic c || is_digit c

abbrev pub is_empty : Text → Bool
is_empty [] = true
is_empty (c ∷ s) = false

-- `Path::extension`, of a file's name: what follows the last dot, unless the dot is the first
-- character.
unfoldable pub extension : Text → Option Text
extension name = rsplit_once b'.' name >>= λ (stem, rest). if is_empty stem then none else some rest

-- A draft's name has a part that ends in `mtp`.
unfoldable pub is_draft_name : Text → Bool
is_draft_name lower =
    any (λ segment. ends_with segment (codes "mtp"))
      (split_by (λ c. not (is_ascii_alphanumeric c)) lower)

unfoldable pub is_model : Text → Bool
is_model name =
    let lower = lowercase name in
    is_some_and (extension name) (λ e. text_eq (lowercase e) (codes "gguf"))
    && not (contains_text lower (codes "mmproj"))
    && not (is_draft_name lower)
    && is_none_or (shard_of name) (λ shard. shard.index == 1)

-- The loop over the characters; `hyphened` says that what is there ends with a hyphen.
unfoldable pub sanitised_from : Bool → Text → Text
sanitised_from hyphened [] = []
sanitised_from hyphened (c ∷ s) =
    let after_letter = sanitised_from false s in
    let after_hyphen = sanitised_from true s in
    if is_ascii_alphanumeric c
    then to_ascii_lowercase c ∷ after_letter
    else if hyphened
    then after_hyphen
    else b'-' ∷ after_hyphen

abbrev pub is_hyphen : ℕ → Bool
is_hyphen c = c == b'-'

unfoldable pub sanitised : Text → Text
sanitised text = trim_end_by is_hyphen (trim_start_by is_hyphen (sanitised_from false text))

-- What naming a file comes to: its identifier, the names that are taken, and the notes.
pub record Named : Type 0 where
  pub id : Option Text
  pub taken : List Text
  pub notes : List Text

abbrev pub stem_of : Text → Text
stem_of name = elim (shard_of name) [
  | some shard ↦ shard.stem
  | none ↦ elim (rsplit_once b'.' name) [ some (stem, extension) ↦ stem | none ↦ name ]
]

unfoldable pub taken_instead : Text → Text → Text → List Text → List Text → Named
taken_instead display wanted parent taken notes =
    let instead = parent ++ codes "-" ++ wanted in
    if is_empty parent || mem_text instead taken
    then record {
      id = none;
      taken = taken;
      notes =
          notes
          ++ (codes "skipped '"
              ++ display
              ++ codes "': '"
              ++ wanted
              ++ codes "' is already taken, and so is '"
              ++ instead
              ++ codes "'")
            ∷ [];
    }
    else record {
      id = some instead;
      taken = instead ∷ taken;
      notes =
          notes
          ++ (codes "discovered '"
              ++ display
              ++ codes "' as '"
              ++ instead
              ++ codes "', because '"
              ++ wanted
              ++ codes "' is already taken")
            ∷ [];
    }

-- The identifier that a name asks for, unless it is taken.
unfoldable pub named : Text → Text → Text → List Text → List Text → Named
named display wanted parent taken notes =
    if is_empty wanted
    then record { id = none; taken = taken; notes = notes }
    else if mem_text wanted taken
    then taken_instead display wanted parent taken notes
    else record { id = some wanted; taken = wanted ∷ taken; notes = notes }

unfoldable pub identifier : {P : Type 0} → Disk P → P → List Text → List Text → Named
identifier disk file taken notes = elim (disk.file_name file) [
  | none ↦ record { id = none; taken = taken; notes = notes }
  | some name ↦
      named (disk.display file) (sanitised (stem_of name))
        (unwrap_or (disk.parent_name file >>= λ parent. some (sanitised parent)) []) taken notes
]
