-- ===== src/Catalog/Discover.antt =====
-- src/catalog/discover.rs: every model file under the root that the catalog does not name.
pub mod Name
pub mod Fresh
use maestro_llamacpp.Common.{
  ℕ, zero, suc, min, Bool, true, false, not, ◌&&◌, Option, none, some, List, [], ◌∷◌, ◌++◌, ltb,
  map, any, is_some_and, unwrap_or, or_option, if◌then◌else◌,
}
use maestro_llamacpp.Common.Options.{◌>>=◌}
use maestro_llamacpp.Common.Text.{Text, codes, join, show}
use maestro_llamacpp.Common.Word.{try_u32, u32_max}
use maestro_llamacpp.Gguf.{of_model}
use maestro_llamacpp.Catalog.{Entry, on_demand}
use maestro_llamacpp.Catalog.Location.{RelativePath, Checked, usable, complaint, new_path}
use maestro_llamacpp.Catalog.Disk.{Disk, metadata_at}
use maestro_llamacpp.Catalog.Estimate.{
  Basis, from_metadata, from_size, Derived, Attempt, made, failed, derive,
}
use maestro_llamacpp.Catalog.Read.Defaults.{Defaults, default_startup_timeout_seconds}
use Name.{Named, reserved, is_model, identifier}

abbrev pub max_depth : ℕ
max_depth = 16

abbrev pub fallback_context : ℕ
fallback_context = 4096

abbrev pub checked : {A : Type 0} → Checked A → Option A
checked (usable a) = some a
checked (complaint words) = none

abbrev pub option_list : {A : Type 0} → Option A → List A
option_list none = []
option_list (some a) = a ∷ []

abbrev pub basis_words : Basis → Text
basis_words from_metadata = []
basis_words from_size = codes ", from file size alone"

-- A file's entry, if there is one, and the notes.
abbrev pub Found : Type 0
Found = Option Entry × List Text

abbrev pub note : List Text → Text → List Text
note notes line = notes ++ line ∷ []

-- The context that the model was trained for, if the file says so.
abbrev pub positive : ℕ → Option ℕ
positive context = if ltb 0 context then some context else none

abbrev pub context_of : Option ℕ → Option ℕ → ℕ
context_of default trained_for =
    min (unwrap_or (or_option default trained_for) fallback_context) (unwrap_or trained_for u32_max)

module _ {P : Type 0} (disk : Disk P) where
  -- The loop over what a directory holds.
  unfoldable pub walk_paths : (P → List P) → List P → List P
  walk_paths below [] = []
  walk_paths below (path ∷ paths) =
      (if disk.is_dir path
        then below path
        else if is_some_and (disk.file_name path) is_model
        then path ∷ []
        else [])
      ++ walk_paths below paths

  -- The first argument counts the levels that are left.
  unfoldable pub walk : ℕ → P → List P
  walk zero directory = []
  walk (suc levels) directory = elim (disk.read_dir directory) [
    | none ↦ []
    | some paths ↦ walk_paths (walk levels) paths
  ]

  unfoldable pub relative : P → Option RelativePath
  relative file = disk.parts file >>= λ parts. checked (new_path (join (codes "/") parts))

  unfoldable pub trained_for : RelativePath → Option ℕ
  trained_for location = metadata_at disk (disk.resolve location) >>= λ metadata.
      of_model metadata (codes "context_length") >>= try_u32 >>= positive

  abbrev pub undecided : Text → RelativePath → Defaults → Entry
  undecided id location defaults = record {
    id = id;
    path = location;
    draft_path = none;
    projector_path = none;
    context_size = context_of defaults.context_size (trained_for location);
    residency = on_demand;
    memory_estimate_mib = 0;
    reasoning_format = defaults.reasoning_format;
    reasoning_effort = defaults.reasoning_effort;
    startup_timeout_seconds =
        unwrap_or defaults.startup_timeout_seconds default_startup_timeout_seconds;
    runtime = none;
    flags = defaults.flags;
  }

  abbrev pub decided : Entry → List Text → Attempt Derived → Found
  decided e notes (made derived) = (
    some (record e { memory_estimate_mib = derived.mib }),
    note notes (
        codes "discovered '"
        ++ e.id
        ++ codes "' at "
        ++ e.path.text
        ++ codes ": "
        ++ show derived.mib
        ++ codes " MiB estimated at "
        ++ show e.context_size
        ++ codes " tokens of context"
        ++ basis_words derived.basis),
  )
  decided e notes (failed reason) =
      (none, note notes (codes "skipped '" ++ e.path.text ++ codes "': " ++ reason))

  unfoldable pub discovered_entry : Text → RelativePath → Defaults → List Text → Found
  discovered_entry id location defaults notes =
      let e = undecided id location defaults in decided e notes (derive disk e)

  abbrev pub named_entry : Option Text → RelativePath → Defaults → List Text → Found
  named_entry none location defaults notes = (none, notes)
  named_entry (some id) location defaults notes = discovered_entry id location defaults notes

  -- The loop over the files.
  unfoldable pub found_among :
      List P → Defaults → List P → List Text → List Text → List Entry × List Text
  found_among referenced defaults [] taken notes = ([], notes)
  found_among referenced defaults (file ∷ files) taken notes =
      if any (disk.path_eq file) referenced
      then found_among referenced defaults files taken notes
      else elim (relative file) [
        | none ↦ found_among referenced defaults files taken (
            note notes (
              codes "skipped '"
              ++ disk.display file
              ++ codes "': its path is not text this catalog can carry"))
        | some location ↦
            let name = identifier disk file taken notes in
            let found = named_entry name.id location defaults name.notes in
            let more = found_among referenced defaults files name.taken found.1 in
            (option_list found.0 ++ more.0, more.1)
      ]

  -- The files that an entry names.
  abbrev pub locations : Entry → List P
  locations e = map disk.resolve (e.path ∷ option_list e.draft_path ++ option_list e.projector_path)

  unfoldable pub referenced_by : List Entry → List P
  referenced_by [] = []
  referenced_by (e ∷ entries) = locations e ++ referenced_by entries

  unfoldable pub under : List Entry → Defaults → List Text → List Entry × List Text
  under entries defaults notes =
      found_among (referenced_by entries) defaults (walk (suc max_depth) disk.root)
        (map (λ (e : Entry). e.id) entries ++ reserved) notes
