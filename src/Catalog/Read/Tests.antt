-- ===== src/Catalog/Read/Tests.antt =====
-- A catalog of one model, its values valued.
use maestro_llamacpp.Common.{All, Option, none, some, List, [], ◌∷◌, ◌≡◌, ◌≢◌, refl, map, any}
use maestro_llamacpp.Common.Text.{Text, codes, text_eq, mem_text, starts_with}
use maestro_llamacpp.Catalog.{Entry}
use maestro_llamacpp.Catalog.Location.Relative.{IsRelative, new_path_iff}
use maestro_llamacpp.Catalog.Location.{usable, new_path, anchor_of}
use maestro_llamacpp.Catalog.Field.{
  Values, Table, ℤ, pos, get, optional, required, table_at, report_unknown, flags, flags_in,
  as_text, as_positive, as_location, positive_of,
}
use maestro_llamacpp.Catalog.Read.Entries.{
  drafts, entries_of, entries_in, entry_of, entry_in, drafted, settled,
}
use maestro_llamacpp.Catalog.Read.Defaults.{defaults_of, all_problems}
use maestro_llamacpp.Catalog.Read.Merging.{extend_flags, insert_flag}
use maestro_llamacpp.Catalog.Read.Reporting.{keys, drafts_complete}
use maestro_llamacpp.Catalog.Read.Inheriting.{InheritsIn, drafts-InheritsIn}

-- The values of the catalog.
data Value : Type 0 where
  models model version path context_size : Value
  shared shared_flags flagged_models flagged own_flags on off : Value

abbrev text_at : Value → Option Text
text_at path = some (codes "m.gguf")
text_at on = some (codes "on")
text_at off = some (codes "off")
text_at _ = none

abbrev integer_at : Value → Option ℤ
integer_at version = some (pos 1)
integer_at context_size = some (pos 4096)
integer_at _ = none

abbrev table_of : Value → Option (List (Text × Value))
table_of models = some ((codes "m", model) ∷ [])
table_of model = some ((codes "context_size", context_size) ∷ (codes "path", path) ∷ [])
table_of shared = some ((codes "flags", shared_flags) ∷ [])
table_of shared_flags = some ((codes "fa", off) ∷ (codes "mlock", on) ∷ [])
table_of flagged_models = some ((codes "m", flagged) ∷ [])
table_of flagged =
    some (
      (codes "context_size", context_size) ∷ (codes "flags", own_flags) ∷ (codes "path", path) ∷ [])
table_of own_flags = some ((codes "fa", on) ∷ [])
table_of _ = none

abbrev valued : Values
valued = record { Value = Value; as_str = text_at; as_integer = integer_at; as_table = table_of }

abbrev one_model : Table valued
one_model = (codes "models", models) ∷ (codes "version", version) ∷ []

one_model_quiet : (drafts valued one_model).problems ≡ []
unfolding drafts defaults_of entries_of entries_in entry_of entry_in drafted settled all_problems
    get optional required table_at report_unknown flags as_text as_positive as_location positive_of
    new_path anchor_of text_eq mem_text starts_with codes any
one_model_quiet = refl

drafts_complete_example :
    ((drafts valued one_model).version ≢ none)
    × ((inner : Table valued) × ((value : Value) × (get valued (codes "models") one_model
            ≡ some value)
          × (table_of value ≡ some inner))
        × (map (λ (e : Entry). e.id) (drafts valued one_model).entries ≡ keys valued inner))
drafts_complete_example = drafts_complete valued one_model one_model_quiet

abbrev flagged_model : Table valued
flagged_model =
    (codes "defaults", shared) ∷ (codes "models", flagged_models) ∷ (codes "version", version) ∷ []

flagged_model_flags :
    map (λ (e : Entry). e.flags) (drafts valued flagged_model).entries
    ≡ ((codes "fa", codes "on") ∷ (codes "mlock", codes "on") ∷ []) ∷ []
unfolding drafts defaults_of entries_of entries_in entry_of entry_in drafted settled all_problems
    get optional required table_at report_unknown flags as_text as_positive as_location positive_of
    new_path anchor_of text_eq mem_text starts_with codes any extend_flags flags_in insert_flag
flagged_model_flags = refl

drafts-InheritsIn_example :
    All
      (InheritsIn valued flagged_model (drafts valued flagged_model).defaults (codes "fa"))
      (drafts valued flagged_model).entries
drafts-InheritsIn_example = drafts-InheritsIn valued (codes "fa") flagged_model

new_path_iff_example :
    ((new_path (codes "m.gguf") ≡ usable (record { text = codes "m.gguf" }))
      → IsRelative (codes "m.gguf") × (codes "m.gguf" ≡ codes "m.gguf"))
    × (IsRelative (codes "m.gguf") × (codes "m.gguf" ≡ codes "m.gguf")
        → new_path (codes "m.gguf") ≡ usable (record { text = codes "m.gguf" }))
unfolding codes
new_path_iff_example = new_path_iff (codes "m.gguf") (record { text = codes "m.gguf" })
