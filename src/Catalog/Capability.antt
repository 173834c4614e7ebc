-- ===== src/Catalog/Capability.antt =====
-- src/catalog/capability.rs: what an entry can be asked for.
pub mod Modes
use maestro_llamacpp.Common.{Bool, not, none, some, List, [], ◌∷◌, any, filter_map}
use maestro_llamacpp.Common.Text.{Text, codes}
use maestro_llamacpp.Catalog.{Entry, get_flag}
use maestro_llamacpp.Catalog.Estimate.Served.{embedding_names, says_no}

unfoldable pub generates : Entry → Bool
generates entry = not (
    any (λ value. not (says_no value))
      (filter_map (λ name. get_flag name entry.flags) embedding_names))

unfoldable pub accepts : Entry → List Text
accepts entry = elim entry.projector_path [
  | some path ↦ codes "text" ∷ codes "image" ∷ []
  | none ↦ codes "text" ∷ []
]
