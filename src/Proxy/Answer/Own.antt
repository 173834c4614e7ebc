-- ===== src/Proxy/Answer/Own.antt =====
-- src/proxy/answer/own.rs: the models that the router offers to a llama.cpp client.
-- An offer holds the fields that vary; the constant ones and the printing of JSON are left out.
pub mod Offered
mod Tests
use maestro_llamacpp.Common.{
  ℕ, Bool, Option, none, some, List, [], ◌∷◌, map, any, keep, if◌then◌else◌,
}
use maestro_llamacpp.Common.Options.{◌>>=◌}
use maestro_llamacpp.Common.Text.{Text, text_eq}
use maestro_llamacpp.Catalog.{Entry}
use maestro_llamacpp.Catalog.Capability.{generates, accepts}
use maestro_llamacpp.Proxy.Slots.{Slots, loaded_ids, memory}

pub record Offer : Type 0 where
  pub id : Text
  pub loaded : Bool
  pub context : ℕ
  pub modalities : List Text
  pub declared_mib : ℕ
  pub held_mib : Option ℕ

-- What a `HashMap` collected from pairs holds of a key: the last of its values.
unfoldable pub collected : {V : Type 0} → Text → List (Text × V) → Option V
collected k [] = none
collected k ((j, v) ∷ pairs) = elim (collected k pairs) [
  | some w ↦ some w
  | none ↦ if text_eq j k then some v else none
]

unfoldable pub offer : List Text → List (Text × Option ℕ) → Entry → Offer
offer loaded held entry = record {
  id = entry.id;
  loaded = any (λ id. text_eq id entry.id) loaded;
  context = entry.context_size;
  modalities = accepts entry;
  declared_mib = entry.memory_estimate_mib;
  held_mib = collected entry.id held >>= λ mib. mib;
}

-- The slots are looked at twice: for what is loaded, and later for what it holds.
unfoldable pub catalogue : Slots → Slots → List Entry → List Offer
catalogue now later entries =
    map (offer (loaded_ids now entries) (memory later entries)) (keep generates entries)
