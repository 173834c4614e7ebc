-- ===== src/Catalog.antt =====
-- src/catalog.rs: a catalog entry and the catalog.
pub mod Location
pub mod Field
pub mod Read
pub mod Disk
pub mod Estimate
pub mod Capability
pub mod Discover
pub mod Resolve
use maestro_llamacpp.Common.{
  ℕ, Bool, true, false, Option, none, some, List, [], ◌∷◌, map, if◌then◌else◌, find, keep,
}
use maestro_llamacpp.Common.Text.{Text, codes, text_eq, mem_text}
use maestro_llamacpp.Common.Word.{sum_u64}
use Location.{RelativePath}

pub data Residency : Type 0 where
  resident on_demand : Residency

pub Residency-discrete : Discrete Residency
Residency-discrete = hlevel

abbrev pub is_on_demand : Residency → Bool
is_on_demand resident = false
is_on_demand on_demand = true

abbrev pub is_resident : Residency → Bool
is_resident resident = true
is_resident on_demand = false

unfoldable pub parse_residency : Text → Option Residency
parse_residency value =
    if text_eq value (codes "resident")
    then some resident
    else if text_eq value (codes "on-demand")
    then some on_demand
    else none

-- A `BTreeMap` from text to text: its pairs in the order of its keys.
abbrev pub Flags : Type 0
Flags = List (Text × Text)

unfoldable pub get_flag : Text → Flags → Option Text
get_flag k [] = none
get_flag k ((j, v) ∷ m) = if text_eq j k then some v else get_flag k m

pub record Entry : Type 0 where
  pub id : Text
  pub path : RelativePath
  pub draft_path : Option RelativePath
  pub projector_path : Option RelativePath
  pub context_size : ℕ
  pub residency : Residency
  pub memory_estimate_mib : ℕ
  pub reasoning_format : Option Text
  pub reasoning_effort : Option Text
  pub startup_timeout_seconds : ℕ
  pub runtime : Option Text
  pub flags : Flags

pub record Catalog : Type 0 where
  pub version : ℕ
  pub entries : List Entry
  pub derived : List Text
  pub discovered : List Text

unfoldable pub resident_reservation_mib : Catalog → ℕ
resident_reservation_mib c =
    sum_u64 (λ e. e.memory_estimate_mib) (keep (λ e. is_resident e.residency) c.entries)

unfoldable pub entry : Catalog → Text → Option Entry
entry c id = find (λ e. text_eq e.id id) c.entries

pub data EstimateSource : Type 0 where
  declared_estimate derived_estimate : EstimateSource

unfoldable pub estimate_source : Catalog → Text → Option EstimateSource
estimate_source c id = elim (entry c id) [
  | none ↦ none
  | some e ↦ some (if mem_text id c.derived then derived_estimate else declared_estimate)
]

unfoldable pub is_discovered : Catalog → Text → Bool
is_discovered c id = mem_text id c.discovered
