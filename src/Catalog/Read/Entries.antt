-- ===== src/Catalog/Read/Entries.antt =====
-- The entries and the drafts of a catalog: src/catalog/read.rs.
use maestro_llamacpp.Common.{
  ℕ, Bool, false, ◌&&◌, Option, none, some, List, [], ◌∷◌, ◌++◌, if◌then◌else◌, is_none, or_option,
  unwrap_or,
}
use maestro_llamacpp.Common.Text.{Text, codes}
use maestro_llamacpp.Catalog.{on_demand, Entry}
use maestro_llamacpp.Catalog.Location.{RelativePath}
use maestro_llamacpp.Catalog.Field.{
  Values, Table, problem, report_unknown, table_at, optional, required, get, as_text, as_positive,
  as_residency, as_runtime, as_location, flags,
}
use maestro_llamacpp.Catalog.Read.Defaults.{
  default_fields, default_startup_timeout_seconds, Defaults, all_problems, defaults_of,
}
use maestro_llamacpp.Catalog.Read.Merging.{extend_flags}

abbrev pub entry_fields : List Text
entry_fields = codes "path" ∷ codes "draft_path" ∷ codes "projector_path" ∷ default_fields

pub record Drafts : Type 0 where
  pub version : Option ℕ
  pub defaults : Defaults
  pub entries : List Entry
  pub undeclared : List Text
  pub problems : List Text

-- What reading one entry comes to: the entry, whether it declares no estimate, and its problems.
pub record EntryRead : Type 0 where
  pub entry : Option Entry
  pub undeclared : Bool
  pub problems : List Text

not_a_table : Text → Text
not_a_table scope = scope ++ codes ": must be a table"

module _ (toml : Values) where
  -- A value that the table or a default has to supply.
  unfoldable pub settled : Table toml → Option ℕ → Text → Text → List Text
  settled table value scope field =
      if is_none value && is_none (get toml field table)
      then problem scope field (codes "is required, and no default supplies it") ∷ []
      else []

  abbrev scope_of : Text → Text
  scope_of id = codes "entry '" ++ id ++ codes "'"

  -- An entry is there once its path and its context size are.
  unfoldable pub drafted :
      Option RelativePath → Option ℕ → (RelativePath → ℕ → Entry) → Option Entry
  drafted none context_size make = none
  drafted (some path) none make = none
  drafted (some path) (some context_size) make = some (make path context_size)

  unfoldable pub entry_in : Text → Table toml → Defaults → EntryRead
  entry_in id table defaults =
      let scope = scope_of id in
      let flagged = flags toml table scope in
      let path = required toml table scope (codes "path") (as_location toml) in
      let draft_path = optional toml table scope (codes "draft_path") (as_location toml) in
      let projector = optional toml table scope (codes "projector_path") (as_location toml) in
      let size = optional toml table scope (codes "context_size") (as_positive toml) in
      let context_size = or_option size.0 defaults.context_size in
      let own_estimate =
        optional toml table scope (codes "memory_estimate_mib") (as_positive toml) in
      let estimate = or_option own_estimate.0 defaults.memory_estimate_mib in
      let residency = optional toml table scope (codes "residency") (as_residency toml) in
      let format = optional toml table scope (codes "reasoning_format") (as_text toml) in
      let runtime = optional toml table scope (codes "runtime") (as_runtime toml) in
      let effort = optional toml table scope (codes "reasoning_effort") (as_text toml) in
      let timeout =
        optional toml table scope (codes "startup_timeout_seconds") (as_positive toml) in
      record {
        entry = drafted path.0 context_size (λ path context_size. record {
          id = id;
          path = path;
          draft_path = draft_path.0;
          projector_path = projector.0;
          context_size = context_size;
          residency = unwrap_or (or_option residency.0 defaults.residency) on_demand;
          memory_estimate_mib = unwrap_or estimate 0;
          reasoning_format = or_option format.0 defaults.reasoning_format;
          reasoning_effort = or_option effort.0 defaults.reasoning_effort;
          startup_timeout_seconds =
              unwrap_or (or_option timeout.0 defaults.startup_timeout_seconds)
                default_startup_timeout_seconds;
          runtime = or_option runtime.0 defaults.runtime;
          flags = extend_flags defaults.flags flagged.0;
        });
        undeclared = is_none estimate;
        problems = all_problems (
            report_unknown toml table entry_fields scope
            ∷ flagged.1
            ∷ path.1
            ∷ draft_path.1
            ∷ projector.1
            ∷ size.1
            ∷ settled table context_size scope (codes "context_size")
            ∷ own_estimate.1
            ∷ residency.1
            ∷ format.1
            ∷ runtime.1
            ∷ effort.1
            ∷ timeout.1
            ∷ []);
      }

  unfoldable pub entry_of : Text → toml.Value → Defaults → EntryRead
  unfolding not_a_table
  entry_of id value defaults = elim (toml.as_table value) [
    | none ↦ record { entry = none; undeclared = false; problems = not_a_table (scope_of id) ∷ [] }
    | some table ↦ entry_in id table defaults
  ]

  -- The entries that can be had, those that declare no estimate, and the problems of them all.
  unfoldable pub entries_in : Table toml → Defaults → List Entry × List Text × List Text
  entries_in [] defaults = ([], [], [])
  entries_in ((id, value) ∷ models) defaults =
      let rest = entries_in models defaults in
      let this = entry_of id value defaults in
      (
        elim this.entry [ none ↦ rest.0 | some e ↦ e ∷ rest.0 ],
        if this.undeclared then id ∷ rest.1 else rest.1,
        this.problems ++ rest.2,
      )

  unfoldable pub entries_of : Table toml → Defaults → List Entry × List Text × List Text
  entries_of table defaults =
      if is_none (get toml (codes "models") table)
      then ([], [], problem (codes "catalog") (codes "models") (codes "is required") ∷ [])
      else (let at = table_at toml table (codes "catalog") (codes "models") in
          elim at.0 [ none ↦ ([], [], at.1) | some models ↦ entries_in models defaults ])

  unfoldable pub drafts : Table toml → Drafts
  drafts table =
      let version = required toml table (codes "catalog") (codes "version") (as_positive toml) in
      let defaults = defaults_of toml table in
      let entries = entries_of table defaults.0 in
      record {
        version = version.0;
        defaults = defaults.0;
        entries = entries.0;
        undeclared = entries.1;
        problems = all_problems (version.1 ∷ defaults.1 ∷ entries.2 ∷ []);
      }
