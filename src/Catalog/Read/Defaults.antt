-- ===== src/Catalog/Read/Defaults.antt =====
-- The defaults of a catalog: src/catalog/read.rs.
use maestro_llamacpp.Common.{ℕ, Option, none, some, List, [], ◌∷◌, ◌++◌}
use maestro_llamacpp.Common.Text.{Text, codes}
use maestro_llamacpp.Catalog.{Residency, Flags}
use maestro_llamacpp.Catalog.Field.{
  Values, Table, report_unknown, table_at, optional, as_text, as_positive, as_residency, as_runtime,
  flags,
}

abbrev pub default_fields : List Text
default_fields =
    codes "context_size"
    ∷ codes "residency"
    ∷ codes "memory_estimate_mib"
    ∷ codes "reasoning_format"
    ∷ codes "runtime"
    ∷ codes "reasoning_effort"
    ∷ codes "startup_timeout_seconds"
    ∷ codes "flags"
    ∷ []

abbrev pub default_startup_timeout_seconds : ℕ
default_startup_timeout_seconds = 300

pub record Defaults : Type 0 where
  pub context_size : Option ℕ
  pub residency : Option Residency
  pub memory_estimate_mib : Option ℕ
  pub reasoning_format : Option Text
  pub runtime : Option Text
  pub reasoning_effort : Option Text
  pub startup_timeout_seconds : Option ℕ
  pub flags : Flags

abbrev pub no_defaults : Defaults
no_defaults = record {
  context_size = none;
  residency = none;
  memory_estimate_mib = none;
  reasoning_format = none;
  runtime = none;
  reasoning_effort = none;
  startup_timeout_seconds = none;
  flags = [];
}

-- The problems that one step after another adds.
unfoldable pub all_problems : List (List Text) → List Text
all_problems [] = []
all_problems (ps ∷ steps) = ps ++ all_problems steps

module _ (toml : Values) where
  abbrev defaults_scope : Text
  defaults_scope = codes "catalog defaults"

  defaults_in : Table toml → Defaults × List Text
  defaults_in inner =
      let context_size =
        optional toml inner defaults_scope (codes "context_size") (as_positive toml) in
      let residency = optional toml inner defaults_scope (codes "residency") (as_residency toml) in
      let estimate =
        optional toml inner defaults_scope (codes "memory_estimate_mib") (as_positive toml) in
      let format = optional toml inner defaults_scope (codes "reasoning_format") (as_text toml) in
      let runtime = optional toml inner defaults_scope (codes "runtime") (as_runtime toml) in
      let effort = optional toml inner defaults_scope (codes "reasoning_effort") (as_text toml) in
      let timeout =
        optional toml inner defaults_scope (codes "startup_timeout_seconds") (as_positive toml) in
      let flagged = flags toml inner defaults_scope in
      (
        record {
          context_size = context_size.0;
          residency = residency.0;
          memory_estimate_mib = estimate.0;
          reasoning_format = format.0;
          runtime = runtime.0;
          reasoning_effort = effort.0;
          startup_timeout_seconds = timeout.0;
          flags = flagged.0;
        },
        all_problems (
            report_unknown toml inner default_fields defaults_scope
            ∷ context_size.1
            ∷ residency.1
            ∷ estimate.1
            ∷ format.1
            ∷ runtime.1
            ∷ effort.1
            ∷ timeout.1
            ∷ flagged.1
            ∷ []),
      )

  unfoldable pub defaults_of : Table toml → Defaults × List Text
  unfolding defaults_in
  defaults_of table =
      let at = table_at toml table (codes "catalog") (codes "defaults") in
      elim at.0 [ none ↦ (no_defaults, at.1) | some inner ↦ defaults_in inner ]
