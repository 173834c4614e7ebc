-- ===== src/Catalog/Resolve.antt =====
-- src/catalog/resolve.rs: a catalog read against the models root that it will be served from.
pub mod Settling
mod Tests
use maestro_llamacpp.Common.{
  ℕ, Bool, not, Option, none, some, List, [], ◌∷◌, ◌++◌, ltb, map, length, unwrap_or, if◌then◌else◌,
}
use maestro_llamacpp.Common.Text.{Text, codes, mem_text, show}
use maestro_llamacpp.Common.Maps.{text_lt}
use maestro_llamacpp.Catalog.{Entry, Catalog}
use maestro_llamacpp.Catalog.Field.{problem}
use maestro_llamacpp.Catalog.Disk.{Disk}
use maestro_llamacpp.Catalog.Estimate.{
  from_metadata, from_size, Derived, Attempt, made, failed, derive,
}
use maestro_llamacpp.Catalog.Read.Entries.{Drafts}
use maestro_llamacpp.Catalog.Discover.{under, note, option_list}

pub record Ledger : Type 0 where
  pub notes : List Text
  pub problems : List Text
  pub derived : List Text

pub record Reading : Type 0 where
  pub catalog : Catalog
  pub notes : List Text
  pub declared : ℕ

-- `Result<Reading, Report>`
pub data Outcome : Type 0 where
  read_as : Reading → Outcome
  report : List Text → Outcome

abbrev pub scope_of : Entry → Text
scope_of e = codes "entry '" ++ e.id ++ codes "'"

abbrev pub noted : Ledger → Text → Ledger
noted ledger line = record ledger { notes = note ledger.notes line }

-- An estimate that the catalog declares stands, with a note if it is below what the files suggest.
unfoldable pub settle_declared : Entry → Attempt Derived → Ledger → Ledger
settle_declared e (failed reason) ledger = ledger
settle_declared e (made derived) ledger =
    if ltb e.memory_estimate_mib derived.mib
    then noted ledger (
        scope_of e
        ++ codes ": memory_estimate_mib is declared as "
        ++ show e.memory_estimate_mib
        ++ codes " MiB, but its files suggest "
        ++ show derived.mib
        ++ codes " MiB; keeping the declared value")
    else ledger

abbrev pub size_noted : Entry → Derived → Ledger → Ledger
size_noted e derived ledger = elim derived.basis [
  | from_metadata ↦ ledger
  | from_size ↦ noted ledger (
      scope_of e
      ++ codes ": memory estimate of "
      ++ show derived.mib
      ++ codes
          " MiB derived from file size alone, because the model file's metadata could not be read")
]

unfoldable pub settle_derived : Entry → Attempt Derived → Ledger → Option Entry × Ledger
settle_derived e (made derived) ledger =
    let after = size_noted e derived ledger in
    (
      some (record e { memory_estimate_mib = derived.mib }),
      record after { derived = e.id ∷ after.derived },
    )
settle_derived e (failed reason) ledger = (
  none,
  record ledger {
    problems = note ledger.problems (
        problem (scope_of e) (codes "memory_estimate_mib")
          (codes "is required, because it could not be derived: " ++ reason));
  },
)

-- `entries.sort_by` the identifiers, stable
unfoldable pub insert_by_id : Entry → List Entry → List Entry
insert_by_id e [] = e ∷ []
insert_by_id e (f ∷ entries) =
    let rest = insert_by_id e entries in if text_lt f.id e.id then f ∷ rest else e ∷ f ∷ entries

unfoldable pub sort_by_id : List Entry → List Entry
sort_by_id [] = []
sort_by_id (e ∷ entries) = insert_by_id e (sort_by_id entries)

module _ {P : Type 0} (disk : Disk P) where
  unfoldable pub settle : Entry → Bool → Ledger → Option Entry × Ledger
  settle e declared ledger =
      let derived = derive disk e in
      if declared
      then (some e, settle_declared e derived ledger)
      else settle_derived e derived ledger

  -- The loop over the drafts.
  unfoldable pub settle_all : List Text → List Entry → Ledger → List Entry × Ledger
  settle_all undeclared [] ledger = ([], ledger)
  settle_all undeclared (e ∷ entries) ledger =
      let settled = settle e (not (mem_text e.id undeclared)) ledger in
      let rest = settle_all undeclared entries settled.1 in
      (option_list settled.0 ++ rest.0, rest.1)

  unfoldable pub with_discovered : Drafts → List Entry → Ledger → Reading
  with_discovered drafts entries ledger =
      let found = under disk entries drafts.defaults ledger.notes in
      let discovered = map (λ (e : Entry). e.id) found.0 in
      record {
        catalog = record {
          version = unwrap_or drafts.version 0;
          entries = sort_by_id (entries ++ found.0);
          derived = ledger.derived ++ discovered;
          discovered = discovered;
        };
        notes = found.1;
        declared = length entries;
      }

  abbrev pub first_ledger : Drafts → Ledger
  first_ledger drafts = record { notes = []; problems = drafts.problems; derived = [] }

  abbrev pub unless_problems : Drafts → List Entry → Ledger → List Text → Outcome
  unless_problems drafts entries ledger [] = read_as (with_discovered drafts entries ledger)
  unless_problems drafts entries ledger (p ∷ problems) = report (p ∷ problems)

  -- `Catalog::read`, from the drafts
  unfoldable pub read_catalog : Drafts → Outcome
  read_catalog drafts =
      let settled = settle_all drafts.undeclared drafts.entries (first_ledger drafts) in
      unless_problems drafts settled.0 settled.1 settled.1.problems
