-- ===== src/Catalog/Read/Inheriting.antt =====
-- src/catalog/read.rs: which flags an entry has: its own, and those that it inherits.
use mathlib.Core.List.{Mem, mem-cons_self, mem-cons_of_mem}
use maestro_llamacpp.Common.{
  ℕ, Option, none, All, All-imp, subst, ◌++◌, Option-cases, false, some, [], ◌∷◌, ◌≡◌, refl, sym,
  ap, ◌∙◌, arith, Bool-cases, inl, inr, or_option, if◌then◌else◌,
}
use maestro_llamacpp.Common.Text.{Text, codes, text_eq}
use maestro_llamacpp.Common.Text.Equality.{text_eq_iff}
use maestro_llamacpp.Catalog.{Entry, Flags, get_flag}
use maestro_llamacpp.Catalog.Location.{RelativePath}
use maestro_llamacpp.Catalog.Field.{Values, Table, flags, get, table_at}
use maestro_llamacpp.Catalog.Read.Defaults.{Defaults, defaults_of}
use maestro_llamacpp.Catalog.Read.Entries.{
  drafted, entry_in, entry_of, entries_in, entries_of, drafts,
}
use maestro_llamacpp.Catalog.Read.Merging.{text_lt, insert_flag, extend_flags}

get_flag-insert_flag :
    (k key value : Text) (m : Flags)
    → get_flag k (insert_flag key value m) ≡ (if text_eq key k then some value else get_flag k m)
unfolding insert_flag get_flag
get_flag-insert_flag k key value [] = refl
get_flag-insert_flag k key value ((j, w) ∷ m) = elim (Bool-cases (text_eq key j)) [
  | inl e ↦
      let same : key ≡ j = (text_eq_iff key j).0 e in
      rw (e, insert_flag) (ground (arith, ap (λ (t : Text). text_eq t k) same))
  | inr e ↦
      rw (e, insert_flag)
        (elim (Bool-cases (text_lt key j)) [
          | inl l ↦ rw l refl
          | inr l ↦ rw l (elim (Bool-cases (text_eq j k)) [
            | inr n ↦ rw n (get_flag-insert_flag k key value m)
            | inl y ↦
                let apart : text_eq key k ≡ false =
                  ap (text_eq key) (sym ((text_eq_iff j k).0 y)) ∙ e in
                rw y (rw apart refl)
          ])
        ])
]

-- A flag of a map that was extended is the later one, where there is one.
get_flag-extend_flags :
    (k : Text) (inherited own : Flags)
    → get_flag k (extend_flags inherited own) ≡ or_option (get_flag k own) (get_flag k inherited)
unfolding extend_flags get_flag
get_flag-extend_flags k inherited [] = refl
get_flag-extend_flags k inherited ((key, value) ∷ own) =
    let rest = get_flag-extend_flags k inherited own in
    get_flag-insert_flag k key value (extend_flags inherited own)
    ∙ elim (Bool-cases (text_eq key k)) [ inl e ↦ rw e refl | inr e ↦ rw e rest ]

module _ (toml : Values) where
  drafted-All :
      (P : Entry → Type 0) (path : Option RelativePath) (size : Option ℕ)
      (make : RelativePath → ℕ → Entry)
      → ((p : RelativePath) (n : ℕ) → P (make p n))
      → (e : Entry) → drafted toml path size make ≡ some e
      → P e
  unfolding drafted
  drafted-All P none size make h e d = absurd (cc)
  drafted-All P (some path) none make h e d = absurd (cc)
  drafted-All P (some path) (some size) make h e d =
      let same : make path size ≡ e = cc in subst P same (h path size)

  -- The flag is the one that a table carries, and else the one of the defaults.
  abbrev pub OwnOrDefault : Table toml → Defaults → Text → Entry → Type 0
  OwnOrDefault table defaults k e =
      get_flag k e.flags
      ≡ or_option (get_flag k (flags toml table (codes "entry '" ++ e.id ++ codes "'")).0)
          (get_flag k defaults.flags)

  -- So it is of the table that stands under the entry's identifier.
  abbrev pub Inherits : Table toml → Defaults → Text → Entry → Type 0
  Inherits models defaults k e =
      (value : toml.Value) × (table : Table toml) × Mem (e.id, value) models
      × (toml.as_table value ≡ some table)
      × OwnOrDefault table defaults k e

  entry_in-flags :
      (k id : Text) (table : Table toml) (defaults : Defaults) (e : Entry)
      → (entry_in toml id table defaults).entry ≡ some e
      → (e.id ≡ id) × OwnOrDefault table defaults k e
  unfolding entry_in
  entry_in-flags k id table defaults =
      drafted-All (λ e. (e.id ≡ id) × OwnOrDefault table defaults k e) _ _ _
        (λ p n. (
          refl,
          get_flag-extend_flags k defaults.flags
              (flags toml table (codes "entry '" ++ id ++ codes "'")).0,
        ))

  entry_of-flags :
      (k id : Text) (value : toml.Value) (defaults : Defaults) (e : Entry)
      → (entry_of toml id value defaults).entry ≡ some e
      → (e.id ≡ id)
        × (table : Table toml) × (toml.as_table value ≡ some table)
        × OwnOrDefault table defaults k e
  unfolding entry_of
  entry_of-flags k id value defaults e = elim (Option-cases (toml.as_table value)) [
    | inl n ↦ rw (n, entry_of) (λ h. absurd (cc))
    | inr (table, t) ↦
        rw (t, entry_of)
          (λ h.
            let (named, own) = entry_in-flags k id table defaults e h in (named, table, refl, own))
  ]

  entries_in-Inherits :
      (k : Text) (models : Table toml) (defaults : Defaults)
      → All (Inherits models defaults k) (entries_in toml models defaults).0
  unfolding entries_in
  entries_in-Inherits k [] defaults = tt
  entries_in-Inherits k ((id, value) ∷ models) defaults =
      let rest =
        All-imp (Inherits models defaults k) (Inherits ((id, value) ∷ models) defaults k)
          (λ e i. (i.0, i.1, mem-cons_of_mem _ i.2, i.3, i.4)) (entries_in toml models defaults).0
          (entries_in-Inherits k models defaults) in
      elim (Option-cases (entry_of toml id value defaults).entry) [
        | inl n ↦ rw (n, entries_in) rest
        | inr (e, s) ↦
            let (named, table, t, own) = entry_of-flags k id value defaults e s in
            let here : Mem (e.id, value) ((id, value) ∷ models) = rw named mem-cons_self in
            rw (s, entries_in) ((value, table, here, t, own), rest)
      ]

  -- So it is of a table under the catalog's models.
  abbrev pub InheritsIn : Table toml → Defaults → Text → Entry → Type 0
  InheritsIn catalog defaults k e =
      (value : toml.Value) × (models : Table toml) × (get toml (codes "models") catalog
        ≡ some value)
      × (toml.as_table value ≡ some models)
      × Inherits models defaults k e

  entries_of-InheritsIn :
      (k : Text) (catalog : Table toml) (defaults : Defaults)
      → All (InheritsIn catalog defaults k) (entries_of toml catalog defaults).0
  unfolding entries_of table_at
  entries_of-InheritsIn k catalog defaults =
      elim (Option-cases (get toml (codes "models") catalog)) [
        | inl n ↦ rw n tt
        | inr (value, n) ↦ rw n (elim (Option-cases (toml.as_table value)) [
          | inl t ↦ rw t tt
          | inr (models, t) ↦ rw t (
              All-imp (Inherits models defaults k) _ (λ e i. (value, models, n, t, i))
                (entries_in toml models defaults).0 (entries_in-Inherits k models defaults))
        ])
      ]

  -- Every entry that is read of a catalog stands in its table of models, under the entry's
  -- identifier, and each flag of the entry is the one that this table's own flags carry, where
  -- they do, and else the one of the catalog's defaults, if any.
  pub drafts-InheritsIn :
      (k : Text) (catalog : Table toml)
      → All (InheritsIn catalog (drafts toml catalog).defaults k) (drafts toml catalog).entries
  unfolding drafts
  drafts-InheritsIn k catalog = entries_of-InheritsIn k catalog (defaults_of toml catalog).0
