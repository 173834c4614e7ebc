-- ===== src/Catalog/Read/Reporting.antt =====
-- Nothing that is wrong with a catalog goes unreported.
use maestro_llamacpp.Common.{
  ℕ, Option, none, some, List, [], ◌∷◌, ◌++◌, map, ap, All, ◌≡◌, ◌≢◌, ◌⊎◌, inl, inr, refl, ◌∙◌,
  arith, Option-cases, or_option,
}
use maestro_llamacpp.Common.Text.{Text, codes}
use maestro_llamacpp.Catalog.{Entry}
use maestro_llamacpp.Catalog.Location.{RelativePath, Checked, usable, complaint}
use maestro_llamacpp.Catalog.Field.{
  Values, Table, Reading, get, optional, required, table_at, as_positive, as_location,
}
use maestro_llamacpp.Catalog.Read.Defaults.{Defaults, defaults_of, all_problems}
use maestro_llamacpp.Catalog.Read.Entries.{
  EntryRead, settled, drafted, entry_in, entry_of, entries_in, entries_of, drafts,
}

append-empty_left : {A : Type 0} (xs ys : List A) → xs ++ ys ≡ [] → xs ≡ []
append-empty_left [] ys h = refl
append-empty_left (x ∷ xs) ys h = absurd (cc)

append-empty_right : {A : Type 0} (xs ys : List A) → xs ++ ys ≡ [] → ys ≡ []
append-empty_right [] ys h = h
append-empty_right (x ∷ xs) ys h = absurd (cc)

all_problems-quiet :
    (steps : List (List Text)) → all_problems steps ≡ [] → All (λ ps. ps ≡ []) steps
unfolding all_problems
all_problems-quiet [] h = tt
all_problems-quiet (ps ∷ steps) h = (
  append-empty_left ps (all_problems steps) h,
  all_problems-quiet steps (append-empty_right ps (all_problems steps) h),
)

Checked-cases :
    {A : Type 0} (c : Checked A) → ((a : A) × (c ≡ usable a)) ⊎ ((m : Text) × (c ≡ complaint m))
Checked-cases (usable a) = inl (a, refl)
Checked-cases (complaint m) = inr (m, refl)

-- A reading that has nothing says why.
abbrev Reports : {A : Type 0} → Reading A → Type 0
Reports r = r.0 ≡ none → r.1 ≢ []

-- The problems of an entry that come to nothing only where the entry is there.
abbrev IsDrafted : Text → EntryRead → Type 0
IsDrafted id r = r.problems ≡ [] → (e : Entry) × (r.entry ≡ some e) × (e.id ≡ id)

some-of : {A : Type 0} (o : Option A) → o ≢ none → (a : A) × (o ≡ some a)
some-of none h = absurd (h refl)
some-of (some a) h = (a, refl)

drafted-IsDrafted :
    (toml : Values) (path : Option RelativePath) (size : Option ℕ) (make : RelativePath → ℕ → Entry)
    (id : Text)
    → path ≢ none
    → size ≢ none
    → ((p : RelativePath) (n : ℕ) → (make p n).id ≡ id)
    → (e : Entry) × (drafted toml path size make ≡ some e) × (e.id ≡ id)
unfolding drafted
drafted-IsDrafted toml none size make id hp hs named = absurd (hp refl)
drafted-IsDrafted toml (some p) none make id hp hs named = absurd (hs refl)
drafted-IsDrafted toml (some p) (some n) make id hp hs named = (make p n, refl, named p n)

or_option-none : (a b : Option ℕ) → or_option a b ≡ none → a ≡ none
or_option-none none b h = refl
or_option-none (some a) b h = absurd (cc)

map_id-there :
    (o : Option Entry) (es : List Entry) (e : Entry)
    → o ≡ some e
    → map (λ (x : Entry). x.id) (elim o [ none ↦ es | some x ↦ x ∷ es ])
      ≡ e.id ∷ map (λ (x : Entry). x.id) es
map_id-there none es e h = absurd (cc)
map_id-there (some x) es e h =
    let same : x ≡ e = cc in ap (λ (y : Entry). y.id ∷ map (λ (z : Entry). z.id) es) same

cons_ap : {x y : Text} {xs ys : List Text} → x ≡ y → xs ≡ ys → x ∷ xs ≡ y ∷ ys
cons_ap p q = cc

module _ (toml : Values) where
  optional-Reports :
      {A : Type 0} (table : Table toml) (scope field : Text) (parse : toml.Value → Checked A)
      → get toml field table ≢ none
      → Reports (optional toml table scope field parse)
  unfolding optional
  optional-Reports table scope field parse there =
      let (value, n) = some-of (get toml field table) there in
      elim (Checked-cases (parse value)) [
        | inl (a, e) ↦ rw (n, optional) (rw e (λ q. absurd (cc)))
        | inr (m, e) ↦ rw (n, optional) (rw e (λ q r. absurd (cc)))
      ]

  required-Reports :
      {A : Type 0} (table : Table toml) (scope field : Text) (parse : toml.Value → Checked A)
      → Reports (required toml table scope field parse)
  unfolding required
  required-Reports table scope field parse = elim (Option-cases (get toml field table)) [
    | inl n ↦ rw (n, required) (λ q r. absurd (cc))
    | inr (value, n) ↦
        let there : get toml field table ≢ none = λ q. absurd (cc) in
        let told = optional-Reports table scope field parse there in rw (n, required) told
  ]

  settled-quiet :
      (table : Table toml) (scope field : Text) (value : Option ℕ)
      → settled toml table value scope field ≡ []
      → value ≡ none
      → get toml field table ≢ none
  unfolding settled
  settled-quiet table scope field (some v) h q n = cc
  settled-quiet table scope field none h q n = ground arith

  -- The context size, with a default or without.
  size-Reports :
      (table : Table toml) (scope field : Text) (parse : toml.Value → Checked ℕ) (d : Option ℕ)
      → (let size = optional toml table scope field parse in
          size.1 ≡ []
          → settled toml table (or_option size.0 d) scope field ≡ []
          → or_option size.0 d ≢ none)
  size-Reports table scope field parse d quiet settles lost =
      let size = optional toml table scope field parse in
      optional-Reports table scope field parse (settled-quiet table scope field _ settles lost)
        (or_option-none size.0 d lost) quiet

  entry_in-IsDrafted :
      (id : Text) (table : Table toml) (defaults : Defaults)
      → IsDrafted id (entry_in toml id table defaults)
  unfolding entry_in
  entry_in-IsDrafted id table defaults quiet =
      let none_of = all_problems-quiet _ quiet in
      drafted-IsDrafted toml _ _ _ id
        (λ q. required-Reports table _ (codes "path") (as_location toml) q none_of.1.1.0)
        (size-Reports table _ (codes "context_size") (as_positive toml) defaults.context_size
          none_of.1.1.1.1.1.0 none_of.1.1.1.1.1.1.0)
        (λ p n. refl)

  entry_of-IsDrafted :
      (id : Text) (value : toml.Value) (defaults : Defaults)
      → IsDrafted id (entry_of toml id value defaults)
  unfolding entry_of
  entry_of-IsDrafted id value defaults = elim (Option-cases (toml.as_table value)) [
    | inl n ↦ rw (n, entry_of) (λ q. absurd (cc))
    | inr (table, n) ↦ rw (n, entry_of) (entry_in-IsDrafted id table defaults)
  ]

  abbrev pub keys : Table toml → List Text
  keys [] = []
  keys ((key, value) ∷ table) = key ∷ keys table

  entries_in-keys :
      (models : Table toml) (defaults : Defaults)
      → (entries_in toml models defaults).2 ≡ []
      → map (λ (e : Entry). e.id) (entries_in toml models defaults).0 ≡ keys models
  unfolding entries_in
  entries_in-keys [] defaults quiet = refl
  entries_in-keys ((id, value) ∷ models) defaults quiet =
      let (e, is, named) = entry_of-IsDrafted id value defaults (append-empty_left _ _ quiet) in
      let rest = entries_in-keys models defaults (append-empty_right _ _ quiet) in
      map_id-there _ _ e is ∙ cons_ap named rest

  entries_of-keys :
      (table : Table toml) (defaults : Defaults)
      → (entries_of toml table defaults).2 ≡ []
      → (models : Table toml) × ((value : toml.Value) × (get toml (codes "models") table
            ≡ some value)
          × (toml.as_table value ≡ some models))
        × (map (λ (e : Entry). e.id) (entries_of toml table defaults).0 ≡ keys models)
  unfolding entries_of table_at
  entries_of-keys table defaults = elim (Option-cases (get toml (codes "models") table)) [
    | inl n ↦ rw n (λ q. absurd (cc))
    | inr (value, n) ↦ rw n (elim (Option-cases (toml.as_table value)) [
      | inl t ↦ rw t (λ q. absurd (cc))
      | inr (models, t) ↦ rw t (λ q. (models, (value, refl, t), entries_in-keys models defaults q))
    ])
  ]

  -- A catalog with no problems says its version and has an entry for each model, in their order.
  pub drafts_complete :
      (table : Table toml)
      → (drafts toml table).problems ≡ []
      → ((drafts toml table).version ≢ none)
        × ((models : Table toml) × ((value : toml.Value) × (get toml (codes "models") table
                ≡ some value)
              × (toml.as_table value ≡ some models))
            × (map (λ (e : Entry). e.id) (drafts toml table).entries ≡ keys models))
  unfolding drafts entries_of table_at
  drafts_complete table quiet =
      let none_of = all_problems-quiet _ quiet in
      let defaults = (defaults_of toml table).0 in
      (
        λ q. required-Reports table _ (codes "version") (as_positive toml) q none_of.0,
        entries_of-keys table defaults none_of.1.1.0,
      )
