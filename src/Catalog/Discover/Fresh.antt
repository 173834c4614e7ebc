-- ===== src/Catalog/Discover/Fresh.antt =====
-- src/catalog/discover.rs, src/catalog/discover/name.rs: the identifiers of discovered entries are
-- told apart.
use maestro_llamacpp.Common.{
  Bool, false, ◌||◌, none, some, List, [], ◌∷◌, ◌++◌, map, any, All, All-imp, ◌≡◌, refl, ap, ◌∙◌,
  ◌⊎◌, inl, inr, arith, Bool-cases, Option-cases,
}
use maestro_llamacpp.Common.Text.{Text, codes, text_eq, mem_text}
use maestro_llamacpp.Common.Text.Equality.{text_eq_comm}
use maestro_llamacpp.Catalog.{Entry}
use maestro_llamacpp.Catalog.Location.{RelativePath}
use maestro_llamacpp.Catalog.Disk.{Disk}
use maestro_llamacpp.Catalog.Estimate.{Derived, Attempt, made, failed, derive}
use maestro_llamacpp.Catalog.Read.Defaults.{Defaults}
use maestro_llamacpp.Catalog.Discover.Name.{
  Named, reserved, is_empty, taken_instead, named, identifier,
}
use maestro_llamacpp.Catalog.Discover.{
  option_list, undecided, decided, discovered_entry, found_among, referenced_by, under, relative,
}

-- No name is taken that was not, but the one that is given, which was not taken.
abbrev IsNaming : Named → List Text → Type 0
IsNaming n taken =
    ((n.id ≡ none) × (n.taken ≡ taken))
    ⊎ ((id : Text) × (n.id ≡ some id) × (mem_text id taken ≡ false) × (n.taken ≡ id ∷ taken))

or_false : (a b : Bool) → (a || b) ≡ false → (a ≡ false) × (b ≡ false)
or_false a b h = (ground arith, ground arith)

taken_instead-IsNaming :
    (display wanted parent : Text) (taken notes : List Text)
    → IsNaming (taken_instead display wanted parent taken notes) taken
unfolding taken_instead
taken_instead-IsNaming display wanted parent taken notes =
    let instead = parent ++ codes "-" ++ wanted in
    elim (Bool-cases (is_empty parent || mem_text instead taken)) [
      | inl e ↦ rw (e, taken_instead) (inl (refl, refl))
      | inr e ↦ rw (e, taken_instead) (inr (instead, refl, (or_false _ _ e).1, refl))
    ]

named-IsNaming :
    (display wanted parent : Text) (taken notes : List Text)
    → IsNaming (named display wanted parent taken notes) taken
unfolding named
named-IsNaming display wanted parent taken notes = elim (Bool-cases (is_empty wanted)) [
  | inl e ↦ rw (e, named) (inl (refl, refl))
  | inr e ↦ elim (Bool-cases (mem_text wanted taken)) [
    | inl m ↦ rw (e, m, named) (taken_instead-IsNaming display wanted parent taken notes)
    | inr m ↦ rw (e, m, named) (inr (wanted, refl, m, refl))
  ]
]

identifier-IsNaming :
    {P : Type 0} (disk : Disk P) (file : P) (taken notes : List Text)
    → IsNaming (identifier disk file taken notes) taken
unfolding identifier
identifier-IsNaming disk file taken notes = elim (Option-cases (disk.file_name file)) [
  | inl e ↦ rw (e, identifier) (inl (refl, refl))
  | inr (name, e) ↦ rw (e, identifier) (named-IsNaming _ _ _ taken notes)
]

-- Texts that are all different.
abbrev pub Different : List Text → Type 0
Different [] = Unit
Different (id ∷ ids) = (mem_text id ids ≡ false) × Different ids

abbrev pub Fresh : List Text → Entry → Type 0
Fresh taken e = mem_text e.id taken ≡ false

abbrev pub ids_of : List Entry → List Text
ids_of entries = map (λ (e : Entry). e.id) entries

-- What is fresh beside a name is another.
apart :
    (id : Text) (taken : List Text) (entries : List Entry)
    → All (Fresh (id ∷ taken)) entries
    → mem_text id (ids_of entries) ≡ false
unfolding mem_text any
apart id taken [] h = refl
apart id taken (e ∷ entries) h =
    let differs : text_eq id e.id ≡ false = text_eq_comm id e.id ∙ (or_false _ _ h.0).0 in
    rw differs (apart id taken entries h.1)

weaken : (id : Text) (taken : List Text) (e : Entry) → Fresh (id ∷ taken) e → Fresh taken e
unfolding mem_text any
weaken id taken e h = (or_false _ _ h).1

-- A list of entries whose names are fresh and different.
abbrev pub IsFresh : List Text → List Entry → Type 0
IsFresh taken entries = All (Fresh taken) entries × Different (ids_of entries)

IsFresh-cons :
    (id : Text) (taken : List Text) (e : Entry) (entries : List Entry)
    → e.id ≡ id
    → mem_text id taken ≡ false
    → IsFresh (id ∷ taken) entries
    → IsFresh taken (e ∷ entries)
IsFresh-cons id taken e entries same fresh (all_fresh, different) = (
  (ap (λ t. mem_text t taken) same ∙ fresh, All-imp _ _ (weaken id taken) entries all_fresh),
  (ap (λ t. mem_text t (ids_of entries)) same ∙ apart id taken entries all_fresh, different),
)

IsFresh-more :
    (id : Text) (taken : List Text) (entries : List Entry)
    → IsFresh (id ∷ taken) entries
    → IsFresh taken entries
IsFresh-more id taken entries (all_fresh, different) =
    (All-imp _ _ (weaken id taken) entries all_fresh, different)

module _ {P : Type 0} (disk : Disk P) where
  decided-keeps_id :
      (e : Entry) (notes : List Text) (attempt : Attempt Derived) (found : Entry)
      → (decided disk e notes attempt).0 ≡ some found
      → found.id ≡ e.id
  decided-keeps_id e notes (failed reason) found h = cc
  decided-keeps_id e notes (made derived) found h = cc

  discovered_entry-keeps_id :
      (id : Text) (location : RelativePath) (defaults : Defaults) (notes : List Text)
      (found : Entry)
      → (discovered_entry disk id location defaults notes).0 ≡ some found
      → found.id ≡ id
  unfolding discovered_entry
  discovered_entry-keeps_id id location defaults notes found h =
      let e = undecided disk id location defaults in
      decided-keeps_id e notes (derive disk e) found h

  with_found :
      (id : Text) (taken : List Text) (location : RelativePath) (defaults : Defaults)
      (notes : List Text) (entries : List Entry)
      → mem_text id taken ≡ false
      → IsFresh (id ∷ taken) entries
      → IsFresh taken (option_list (discovered_entry disk id location defaults notes).0 ++ entries)
  with_found id taken location defaults notes entries fresh rest =
      let found = (discovered_entry disk id location defaults notes).0 in
      elim (Option-cases found) [
        | inl e ↦ rw e (IsFresh-more id taken entries rest)
        | inr (entry, e) ↦ rw e (
            IsFresh-cons id taken entry entries
              (discovered_entry-keeps_id id location defaults notes entry e) fresh rest)
      ]

  found_among-IsFresh :
      (referenced : List P) (defaults : Defaults) (files : List P) (taken notes : List Text)
      → IsFresh taken (found_among disk referenced defaults files taken notes).0
  unfolding found_among
  found_among-IsFresh referenced defaults [] taken notes = (tt, tt)
  found_among-IsFresh referenced defaults (file ∷ files) taken notes =
      elim (Bool-cases (any (disk.path_eq file) referenced)) [
        | inl e ↦ rw (e, found_among) (found_among-IsFresh referenced defaults files taken notes)
        | inr e ↦ elim (Option-cases (relative disk file)) [
          | inl r ↦ rw (e, r, found_among) (found_among-IsFresh referenced defaults files taken _)
          | inr (location, r) ↦ elim (identifier-IsNaming disk file taken notes) [
            | inl (none_given, same) ↦
                rw (e, r, none_given, same, found_among)
                  (found_among-IsFresh referenced defaults files taken _)
            | inr (id, given, fresh, more) ↦
                rw (e, r, given, more, found_among)
                  (with_found id taken location defaults _ _ fresh
                    (found_among-IsFresh referenced defaults files (id ∷ taken) _))
          ]
        ]
      ]

  -- However the files under the root are called, the entries that are made of them have
  -- identifiers that are different from each other, from those of the catalog's own entries, and
  -- from the names that the proxy keeps for its paths.
  pub under-IsFresh :
      (entries : List Entry) (defaults : Defaults) (notes : List Text)
      → IsFresh (ids_of entries ++ reserved) (under disk entries defaults notes).0
  unfolding under
  under-IsFresh entries defaults notes =
      found_among-IsFresh (referenced_by disk entries) defaults _ (ids_of entries ++ reserved) notes
