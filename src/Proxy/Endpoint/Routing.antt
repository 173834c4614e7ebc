-- ===== src/Proxy/Endpoint/Routing.antt =====
-- What `Endpoint::of` makes of a path.
use maestro_llamacpp.Common.{
  ℕ, true, not, ◌&&◌, Option, none, some, [], ◌∷◌, ◌++◌, ◌≡◌, ◌≢◌, inl, inr, refl, ap, subst, ◌∙◌,
  arith, All, ◌==◌, ==_iff, Option-cases, Bool-cases, if◌then◌else◌,
}
use maestro_llamacpp.Common.Text.{Text, codes, text_eq, strip_prefix, split_once, starts_with}
use maestro_llamacpp.Common.Text.Equality.{eq_of_text_eq}
use maestro_llamacpp.Proxy.Endpoint.{
  Answer, answered, refusing, Endpoint, dedicated, generic, listing, catalogue, properties,
  dedicated_prefix, generic_prefix, listing_path, catalogue_path, properties_path, without_slashes,
  without_query, dedicated_of, undedicated_of, endpoint_of, nothing_after, is_empty,
}

-- What is left of a prefix.
abbrev IsAfter : Text → Text → Option Text → Type 0
IsAfter s t none = Unit
IsAfter s t (some rest) = s ≡ t ++ rest

strip_prefix-IsAfter : (s t : Text) → IsAfter s t (strip_prefix s t)
unfolding strip_prefix
strip_prefix-IsAfter s [] = refl
strip_prefix-IsAfter [] (d ∷ t) = tt
strip_prefix-IsAfter (c ∷ s) (d ∷ t) = elim (Bool-cases (c == d)) [
  | inr e ↦ rw (e, strip_prefix) tt
  | inl e ↦
      rw (e, strip_prefix)
        (elim (Option-cases (strip_prefix s t)) [
          | inl n ↦ rw n tt
          | inr (rest, n) ↦
              let split : s ≡ t ++ rest = subst (IsAfter s t) n (strip_prefix-IsAfter s t) in
              rw n (ap (λ (k : ℕ). k ∷ s) ((==_iff c d).0 e) ∙ ap (λ (r : Text). d ∷ r) split)
        ])
]

-- The two sides of the first such character.
abbrev IsSplit : ℕ → Text → Option (Text × Text) → Type 0
IsSplit d s none = All (λ c. c ≢ d) s
IsSplit d s (some (a, b)) = (s ≡ a ++ d ∷ b) × All (λ c. c ≢ d) a

split_once-IsSplit : (d : ℕ) (s : Text) → IsSplit d s (split_once d s)
unfolding split_once
split_once-IsSplit d [] = tt
split_once-IsSplit d (c ∷ s) = elim (Bool-cases (c == d)) [
  | inl e ↦ rw (e, split_once) (ap (λ (k : ℕ). k ∷ s) ((==_iff c d).0 e), tt)
  | inr e ↦
      let other : c ≢ d = λ q. ground arith in
      rw (e, split_once)
        (elim (Option-cases (split_once d s)) [
          | inl n ↦ rw n (other, subst (IsSplit d s) n (split_once-IsSplit d s))
          | inr ((a, b), n) ↦
              let (split, others) : IsSplit d s (some (a, b)) =
                subst (IsSplit d s) n (split_once-IsSplit d s) in
              rw n (ap (λ (r : Text). c ∷ r) split, (other, others))
        ])
]

-- That a path says what was made of it.
abbrev pub Names : Text → Endpoint → Type 0
Names path (dedicated id suffix) =
    (path ≡ codes "/models/" ++ (id ++ suffix))
    × (id ≢ [])
    × All (λ c. c ≢ b'/') id
    × ((rest : Text) × (suffix ≡ b'/' ∷ rest) × (rest ≢ []))
Names path (generic suffix) = (suffix ≡ path) × (starts_with path (codes "/v1/") ≡ true)
Names path listing = without_slashes (without_query path) ≡ codes "/v1/models"
Names path catalogue = without_slashes path ≡ codes "/models"
Names path properties = without_slashes path ≡ codes "/props"

abbrev NamesIf : Text → Answer Endpoint → Type 0
NamesIf path (answered e) = Names path e
NamesIf path (refusing r) = Unit

-- A model and what follows it, either of which may be empty.
named_pair :
    (path id suffix : Text)
    → path ≡ codes "/models/" ++ (id ++ b'/' ∷ suffix)
    → All (λ c. c ≢ b'/') id
    → NamesIf path (
        if not (is_empty id) && not (is_empty suffix)
        then answered (dedicated id (b'/' ∷ suffix))
        else nothing_after path)
unfolding nothing_after
named_pair path [] suffix says bare = tt
named_pair path (c ∷ id) [] says bare = tt
named_pair path (c ∷ id) (d ∷ suffix) says bare =
    (says, λ q. absurd (cc), bare, (d ∷ suffix, refl, λ q. absurd (cc)))

dedicated_of-NamesIf :
    (path rest : Text) → path ≡ codes "/models/" ++ rest → NamesIf path (dedicated_of path rest)
unfolding dedicated_of nothing_after
dedicated_of-NamesIf path rest says = elim (Option-cases (split_once b'/' rest)) [
  | inl n ↦ rw (n, dedicated_of) tt
  | inr ((id, suffix), n) ↦
      let (split, bare) : IsSplit b'/' rest (some (id, suffix)) =
        subst (IsSplit b'/' rest) n (split_once-IsSplit b'/' rest) in
      rw (n, dedicated_of)
        (named_pair path id suffix (says ∙ ap (λ (r : Text). codes "/models/" ++ r) split) bare)
]

undedicated_of-NamesIf : (path : Text) → NamesIf path (undedicated_of path)
unfolding undedicated_of
undedicated_of-NamesIf path =
    elim (Bool-cases (text_eq (without_slashes (without_query path)) listing_path)) [
      | inl e ↦ rw (e, undedicated_of) (eq_of_text_eq _ _ e)
      | inr e ↦
          rw (e, undedicated_of)
            (elim (Bool-cases (starts_with path generic_prefix)) [
              | inl s ↦ rw s (refl, s)
              | inr s ↦ rw s tt
            ])
    ]

endpoint_of-NamesIf : (path : Text) → NamesIf path (endpoint_of path)
unfolding endpoint_of
endpoint_of-NamesIf path = elim (Bool-cases (text_eq (without_slashes path) catalogue_path)) [
  | inl e ↦ rw (e, endpoint_of) (eq_of_text_eq _ _ e)
  | inr e ↦
      rw (e, endpoint_of)
        (elim (Bool-cases (text_eq (without_slashes path) properties_path)) [
          | inl p ↦ rw p (eq_of_text_eq _ _ p)
          | inr p ↦ rw p (elim (Option-cases (strip_prefix path dedicated_prefix)) [
            | inl n ↦ rw n (undedicated_of-NamesIf path)
            | inr (rest, n) ↦ rw n (
                dedicated_of-NamesIf path rest (
                  subst (IsAfter path dedicated_prefix) n
                    (strip_prefix-IsAfter path dedicated_prefix)))
          ])
        ])
]

-- An endpoint says of its path no more than the path does. A dedicated one has a model with no
-- slash in its name and a longer suffix that starts with one, and the path is the prefix, the
-- model and that suffix; a generic one asks the child for the whole path, which starts with the
-- generic prefix; the listing, the catalogue and the properties are those paths but for slashes
-- at the end and, for the listing, what follows a question mark.
pub endpoint_of-Names :
    (path : Text) (endpoint : Endpoint) → endpoint_of path ≡ answered endpoint → Names path endpoint
endpoint_of-Names path endpoint h = subst (NamesIf path) h (endpoint_of-NamesIf path)
