-- ===== src/Proxy/Answer/Own/Offered.antt =====
-- src/proxy/answer/own.rs beside src/proxy/slots: an offer says what the entry's slot holds.
use maestro_llamacpp.Common.{
  ℕ, Bool, true, false, ◌&&◌, Option, none, some, List, [], ◌∷◌, map, any, keep, All, All-imp,
  All-keep_of_All, ◌≡◌, refl, ap, ◌∙◌, arith, Bool-cases, Option-cases, inl, inr, filter_map,
  if◌then◌else◌,
}
use maestro_llamacpp.Common.Text.{Text, text_eq}
use maestro_llamacpp.Common.Text.Equality.{text_eq_refl, eq_of_text_eq}
use maestro_llamacpp.Catalog.{Entry}
use maestro_llamacpp.Catalog.Capability.{generates, accepts}
use maestro_llamacpp.Memory.{largest_mib}
use maestro_llamacpp.Proxy.Child.{Slot}
use maestro_llamacpp.Proxy.Slots.{Slots, snapshot, loaded_ids, memory}
use maestro_llamacpp.Proxy.Answer.Own.{Offer, collected, offer, catalogue}

abbrev pub is_loaded : Slot → Bool
is_loaded none = false
is_loaded (some held) = true

abbrev measured_mib : Slot → Option ℕ
measured_mib none = none
measured_mib (some held) = largest_mib held.measured

-- An offer, said of the entry and of its own slot alone.
abbrev pub described : Slots → Slots → Entry → Offer
described now later entry = record {
  id = entry.id;
  loaded = is_loaded (now entry.id);
  context = entry.context_size;
  modalities = accepts entry;
  declared_mib = entry.memory_estimate_mib;
  held_mib = measured_mib (later entry.id);
}

abbrev reported : Slot → Option (Option ℕ)
reported none = none
reported (some held) = some (largest_mib held.measured)

abbrev is_named : Text → List Entry → Bool
is_named id entries = any (λ (e : Entry). text_eq e.id id) entries

-- An identifier is listed if an entry has it and its slot holds a child.
loaded_said :
    (slots : Slots) (id : Text) (entries : List Entry)
    → any (λ i. text_eq i id) (loaded_ids slots entries)
      ≡ (is_named id entries && is_loaded (slots id))
unfolding loaded_ids snapshot filter_map any
loaded_said slots id [] = refl
loaded_said slots id (e ∷ entries) =
    let rest = loaded_said slots id entries in
    elim (Bool-cases (text_eq e.id id)) [
      | inl y ↦
          let here : slots e.id ≡ slots id = ap slots (eq_of_text_eq e.id id y) in
          elim (Option-cases (slots id)) [
            | inl n ↦ rw (here ∙ n, filter_map, n) (ground arith)
            | inr (held, s) ↦ rw (here ∙ s, filter_map, s) (ground arith)
          ]
      | inr y ↦ elim (Option-cases (slots e.id)) [
        | inl n ↦ rw (n, filter_map) (ground arith)
        | inr (held, s) ↦ rw (s, filter_map) (ground arith)
      ]
    ]

memory_said :
    (slots : Slots) (id : Text) (entries : List Entry)
    → collected id (memory slots entries)
      ≡ (if is_named id entries then reported (slots id) else none)
unfolding memory snapshot filter_map any collected
memory_said slots id [] = refl
memory_said slots id (e ∷ entries) =
    let rest = memory_said slots id entries in
    elim (Bool-cases (text_eq e.id id)) [
      | inl y ↦
          let here : slots e.id ≡ slots id = ap slots (eq_of_text_eq e.id id y) in
          elim (Option-cases (slots id)) [
            | inl n ↦ rw (here ∙ n, filter_map, n) (ground arith)
            | inr (held, s) ↦ rw (here ∙ s, filter_map, s) (ground arith)
          ]
      | inr y ↦ elim (Option-cases (slots e.id)) [
        | inl n ↦ rw (n, filter_map) (ground arith)
        | inr (held, s) ↦ rw (s, filter_map) (ground arith)
      ]
    ]

-- Every entry of a list is named in it.
all_named : (entries : List Entry) → All (λ (e : Entry). is_named e.id entries ≡ true) entries
unfolding any
all_named [] = tt
all_named (x ∷ entries) = (
  rw (text_eq_refl x.id) refl,
  All-imp (λ (e : Entry). is_named e.id entries ≡ true)
      (λ (e : Entry). is_named e.id (x ∷ entries) ≡ true) (λ e h. ground arith) entries
      (all_named entries),
)

offer-described :
    (now later : Slots) (entries : List Entry) (entry : Entry)
    → is_named entry.id entries ≡ true
    → offer (loaded_ids now entries) (memory later entries) entry ≡ described now later entry
unfolding offer
offer-described now later entries entry h =
    let loaded = loaded_said now entry.id entries in
    let held = memory_said later entry.id entries in
    rw (loaded, held, h)
      (elim (Option-cases (later entry.id)) [ inl n ↦ rw n refl | inr (child, s) ↦ rw s refl ])

map_where_equal :
    {A B : Type 0} (f g : A → B) (xs : List A) → All (λ x. f x ≡ g x) xs → map f xs ≡ map g xs
map_where_equal f g [] h = refl
map_where_equal f g (x ∷ xs) (e, h) = rw e (ap (λ ys. g x ∷ ys) (map_where_equal f g xs h))

-- The offers are those of the entries that generate, in the catalog's order. Each says that it is
-- loaded if its slot held a child at the first look, and what the child of its slot was measured
-- to hold at the second.
pub catalogue-described :
    (now later : Slots) (entries : List Entry)
    → catalogue now later entries ≡ map (described now later) (keep generates entries)
unfolding catalogue
catalogue-described now later entries =
    map_where_equal (offer (loaded_ids now entries) (memory later entries)) (described now later)
      (keep generates entries)
      (All-imp (λ e. is_named e.id entries ≡ true) _ (offer-described now later entries)
        (keep generates entries) (All-keep_of_All _ generates entries (all_named entries)))
