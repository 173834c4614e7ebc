-- ===== src/Proxy/Interleaving/Costs.antt =====
-- What the slots are charged on the ledger, entry by entry.
use maestro_llamacpp.Common.{
  ℕ, ◌+◌, ◌^◌, ◌≤◌, true, false, none, some, List, [], ◌∷◌, ◌++◌, ◌≡◌, refl, ap, ◌∙◌, arith, any,
  inl, inr, Option-cases, keep, keep-append, filter_map, sum_by, sum_by-append, if◌then◌else◌,
}
use maestro_llamacpp.Common.Text.{Text, text_eq, mem_text}
use maestro_llamacpp.Common.Text.Equality.{text_eq_iff}
use maestro_llamacpp.Common.Word.{u32_max}
use maestro_llamacpp.Catalog.{Entry}
use maestro_llamacpp.Memory.{Measurement, largest_mib}
use maestro_llamacpp.Admission.Subject.{Loaded, loaded_of}
use maestro_llamacpp.Admission.Exact.{total_cost, IfSome}
use maestro_llamacpp.Admission.Taken.{without}
use maestro_llamacpp.Proxy.Child.{LoadedChild, Slot}
use maestro_llamacpp.Proxy.Slots.{Slots, snapshot, held, held_one, seen_one}

pub cost_in : Entry → Measurement → ℕ
cost_in x m = (loaded_of x false 0 m).cost_mib

pub cost_in_lem :
    (handles : List ℕ) (x : Entry) (c : LoadedChild)
    → (held_one handles x c).cost_mib ≡ cost_in x c.measured
unfolding cost_in loaded_of
cost_in_lem handles x c = refl

pub id-held_one :
    (handles : List ℕ) (x : Entry) (c : LoadedChild) → (held_one handles x c).id ≡ x.id
unfolding loaded_of
id-held_one handles x c = refl

-- What one slot is charged, if the entries `ids` are left out.
abbrev pub charge_one : List Text → Entry → Slot → ℕ
charge_one ids x none = 0
charge_one ids x (some c) = if mem_text x.id ids then 0 else cost_in x c.measured

abbrev pub charge : Slots → List Text → List Entry → ℕ
charge slots ids = sum_by (λ x. charge_one ids x (slots x.id))

pub seen_one-charge :
    (ids : List Text) (slot : Slot) (handles : List ℕ) (x : Entry)
    → total_cost (without ids (seen_one slot handles x)) ≡ charge_one ids x slot
unfolding sum_by keep
seen_one-charge ids none handles x = refl
seen_one-charge ids (some c) handles x =
    ground
      (arith, cost_in_lem handles x c, ap (λ (i : Text). mem_text i ids) (id-held_one handles x c))

pub held-cons :
    (slots : Slots) (handles : List ℕ) (x : Entry) (xs : List Entry)
    → held slots handles (x ∷ xs) ≡ seen_one (slots x.id) handles x ++ held slots handles xs
unfolding held snapshot filter_map
held-cons slots handles x xs = elim (Option-cases (slots x.id)) [ inl e ↦ rw e | inr (c, e) ↦ rw e ]

pub total_cost-append :
    (ids : List Text) (hs ks : List Loaded)
    → total_cost (without ids (hs ++ ks))
      ≡ total_cost (without ids hs) + total_cost (without ids ks)
total_cost-append ids hs ks =
    ap total_cost (keep-append _ hs ks) ∙ sum_by-append (λ (h : Loaded). h.cost_mib) _ _

-- The exact cost of the snapshot is the charge of the slots.
pub held-charge :
    (slots : Slots) (handles : List ℕ) (ids : List Text) (xs : List Entry)
    → total_cost (without ids (held slots handles xs)) ≡ charge slots ids xs
unfolding sum_by
held-charge slots handles ids [] = unfold held snapshot filter_map keep in refl
held-charge slots handles ids (x ∷ xs) =
    ap (λ (hs : List Loaded). total_cost (without ids hs)) (held-cons slots handles x xs)
    ∙ total_cost-append ids (seen_one (slots x.id) handles x) (held slots handles xs)
    ∙ omega (arith, seen_one-charge ids (slots x.id) handles x, held-charge slots handles ids xs)

-- A slot that nothing was put into.
abbrev pub SlotShrinks : Slot → Slot → Type 0
SlotShrinks a none = Unit
SlotShrinks none (some b) = ⊥
SlotShrinks (some a) (some b) = (b.child ≡ a.child) × (b.measured ≡ a.measured)

abbrev pub Shrinks : Slots → Slots → Type 0
Shrinks before after = (id : Text) → SlotShrinks (before id) (after id)

charge_one_mono :
    (ids : List Text) (x : Entry) (a b : Slot)
    → SlotShrinks a b
    → charge_one ids x b ≤ charge_one ids x a
charge_one_mono ids x a none h = omega arith
charge_one_mono ids x none (some b) h = absurd h
charge_one_mono ids x (some a) (some b) h = ground (arith, ap (cost_in x) h.1)

pub charge_mono :
    (before after : Slots) (ids : List Text) (xs : List Entry)
    → Shrinks before after
    → charge after ids xs ≤ charge before ids xs
unfolding sum_by
charge_mono before after ids [] h = omega arith
charge_mono before after ids (x ∷ xs) h = omega (
  arith,
  charge_one_mono ids x (before x.id) (after x.id) (h x.id),
  charge_mono before after ids xs h,
)

charge_one-cons :
    (id : Text) (ids : List Text) (x : Entry) (slot : Slot)
    → (text_eq x.id id ≡ true → slot ≡ none)
    → charge_one ids x slot ≡ charge_one (id ∷ ids) x slot
unfolding mem_text any
charge_one-cons id ids x none h = refl
charge_one-cons id ids x (some c) h = ground arith

-- An empty slot may be left out or not.
pub charge-cons :
    (slots : Slots) (id : Text) (ids : List Text) (xs : List Entry)
    → slots id ≡ none
    → charge slots ids xs ≡ charge slots (id ∷ ids) xs
unfolding sum_by
charge-cons slots id ids [] h = refl
charge-cons slots id ids (x ∷ xs) h =
    let same : text_eq x.id id ≡ true → slots x.id ≡ none =
      λ e. ap slots ((text_eq_iff x.id id).0 e) ∙ h in
    omega (arith, charge_one-cons id ids x (slots x.id) same, charge-cons slots id ids xs h)

-- A reading of at most 2^40 MiB on either side.
abbrev pub max_mib : ℕ
max_mib = 2 ^ 40

abbrev pub IsReadable : Measurement → Type 0
IsReadable m = IfSome m.resident_mib (λ n. n ≤ max_mib) × IfSome m.device_mib (λ n. n ≤ max_mib)

pub cost_in-le :
    (x : Entry) (m : Measurement)
    → x.memory_estimate_mib ≤ u32_max
    → IsReadable m
    → cost_in x m ≤ max_mib
unfolding cost_in loaded_of largest_mib
cost_in-le x m fits h = elim (Option-cases m.resident_mib) [
  | inl r ↦ elim (Option-cases m.device_mib) [ inl d ↦ ground arith | inr (n, d) ↦ ground arith ]
  | inr (k, r) ↦ elim (Option-cases m.device_mib) [
    | inl d ↦ ground arith
    | inr (n, d) ↦ ground arith
  ]
]
