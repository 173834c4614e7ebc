-- ===== src/Proxy/Slots.antt =====
-- src/proxy/slots: every entry's slot, and what is done with all of them.
-- The slots are a function of the entry's identifier, since the catalog fixes the keys of the map.
pub mod MakeRoom
use maestro_llamacpp.Common.{
  ℕ, Bool, true, false, Option, none, some, List, [], ◌∷◌, map, leb, ◌-◌, if◌then◌else◌, filter_map,
}
use maestro_llamacpp.Common.Text.{Text, text_eq}
use maestro_llamacpp.Catalog.{Entry}
use maestro_llamacpp.Memory.{Measurement, largest_mib}
use maestro_llamacpp.Admission.Subject.{Loaded, loaded_of}
use maestro_llamacpp.Idle.{IdleWindow, expired}
use maestro_llamacpp.Proxy.Child.{
  LoadedChild, Slot, Liveness, busy, Take, taken, busy_child, empty, take_if_idle, take_if_exited,
}

abbrev pub Slots : Type 0
Slots = Text → Slot

unfoldable pub set_slot : Slots → Text → Slot → Slots
set_slot slots id slot j = if text_eq id j then slot else slots j

-- `Slots::new`: every slot is empty.
abbrev pub no_slots : Slots
no_slots id = none

-- `Slots::snapshot`
unfoldable pub snapshot : {T : Type 0} → Slots → List Entry → (Entry → LoadedChild → T) → List T
snapshot slots entries project =
    filter_map
      (λ (e : Entry). elim (slots e.id) [ none ↦ none | some held ↦ some (project e held) ]) entries

unfoldable pub loaded_ids : Slots → List Entry → List Text
loaded_ids slots entries = snapshot slots entries (λ e held. e.id)

unfoldable pub memory : Slots → List Entry → List (Text × Option ℕ)
memory slots entries = snapshot slots entries (λ e held. (e.id, largest_mib held.measured))

abbrev pub held_one : List ℕ → Entry → LoadedChild → Loaded
held_one handles e held = loaded_of e (busy handles held.child) held.last_used held.measured

-- What a snapshot of what is held sees in one slot.
abbrev pub seen_one : Slot → List ℕ → Entry → List Loaded
seen_one none handles e = []
seen_one (some held) handles e = held_one handles e held ∷ []

unfoldable pub held : Slots → List ℕ → List Entry → List Loaded
held slots handles entries = snapshot slots entries (held_one handles)

-- `Slots::unload`: the slots afterwards, and the entry that stopped it, if one did.
unfoldable pub unload_all : List ℕ → List Text → Slots → Slots × Option Text
unload_all handles [] slots = (slots, none)
unload_all handles (id ∷ ids) slots =
    let found = take_if_idle handles (λ held. true) (slots id) in
    let rest = unload_all handles ids (set_slot slots id found.0) in
    elim found.1 [ taken child ↦ rest | busy_child ↦ (slots, some id) | empty ↦ rest ]

-- `Slots::clear`
unfoldable pub clear : Slots → List Entry → Slots
clear slots [] = slots
clear slots (e ∷ es) = clear (set_slot slots e.id none) es

-- `Slots::swept`: takes from each named slot, and says what it took.
unfoldable pub swept :
    {T : Type 0}
    → (Slot → Slot × Option (LoadedChild × T))
    → List Text
    → Slots
    → Slots × List (Text × T)
swept take [] slots = (slots, [])
swept take (id ∷ ids) slots =
    let found = take (slots id) in
    let rest = swept take ids (set_slot slots id found.0) in
    elim found.1 [ none ↦ rest | some (child, said) ↦ (rest.0, (id, said) ∷ rest.1) ]

unfoldable pub sweep_exited : List ℕ → (ℕ → Liveness) → List Entry → Slots → Slots × List (Text × ℕ)
sweep_exited handles check entries =
    swept (take_if_exited handles check) (map (λ (e : Entry). e.id) entries)

unfoldable pub stale : ℕ → ℕ → LoadedChild → Bool
stale now duration held = leb duration (now - held.last_used)

unit_said : Slot × Take → Slot × Option (LoadedChild × Unit {0})
unit_said (slot, taken child) = (slot, some (child, tt))
unit_said (slot, busy_child) = (slot, none)
unit_said (slot, empty) = (slot, none)

take_stale : List ℕ → ℕ → ℕ → Slot → Slot × Option (LoadedChild × Unit {0})
unfolding unit_said
take_stale handles now duration slot = unit_said (take_if_idle handles (stale now duration) slot)

unfoldable pub sweep_idle : List ℕ → List Entry → IdleWindow → ℕ → Slots → Slots × List Text
unfolding take_stale
sweep_idle handles entries window now slots = elim window.duration [
  | none ↦ (slots, [])
  | some duration ↦
      let done =
        swept (take_stale handles now duration) (expired window (held slots handles entries) now)
          slots in
      (done.0, map (λ (said : Text × Unit {0}). said.0) done.1)
]
