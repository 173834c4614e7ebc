-- ===== src/Admission/Tests.antt =====
-- Decisions on the figures of the unit tests in src/admission.rs.
use mathlib.Core.List.{Mem}
use maestro_llamacpp.Common.{
  Option, ◌+◌, ◌*◌, ◌/◌, ◌≤◌, ◌<◌, ℕ, Bool, true, false, none, some, List, [], ◌∷◌, ◌≡◌, refl, sym,
  subst, arith, any, keep, sum_by, sort_by_key, All, ◌⊎◌,
}
use maestro_llamacpp.Common.Text.{Text, text_eq}
use maestro_llamacpp.Common.Word.{u32_max, add_u64, sum_u64}
use maestro_llamacpp.Memory.{Probe, fixed, device, system_total_mib, unknown}
use maestro_llamacpp.Memory.Parse.{DeviceMemory}
use maestro_llamacpp.Admission.Budget.{derived_budget}
use maestro_llamacpp.Admission.Derived.{derived_budget-device, derived_budget-system}
use maestro_llamacpp.Catalog.{Residency, resident, on_demand}
use maestro_llamacpp.Admission.Subject.{Loaded, Wanted}
use maestro_llamacpp.Admission.Room.{short, ledger_fits, device_fits}
use maestro_llamacpp.Admission.Admit.{
  Decision, fits, unload, blocked, refuse, admit, admit_in, decide, choose, candidates, free_one,
  frees_itself, already_loaded, is_candidate,
}
use maestro_llamacpp.Admission.Exact.{InRange}
use maestro_llamacpp.Admission.Fits.{FitsWithout}
use maestro_llamacpp.Admission.MakesRoom.{MakesRoom, admit-unload-MakesRoom}
use maestro_llamacpp.Admission.Order.{ColdestFirst, admit-unload-ColdestFirst}
use maestro_llamacpp.Admission.Outcomes.{
  OverLimit, Denies, Finishing, admit-Denies_needed, admit-blocked_or_refuse,
}
use maestro_llamacpp.Admission.Permanence.{FitsLater, admit-refuse_permanent}

abbrev held_entry : Text → ℕ → Residency → Bool → ℕ → Loaded
held_entry id mib r busy last = record {
  id = id;
  cost_mib = mib;
  device_mib = mib;
  residency = r;
  busy = busy;
  last_used = last;
}

abbrev three_held : List Loaded
three_held =
    held_entry (b'a' ∷ []) 3000 on_demand false 1
    ∷ held_entry (b'b' ∷ []) 3000 on_demand false 2
    ∷ held_entry (b'c' ∷ []) 3000 on_demand false 3
    ∷ []

abbrev want : ℕ → Wanted
want mib = record { id = b'd' ∷ []; cost_mib = mib; device_mib = mib }

abbrev two_ids : List Text
two_ids = (b'a' ∷ []) ∷ (b'b' ∷ []) ∷ []

three_held-InRange : InRange three_held (want 5000) (some 4000)
unfolding sum_by
three_held-InRange = record { cost = omega arith; device = omega arith }

-- Two make room for 5000 within 10000; the third stays loaded.
unloads_two : admit (some 10000) three_held (want 5000) (some 4000) ≡ unload two_ids
unfolding admit admit_in already_loaded choose decide candidates is_candidate free_one short
    ledger_fits device_fits keep any sort_by_key text_eq add_u64 sum_u64
unloads_two = refl

admit-unload-MakesRoom_example : MakesRoom (some 10000) three_held (want 5000) (some 4000) two_ids
admit-unload-MakesRoom_example =
    admit-unload-MakesRoom (some 10000) three_held (want 5000) (some 4000) two_ids
      three_held-InRange unloads_two

admit-unload-ColdestFirst_example :
    (ended : List Loaded) × (left : List Loaded) × ColdestFirst
      (some 10000)
      three_held
      (want 5000)
      (some 4000)
      two_ids
      ended
      left
admit-unload-ColdestFirst_example =
    admit-unload-ColdestFirst (some 10000) three_held (want 5000) (some 4000) two_ids
      three_held-InRange unloads_two

-- A resident that reserves 1000 of 10000, beside an idle entry; 9500 are wanted.
abbrev beside_resident : List Loaded
beside_resident =
    held_entry (b's' ∷ []) 1000 resident false 1
    ∷ held_entry (b'b' ∷ []) 6000 on_demand false 2
    ∷ []

beside_resident-InRange : InRange beside_resident (want 9500) none
unfolding sum_by
beside_resident-InRange = record { cost = omega arith; device = omega arith }

abbrev message_of : Decision → Text
message_of fits = []
message_of (unload ids) = []
message_of (blocked m) = m
message_of (refuse m) = m

abbrev refused_message : Text
refused_message = message_of (admit (some 10000) beside_resident (want 9500) none)

refuses : admit (some 10000) beside_resident (want 9500) none ≡ refuse refused_message
unfolding admit admit_in already_loaded choose decide candidates is_candidate free_one short
    ledger_fits device_fits frees_itself keep any sort_by_key text_eq add_u64 sum_u64
refuses = refl

admit-Denies_needed_example :
    (already_loaded beside_resident (want 9500) ≡ false)
    × (OverLimit (some 10000) (want 9500)
        ⊎ (¬ FitsWithout
            (some 10000)
            beside_resident
            (want 9500)
            none
            (keep (is_candidate (want 9500)) beside_resident)))
admit-Denies_needed_example =
    admit-Denies_needed (some 10000) beside_resident (want 9500) none beside_resident-InRange
      (subst Denies (sym refuses) tt)

admit-blocked_or_refuse_example :
    ((admit (some 10000) beside_resident (want 9500) none ≡ blocked refused_message)
      → (h : Loaded) × Mem h beside_resident × Finishing (want 9500) h)
    × ((admit (some 10000) beside_resident (want 9500) none ≡ refuse refused_message)
        → OverLimit (some 10000) (want 9500) ⊎ All (λ h. ¬ Finishing (want 9500) h) beside_resident)
admit-blocked_or_refuse_example =
    admit-blocked_or_refuse (some 10000) beside_resident (want 9500) none refused_message

admit-refuse_permanent_example :
    OverLimit (some 10000) (want 9500)
    ⊎ ((stays : Loaded → Bool)
        → All (λ h. h.residency ≡ resident → stays h ≡ true) beside_resident
        → ¬ FitsLater (some 10000) beside_resident (want 9500) none stays)
admit-refuse_permanent_example =
    admit-refuse_permanent (some 10000) beside_resident (want 9500) none refused_message
      beside_resident-InRange refuses

abbrev reads : Option DeviceMemory → Probe
reads d = fixed (record { device = d; system_total_mib = some 16384; measurement = unknown })

abbrev a_device : DeviceMemory
a_device = record { total_mib = 24576; used_mib = 0 }

derived_budget-device_example :
    ((limit : ℕ)
      → (derived_budget (reads (some a_device))).limit_mib ≡ some limit
      → (0 < limit)
        × (limit ≤ u32_max)
        × (limit + 1024 ≤ a_device.total_mib)
        × (limit + a_device.total_mib / 10 ≤ a_device.total_mib))
    × ((derived_budget (reads (some a_device))).limit_mib ≡ none
        → (a_device.total_mib ≤ 1024) ⊎ (a_device.total_mib ≤ a_device.total_mib / 10))
unfolding device
derived_budget-device_example = derived_budget-device (reads (some a_device)) a_device refl

derived_budget-system_example :
    ((limit : ℕ)
      → (derived_budget (reads none)).limit_mib ≡ some limit
      → (0 < limit) × (limit ≤ u32_max) × (limit * 100 ≤ 16384 * 80))
    × ((derived_budget (reads none)).limit_mib ≡ none → 16384 < 2)
unfolding device system_total_mib
derived_budget-system_example = derived_budget-system (reads none) 16384 refl refl (omega arith)
