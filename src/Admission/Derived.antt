-- ===== src/Admission/Derived.antt =====
-- What a derived budget leaves free: `Budget::derived` of src/admission/budget.rs.
use maestro_llamacpp.Common.{
  ℕ, ◌+◌, ◌-◌, ◌*◌, ◌/◌, ◌%◌, ◌≤◌, ◌<◌, none, some, ◌≡◌, arith, max, ◌⊎◌, ltb, if◌then◌else◌,
}
use native.Mathlib.Nat.{mod-eq_of_lt}
use maestro_llamacpp.Common.Word.{u32_max, u64_mod, clamp_u32}
use maestro_llamacpp.Memory.{Probe, device, system_total_mib}
use maestro_llamacpp.Memory.Parse.{DeviceMemory}
use maestro_llamacpp.Admission.Budget.{
  derived_budget, device_limit, system_limit, margin_of, limit_and_source, clamped, positive,
}

-- What the limit of a reading is.
limit_of_device :
    (probe : Probe) (d : DeviceMemory)
    → device probe ≡ some d
    → (let limit = d.total_mib - max (d.total_mib / 10) 1024 in
        (derived_budget probe).limit_mib ≡ (if ltb 0 limit then some (clamp_u32 limit) else none))
unfolding derived_budget clamped limit_and_source device_limit positive margin_of
limit_of_device probe d found = rw (found, limit_and_source) (ground arith)

limit_of_system :
    (probe : Probe) (total : ℕ)
    → device probe ≡ none
    → system_total_mib probe ≡ some total
    → (let limit = total * 80 % u64_mod / 100 in
        (derived_budget probe).limit_mib ≡ (if ltb 0 limit then some (clamp_u32 limit) else none))
unfolding derived_budget clamped limit_and_source system_limit positive
limit_of_system probe total no_device found =
    rw (no_device, limit_and_source) (rw (found, limit_and_source) (ground arith))

-- With a device: a limit is positive, fits 32 bits, and leaves a tenth of the device free and at
-- least 1024 MiB; there is no limit only on a device that holds no more than that margin.
pub derived_budget-device :
    (probe : Probe) (d : DeviceMemory)
    → device probe ≡ some d
    → ((limit : ℕ)
        → (derived_budget probe).limit_mib ≡ some limit
        → (0 < limit)
          × (limit ≤ u32_max)
          × (limit + 1024 ≤ d.total_mib)
          × (limit + d.total_mib / 10 ≤ d.total_mib))
      × ((derived_budget probe).limit_mib ≡ none
          → (d.total_mib ≤ 1024) ⊎ (d.total_mib ≤ d.total_mib / 10))
unfolding clamp_u32
derived_budget-device probe d found =
    let is = limit_of_device probe d found in
    (λ limit h. ground (arith, is, h), λ h. ground (arith, is, h))

-- Without a device, where the system says what it holds and that is in range: a limit is
-- positive, fits 32 bits and is at most four fifths; there is none only below 2 MiB.
pub derived_budget-system :
    (probe : Probe) (total : ℕ)
    → device probe ≡ none
    → system_total_mib probe ≡ some total
    → total * 80 < u64_mod
    → ((limit : ℕ)
        → (derived_budget probe).limit_mib ≡ some limit
        → (0 < limit) × (limit ≤ u32_max) × (limit * 100 ≤ total * 80))
      × ((derived_budget probe).limit_mib ≡ none → total < 2)
unfolding clamp_u32
derived_budget-system probe total no_device found in_range =
    let is = limit_of_system probe total no_device found in
    let exact = mod-eq_of_lt in_range in
    (λ limit h. ground (arith, is, exact, h), λ h. ground (arith, is, exact, h))
