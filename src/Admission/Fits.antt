-- ===== src/Admission/Fits.antt =====
-- The two questions of a decision, on exact figures.
use maestro_llamacpp.Common.{
  ℕ, ◌+◌, ◌-◌, ◌≤◌, ◌<◌, true, Option, none, some, List, ◌≡◌, refl, ◌∙◌, arith, leb, is_none_or,
  unwrap_or, ◌↔◌,
}
use maestro_llamacpp.Common.Word.{u64_mod, add_u64, add_u64_exact, sum_u64_exact}
use maestro_llamacpp.Admission.Subject.{Loaded, Wanted}
use maestro_llamacpp.Admission.Room.{Freed, nothing_freed, short, ledger_fits, device_fits}
use maestro_llamacpp.Admission.Admit.{room_of}
use maestro_llamacpp.Admission.Choice.{freed_by}
use maestro_llamacpp.Admission.Exact.{
  total_cost, total_device, InRange, freed_by-cost, freed_by-device, IfSome,
}

-- With the entries `gone` unloaded, the wanted entry fits the ledger, and it fits the device.
pub record FitsWithout (limit : Option ℕ) (loaded : List Loaded) (wanted : Wanted) (free : Option ℕ)
    (gone : List Loaded) : Type 0 where
  pub ledger : IfSome limit (λ l. (total_cost loaded - total_cost gone) + wanted.cost_mib ≤ l)
  pub device : IfSome free (λ d. wanted.device_mib ≤ d + total_device gone)

module _ (limit : Option ℕ) (loaded : List Loaded) (wanted : Wanted) (free : Option ℕ) where
  ledger_iff :
      (freed : Freed)
      → total_cost loaded + wanted.cost_mib < u64_mod
      → (ledger_fits (room_of limit loaded free) wanted freed ≡ true)
        ↔ IfSome limit (λ l. (total_cost loaded - freed.cost) + wanted.cost_mib ≤ l)
  unfolding ledger_fits
  ledger_iff freed h =
      let held = sum_u64_exact (λ (x : Loaded). x.cost_mib) loaded (omega arith) in
      rw held (go limit)
    where
      go :
          (o : Option ℕ)
          → (is_none_or o (λ l. leb (add_u64 (total_cost loaded - freed.cost) wanted.cost_mib) l)
              ≡ true)
            ↔ IfSome o (λ l. (total_cost loaded - freed.cost) + wanted.cost_mib ≤ l)
      go none = (λ _. tt, λ _. refl)
      go (some l) =
          rw (add_u64_exact (total_cost loaded - freed.cost) wanted.cost_mib (omega arith))
            (ground arith)

  device_iff :
      (freed : Freed)
      → unwrap_or free 0 + freed.device < u64_mod
      → (device_fits (room_of limit loaded free) wanted freed ≡ true)
        ↔ IfSome free (λ d. wanted.device_mib ≤ d + freed.device)
  unfolding device_fits
  device_iff freed h = go free h
    where
      go :
          (o : Option ℕ)
          → unwrap_or o 0 + freed.device < u64_mod
          → (is_none_or o (λ d. leb wanted.device_mib (add_u64 d freed.device)) ≡ true)
            ↔ IfSome o (λ d. wanted.device_mib ≤ d + freed.device)
      go none h = (λ _. tt, λ _. refl)
      go (some d) h = rw (add_u64_exact d freed.device h) (ground arith)

  short_iff :
      (freed : Freed)
      → (short (room_of limit loaded free) wanted freed ≡ none) ↔ (
          (ledger_fits (room_of limit loaded free) wanted freed ≡ true)
          × (device_fits (room_of limit loaded free) wanted freed ≡ true))
  unfolding short
  short_iff freed = ground arith

  module _ (r : InRange loaded wanted free) (gone : List Loaded)
      (less : total_cost gone ≤ total_cost loaded)
      (fewer : total_device gone ≤ total_device loaded) where
    abbrev freed : Freed
    freed = freed_by nothing_freed gone

    freed-cost : freed.cost ≡ total_cost gone
    freed-cost = freed_by-cost nothing_freed gone (omega (arith, r.cost)) ∙ omega arith

    freed-device : freed.device ≡ total_device gone
    freed-device = freed_by-device nothing_freed gone (omega (arith, r.device)) ∙ omega arith

    -- The code's test is the exact question, where no sum wraps.
    pub short-none_iff :
        (short (room_of limit loaded free) wanted freed ≡ none)
        ↔ FitsWithout limit loaded wanted free gone
    short-none_iff =
        let ledger = rw freed-cost at (ledger_iff freed r.cost) in
        let device =
          rw freed-device at (device_iff freed (rw freed-device (omega (arith, r.device)))) in
        let both = short_iff freed in
        (
          λ e. record { ledger = ledger.0 (both.0 e).0; device = device.0 (both.0 e).1 },
          λ f. both.1 (ledger.1 f.ledger, device.1 f.device),
        )

-- The ledger's half needs only the ledger's sum to fit the word.
pub short-none-ledger :
    (limit : Option ℕ) (loaded : List Loaded) (wanted : Wanted) (free : Option ℕ)
    (gone : List Loaded)
    → total_cost loaded + wanted.cost_mib < u64_mod
    → total_cost gone ≤ total_cost loaded
    → short (room_of limit loaded free) wanted (freed_by nothing_freed gone) ≡ none
    → IfSome limit (λ l. (total_cost loaded - total_cost gone) + wanted.cost_mib ≤ l)
short-none-ledger limit loaded wanted free gone fits less e =
    let freed = freed_by nothing_freed gone in
    let cost : freed.cost ≡ total_cost gone =
      freed_by-cost nothing_freed gone (omega arith) ∙ omega arith in
    (rw cost at (ledger_iff limit loaded wanted free freed fits)).0
      ((short_iff limit loaded wanted free freed).0 e).0
