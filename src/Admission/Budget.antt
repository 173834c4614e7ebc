-- ===== src/Admission/Budget.antt =====
-- src/admission/budget.rs: the ceiling, and where it comes from.
use maestro_llamacpp.Common.{
  ℕ, ◌-◌, ◌*◌, ◌/◌, ◌%◌, Option, none, some, [], ◌∷◌, ◌++◌, max, ltb, if◌then◌else◌,
}
use maestro_llamacpp.Common.Text.{Text, codes, show, trim, parse_unsigned}
use maestro_llamacpp.Common.Word.{u64_mod, clamp_u32}
use maestro_llamacpp.Memory.Parse.{DeviceMemory}
use maestro_llamacpp.Memory.{Probe, fixed, device, system_total_mib, unknown}

abbrev pub min_device_margin_mib : ℕ
min_device_margin_mib = 1024

abbrev pub system_share_percent : ℕ
system_share_percent = 80

pub record Budget : Type 0 where
  pub limit_mib : Option ℕ
  pub probe : Probe
  pub source : Text

unfoldable pub with_probe : Option ℕ → Probe → Budget
with_probe limit probe = record {
  limit_mib = limit;
  probe = probe;
  source = codes "stated directly";
}

-- `Probe::none`
abbrev pub no_probe : Probe
no_probe = fixed (record { device = none; system_total_mib = none; measurement = unknown })

unfoldable pub new_budget : Option ℕ → Budget
new_budget limit = with_probe limit no_probe

unfoldable pub positive : ℕ → Option ℕ
positive limit = if ltb 0 limit then some limit else none

unfoldable pub margin_of : DeviceMemory → ℕ
margin_of d = max (d.total_mib / 10) min_device_margin_mib

unfoldable pub device_limit : DeviceMemory → Option ℕ × Text
device_limit d = (
  positive (d.total_mib - margin_of d),
  codes "derived from the device ("
      ++ show d.total_mib
      ++ codes " MiB total less a "
      ++ show (margin_of d)
      ++ codes " MiB margin)",
)

unfoldable pub system_limit : ℕ → Option ℕ × Text
system_limit total = (
  positive (total * system_share_percent % u64_mod / 100),
  codes "derived from system memory ("
      ++ show system_share_percent
      ++ codes " percent of "
      ++ show total
      ++ codes " MiB)",
)

unfoldable pub limit_and_source : Probe → Option ℕ × Text
limit_and_source probe = elim (device probe) [
  | some d ↦ device_limit d
  | none ↦ elim (system_total_mib probe) [
    | some total ↦ system_limit total
    | none ↦ (none, codes "nothing on this machine says what it holds")
  ]
]

unfoldable pub clamped : Option ℕ → Option ℕ
clamped none = none
clamped (some limit) = some (clamp_u32 limit)

unfoldable pub derived_budget : Probe → Budget
derived_budget probe =
    let (limit, source) = limit_and_source probe in
    record { limit_mib = clamped limit; probe = probe; source = source }

pub data Configured {ℓ} (A : Type ℓ) : Type ℓ where
  configured : A → Configured A
  unavailable : Text → Configured A

budget_complaint : Text → Text
budget_complaint text =
    codes "MAESTRO_MEMORY_BUDGET_MIB carries '"
    ++ text
    ++ codes
        "', which is not a number of mebibytes; unset it for a budget the machine sets, or give it a whole number"

-- The variable's value, if it is set, and the probe that the machine gives.
unfoldable pub configured_budget : Option Text → Probe → Configured Budget
unfolding budget_complaint
configured_budget none probe = configured (derived_budget probe)
configured_budget (some []) probe = configured (derived_budget probe)
configured_budget (some (c ∷ text)) probe = elim (parse_unsigned 32 (trim (c ∷ text))) [
  | none ↦ unavailable (budget_complaint (c ∷ text))
  | some limit ↦ configured (record {
    limit_mib = some limit;
    probe = probe;
    source = codes "from MAESTRO_MEMORY_BUDGET_MIB";
  })
]
