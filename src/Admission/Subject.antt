-- ===== src/Admission/Subject.antt =====
-- src/admission/subject.rs: the models held, and the one that is asked for.
use maestro_llamacpp.Common.{
  ℕ, Bool, Option, none, some, List, [], ◌∷◌, max, ◌==◌, if◌then◌else◌, any, is_some_and, unwrap_or,
}
use maestro_llamacpp.Common.Text.{Text, codes, text_eq, trim}
use maestro_llamacpp.Catalog.{Entry, Residency, get_flag}
use maestro_llamacpp.Memory.{Measurement, largest_mib}

pub record Loaded : Type 0 where
  pub id : Text
  pub cost_mib : ℕ
  pub device_mib : ℕ
  pub residency : Residency
  pub busy : Bool
  pub last_used : ℕ

pub record Wanted : Type 0 where
  pub id : Text
  pub cost_mib : ℕ
  pub device_mib : ℕ

abbrev layers_on_device : List Text
layers_on_device = codes "n-gpu-layers" ∷ codes "ngl" ∷ codes "gpu-layers" ∷ []

-- Whether a flag keeps every layer off the device.
off_device : Entry → Bool
off_device e =
    any (λ key. is_some_and (get_flag key e.flags) (λ value. text_eq (trim value) (codes "0")))
      layers_on_device

unfoldable pub device_need_mib : Entry → ℕ
unfolding off_device
device_need_mib e = if off_device e then 0 else e.memory_estimate_mib

-- The measurement that an entry is charged: of the device alone if it needs nothing there.
measured_cost : Entry → Measurement → Option ℕ
measured_cost e measured =
    if device_need_mib e == 0 then measured.device_mib else largest_mib measured

cost_of : ℕ → Option ℕ → ℕ
cost_of estimate none = estimate
cost_of estimate (some mib) = max mib estimate

unfoldable pub loaded_of : Entry → Bool → ℕ → Measurement → Loaded
unfolding cost_of measured_cost
loaded_of e busy last_used measured = record {
  id = e.id;
  cost_mib = cost_of e.memory_estimate_mib (measured_cost e measured);
  device_mib = unwrap_or measured.device_mib (device_need_mib e);
  residency = e.residency;
  busy = busy;
  last_used = last_used;
}

unfoldable pub wanted_of : Entry → Wanted
wanted_of e = record { id = e.id; cost_mib = e.memory_estimate_mib; device_mib = device_need_mib e }
