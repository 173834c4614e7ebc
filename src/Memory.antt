-- ===== src/Memory.antt =====
-- src/memory.rs: what the machine says about its memory.
pub mod Parse
use maestro_llamacpp.Common.{ℕ, ◌-◌, Option, none, some, max}
use maestro_llamacpp.Common.Text.{Text}
use Parse.{device_of, compute_apps, scaled, kib_per_mib, DeviceMemory}

unfoldable pub free_mib : DeviceMemory → ℕ
free_mib d = d.total_mib - d.used_mib

pub record Measurement : Type 0 where
  pub resident_mib : Option ℕ
  pub device_mib : Option ℕ

abbrev pub unknown : Measurement
unknown = record { resident_mib = none; device_mib = none }

-- The larger of two readings, where an absent one loses to a present one.
larger : Option ℕ → Option ℕ → Option ℕ
larger none b = b
larger (some a) none = some a
larger (some a) (some b) = some (max a b)

unfoldable pub largest_mib : Measurement → Option ℕ
unfolding larger
largest_mib m = larger m.resident_mib m.device_mib

pub record Fixed : Type 0 where
  pub device : Option DeviceMemory
  pub system_total_mib : Option ℕ
  pub measurement : Measurement

-- What the commands of src/memory/command.rs answer: the texts of the device query, of the query
-- of processes on the device and of the query of one process, and the system's total.
pub record Machine : Type 0 where
  pub device_query : Option Text
  pub process_query : Option Text
  pub resident_query : ℕ → Option Text
  pub system_total : Option ℕ

pub data Probe : Type 0 where
  fixed : Fixed → Probe
  machine : Machine → Probe

infixl 5 ◌>>=◌
abbrev ◌>>=◌ : {A B : Type 0} → Option A → (A → Option B) → Option B
none >>= f = none
some a >>= f = f a

unfoldable pub device : Probe → Option DeviceMemory
device (fixed f) = f.device
device (machine m) = m.device_query >>= device_of

unfoldable pub system_total_mib : Probe → Option ℕ
system_total_mib (fixed f) = f.system_total_mib
system_total_mib (machine m) = m.system_total

-- On a machine with `ps`.
unfoldable pub measure : Probe → ℕ → Measurement
measure (fixed f) pid = f.measurement
measure (machine m) pid = record {
  resident_mib = m.resident_query pid >>= λ text. scaled text kib_per_mib;
  device_mib = m.process_query >>= λ text. compute_apps text pid;
}
