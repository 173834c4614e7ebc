-- ===== src/Admission/Room.antt =====
-- src/admission/room.rs: what there is to fit into, and the words for when there is not.
use maestro_llamacpp.Common.{
  ℕ, ◌+◌, ◌-◌, ◌%◌, Bool, true, false, Option, none, some, List, [], ◌∷◌, ◌++◌, map, ltb, leb, keep,
  if◌then◌else◌, is_none_or, unwrap_or,
}
use maestro_llamacpp.Common.Text.{Text, codes, show, join}
use maestro_llamacpp.Common.Word.{add_u64, sum_u64, u64_mod}
use maestro_llamacpp.Catalog.{Residency, resident, on_demand, is_resident}
use maestro_llamacpp.Admission.Subject.{Loaded, Wanted}

pub record Room : Type 0 where
  pub limit : Option ℕ
  pub held : ℕ
  pub device_free : Option ℕ

pub record Freed : Type 0 where
  pub cost : ℕ
  pub device : ℕ

abbrev pub nothing_freed : Freed
nothing_freed = record { cost = 0; device = 0 }

pub data Short : Type 0 where
  ledger device : Short

unfoldable pub ledger_fits : Room → Wanted → Freed → Bool
ledger_fits room wanted freed =
    is_none_or room.limit (λ limit. leb (add_u64 (room.held - freed.cost) wanted.cost_mib) limit)

unfoldable pub device_fits : Room → Wanted → Freed → Bool
device_fits room wanted freed =
    is_none_or room.device_free (λ free. leb wanted.device_mib (add_u64 free freed.device))

-- The ledger is named first when both sides are short.
unfoldable pub short : Room → Wanted → Freed → Option Short
short room wanted freed =
    if ledger_fits room wanted freed
    then (if device_fits room wanted freed then none else some device)
    else some ledger

why_held : Residency → Bool → Text
why_held r true = codes ", busy"
why_held resident false = codes ", resident"
why_held on_demand false = []

unfoldable pub holders : List Loaded → Text
unfolding why_held
holders loaded = join (codes ", ") (
    map
      (λ (h : Loaded).
        h.id
        ++ codes " ("
        ++ show h.cost_mib
        ++ codes " MiB"
        ++ why_held h.residency h.busy
        ++ codes ")")
      loaded)

unfoldable pub residents : List Loaded → List Loaded
residents = keep (λ h. is_resident h.residency)

unfoldable pub reserved_mib : List Loaded → ℕ
reserved_mib loaded = sum_u64 (λ h. h.cost_mib) (residents loaded)

permanent_refusal : ℕ → Wanted → List Loaded → Text
permanent_refusal limit wanted loaded =
    codes "'"
    ++ wanted.id
    ++ codes "' needs "
    ++ show wanted.cost_mib
    ++ codes " MiB and can never load: of the budget's "
    ++ show limit
    ++ codes " MiB, "
    ++ show (reserved_mib loaded)
    ++ codes " MiB is permanently reserved by resident entries ("
    ++ join (codes ", ") (map (λ (h : Loaded). h.id) (residents loaded))
    ++ codes "), leaving "
    ++ show ((limit + u64_mod - reserved_mib loaded) % u64_mod)
    ++ codes
        ". Unloading the rest would not be enough and waiting cannot help -- make one of those entries on-demand, or lower this one's estimate or context"

ledger_refusal : ℕ → Wanted → List Loaded → Text
unfolding permanent_refusal
ledger_refusal limit wanted loaded =
    if ltb limit (add_u64 wanted.cost_mib (reserved_mib loaded))
    then permanent_refusal limit wanted loaded
    else codes "'"
      ++ wanted.id
      ++ codes "' needs "
      ++ show wanted.cost_mib
      ++ codes " MiB and the budget of "
      ++ show limit
      ++ codes " MiB is held by: "
      ++ holders loaded

beside : List Loaded → Text
beside [] = []
beside (h ∷ hs) = codes ", beside: " ++ holders (h ∷ hs)

device_refusal : ℕ → Wanted → Freed → List Loaded → Text
unfolding beside
device_refusal free wanted freed loaded =
    codes "'"
    ++ wanted.id
    ++ codes "' needs "
    ++ show wanted.device_mib
    ++ codes " MiB on the device, which has "
    ++ show free
    ++ codes " MiB free and would have "
    ++ show (add_u64 free freed.device)
    ++ codes
        " MiB once every idle model was unloaded; the rest is held by something outside this router"
    ++ beside loaded

unfoldable pub refusal : Room → Short → Wanted → Freed → List Loaded → Text
unfolding ledger_refusal device_refusal
refusal room ledger wanted freed loaded = ledger_refusal (unwrap_or room.limit 0) wanted loaded
refusal room device wanted freed loaded =
    device_refusal (unwrap_or room.device_free 0) wanted freed loaded
