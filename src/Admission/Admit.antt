-- ===== src/Admission/Admit.antt =====
-- src/admission.rs: `Budget::admit`.
use maestro_llamacpp.Common.{
  ℕ, Bool, not, ◌&&◌, Option, none, some, List, [], ◌∷◌, ◌++◌, map, ltb, keep, any, if◌then◌else◌,
  is_none, sort_by_key,
}
use maestro_llamacpp.Common.Text.{Text, codes, show, text_eq}
use maestro_llamacpp.Common.Word.{add_u64, sum_u64}
use maestro_llamacpp.Catalog.{is_on_demand}
use maestro_llamacpp.Admission.Subject.{Loaded, Wanted}
use maestro_llamacpp.Admission.Room.{Room, Freed, nothing_freed, short, refusal}

pub data Decision : Type 0 where
  fits : Decision
  unload : List Text → Decision
  blocked : Text → Decision
  refuse : Text → Decision

unfoldable pub already_loaded : List Loaded → Wanted → Bool
already_loaded loaded wanted = any (λ held. text_eq held.id wanted.id) loaded

over_budget_message : Wanted → ℕ → Text
over_budget_message wanted limit =
    codes "'"
    ++ wanted.id
    ++ codes "' is estimated at "
    ++ show wanted.cost_mib
    ++ codes " MiB, which is more than the whole budget of "
    ++ show limit
    ++ codes " MiB; nothing can be unloaded to make it fit"

-- On-demand, idle, and not the entry being asked for.
unfoldable pub is_candidate : Wanted → Loaded → Bool
is_candidate wanted held =
    is_on_demand held.residency && not held.busy && not (text_eq held.id wanted.id)

unfoldable pub candidates : List Loaded → Wanted → List Loaded
candidates loaded wanted = sort_by_key (λ h. h.last_used) (keep (is_candidate wanted) loaded)

unfoldable pub free_one : Freed → Loaded → Freed
free_one freed candidate = record {
  cost = add_u64 freed.cost candidate.cost_mib;
  device = add_u64 freed.device candidate.device_mib;
}

-- The loop over the candidates: what it frees, and the candidates that it takes.
unfoldable pub choose : Room → Wanted → List Loaded → Freed → Freed × List Loaded
choose room wanted [] freed = (freed, [])
choose room wanted (c ∷ cs) freed =
    let rest = choose room wanted cs (free_one freed c) in
    if is_none (short room wanted freed) then (freed, []) else (rest.0, c ∷ rest.1)

-- Whether what holds the room would be a candidate if it were idle.
unfoldable pub frees_itself : List Loaded → Wanted → Bool
frees_itself loaded wanted =
    any (λ h. is_on_demand h.residency && h.busy && not (text_eq h.id wanted.id)) loaded

unfoldable pub decide : Room → Wanted → List Loaded → Freed × List Loaded → Decision
decide room wanted loaded (freed, chosen) = elim (short room wanted freed) [
  | none ↦ unload (map (λ (h : Loaded). h.id) chosen)
  | some side ↦
      let message = refusal room side wanted freed loaded in
      if frees_itself loaded wanted then blocked message else refuse message
]

abbrev pub room_of : Option ℕ → List Loaded → Option ℕ → Room
room_of limit loaded device_free = record {
  limit = limit;
  held = sum_u64 (λ h. h.cost_mib) loaded;
  device_free = device_free;
}

unfoldable pub admit_in : Room → List Loaded → Wanted → Decision
admit_in room loaded wanted =
    if is_none (short room wanted nothing_freed)
    then fits
    else decide room wanted loaded (choose room wanted (candidates loaded wanted) nothing_freed)

over_limit : Option ℕ → Wanted → Option Text
unfolding over_budget_message
over_limit none wanted = none
over_limit (some limit) wanted =
    if ltb limit wanted.cost_mib then some (over_budget_message wanted limit) else none

-- The limit is the budget's, the last argument what the device has free.
unfoldable pub admit : Option ℕ → List Loaded → Wanted → Option ℕ → Decision
unfolding over_limit
admit limit loaded wanted device_free =
    if already_loaded loaded wanted then fits else elim (over_limit limit wanted) [
      | some message ↦ refuse message
      | none ↦ admit_in (room_of limit loaded device_free) loaded wanted
    ]
