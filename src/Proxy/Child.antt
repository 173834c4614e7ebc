-- ===== src/Proxy/Child.antt =====
-- src/proxy/loaded.rs: a slot, and what may be done to the child in it.
-- An `Arc` is its child's number. `handles` lists the handles alive outside the slots.
use maestro_llamacpp.Common.{
  ℕ, ◌+◌, Bool, not, ◌||◌, Option, none, some, List, [], ◌∷◌, ◌==◌, ltb, if◌then◌else◌,
}
use maestro_llamacpp.Memory.{Measurement}

pub record LoadedChild : Type 0 where
  pub child : ℕ
  pub last_used : ℕ
  pub measured : Measurement

abbrev pub Slot : Type 0
Slot = Option LoadedChild

unfoldable pub count_handles : ℕ → List ℕ → ℕ
count_handles child [] = 0
count_handles child (h ∷ hs) = (if h == child then 1 else 0) + count_handles child hs

-- The slot's own handle and those outside.
unfoldable pub strong_count : List ℕ → ℕ → ℕ
strong_count handles child = 1 + count_handles child handles

unfoldable pub busy : List ℕ → ℕ → Bool
busy handles child = ltb 1 (strong_count handles child)

-- What `Child::check` says of a process: still running, or ended with a status.
pub data Liveness : Type 0 where
  running : Liveness
  ended : ℕ → Liveness

exit_status : Liveness → Option ℕ
exit_status running = none
exit_status (ended status) = some status

-- `Arc::get_mut` gives the child only while its handle is the only one.
unfoldable pub exited : List ℕ → (ℕ → Liveness) → LoadedChild → Option ℕ
unfolding exit_status
exited handles check held =
    if strong_count handles held.child == 1 then exit_status (check held.child) else none

pub record Found : Type 0 where
  pub slot : Slot
  pub handed : Option ℕ

-- The slot afterwards, and the handle that is handed out.
unfoldable pub live_child : List ℕ → (ℕ → Liveness) → ℕ → Slot → Found
live_child handles check now none = record { slot = none; handed = none }
live_child handles check now (some held) = elim (exited handles check held) [
  | some status ↦ record { slot = none; handed = none }
  | none ↦ record { slot = some (record held { last_used = now }); handed = some held.child }
]

-- The slot afterwards, and what was taken out of it with its status.
unfoldable pub take_if_exited : List ℕ → (ℕ → Liveness) → Slot → Slot × Option (LoadedChild × ℕ)
take_if_exited handles check none = (none, none)
take_if_exited handles check (some held) = elim (exited handles check held) [
  | none ↦ (some held, none)
  | some status ↦ (none, some (held, status))
]

pub data Take : Type 0 where
  taken : LoadedChild → Take
  busy_child : Take
  empty : Take

unfoldable pub take_if_idle : List ℕ → (LoadedChild → Bool) → Slot → Slot × Take
take_if_idle handles also none = (none, empty)
take_if_idle handles also (some held) =
    if busy handles held.child || not (also held)
    then (some held, busy_child)
    else (none, taken held)

-- `Slots::touch`, on the slot of its entry
unfoldable pub touched : ℕ → Slot → Slot
touched now none = none
touched now (some held) = some (record held { last_used = now })
