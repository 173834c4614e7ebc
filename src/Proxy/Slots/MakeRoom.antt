-- ===== src/Proxy/Slots/MakeRoom.antt =====
-- src/proxy/slots/room.rs: making room for a model, and waiting when the room is held.
pub mod Answers
pub mod Finding
use maestro_llamacpp.Common.{
  ℕ, ◌+◌, ◌/◌, Bool, true, false, Option, none, some, List, [], ◌∷◌, ◌++◌, leb, ◌==◌, if◌then◌else◌,
}
use maestro_llamacpp.Common.Text.{Text, codes, show}
use maestro_llamacpp.Catalog.{Entry}
use maestro_llamacpp.Queue.{Wait}
pub use maestro_llamacpp.Launch.{Failure, not_ready, unavailable, refused, contended}
use maestro_llamacpp.Admission.Subject.{Loaded, wanted_of}
use maestro_llamacpp.Admission.Admit.{Decision, fits, unload, blocked, refuse, admit}

-- How often the wait asks again, in milliseconds.
abbrev pub sweep : ℕ
sweep = 250

-- One pass of the loop, as the machine and the other threads let it find things: what the device
-- has free, the snapshot of the slots, the entry that stopped the unloading, if one did, and the
-- time at the end of the pass.
pub record Pass : Type 0 where
  pub device_free : Option ℕ
  pub seen : List Loaded
  pub blocker : Option Text
  pub now : ℕ

pub data Outcome : Type 0 where
  made : Outcome
  failed : Failure → Outcome

unfoldable pub contended_message : Entry → Text → ℕ → Text
contended_message e held waited =
    if waited == 0
    then held
      ++ codes
          "; this may succeed on a retry, or set MAESTRO_ADMISSION_WAIT_SECONDS to wait for the room"
    else held
      ++ codes "; '"
      ++ e.id
      ++ codes "' waited "
      ++ show (waited / 1000)
      ++ codes "s and the room did not free up"

unfoldable pub reached_first : Entry → Text → Text
reached_first e blocker =
    codes "'"
    ++ e.id
    ++ codes "' needs room held by '"
    ++ blocker
    ++ codes "', which a request reached first"

-- What a pass comes to: the end of the loop, or the words for what holds the room.
pub data Attempt : Type 0 where
  done : Outcome → Attempt
  held_by : Text → Attempt

unfoldable pub attempt : Option ℕ → Entry → Pass → Attempt
unfolding reached_first
attempt limit e pass = elim (admit limit pass.seen (wanted_of e) pass.device_free) [
  | fits ↦ done made
  | unload ids ↦ elim pass.blocker [
    | none ↦ done made
    | some blocker ↦ held_by (reached_first e blocker)
  ]
  | blocked message ↦ held_by message
  | refuse message ↦ done (failed (refused message))
]

-- The loop over the passes that the schedule offers; none means that they ran out.
unfoldable pub make_room_from : Option ℕ → Wait → Entry → ℕ → List Pass → Option Outcome
unfolding contended_message
make_room_from limit wait e deadline [] = none
make_room_from limit wait e deadline (pass ∷ passes) =
    let rest = make_room_from limit wait e deadline passes in
    elim (attempt limit e pass) [
      | done room ↦ some room
      | held_by held ↦
          if leb deadline pass.now
          then some (failed (contended (contended_message e held wait.duration)))
          else rest
    ]

unfoldable pub make_room : Option ℕ → Wait → Entry → ℕ → List Pass → Option Outcome
make_room limit wait e start passes = make_room_from limit wait e (start + wait.duration) passes
