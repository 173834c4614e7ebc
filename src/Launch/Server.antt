-- ===== src/Launch/Server.antt =====
-- src/launch/server.rs: finding the server binary, and taking one entry as far as a ready child.
pub mod Starting
pub mod Explaining
mod Tests
use maestro_llamacpp.Common.{
  ℕ, ◌*◌, Bool, true, false, not, ◌||◌, Option, none, some, List, [], ◌∷◌, ◌++◌, ◌==◌, leb,
  if◌then◌else◌,
}
use maestro_llamacpp.Common.Text.{Text, codes, show}
use maestro_llamacpp.Catalog.{Entry}
use maestro_llamacpp.Launch.{Failure, not_ready, unavailable}

-- `Result` of a call to the system, whose error is words.
pub data Asked (A : Type 0) : Type 0 where
  given : A → Asked A
  error : Text → Asked A

-- `Result` with a `Failure`.
pub data Had (A : Type 0) : Type 0 where
  had : A → Had A
  lacking : Failure → Had A

abbrev pub binary_name : Text
binary_name = codes "llama-server"

unfoldable pub runtime_named : Text → Text
runtime_named runtime = binary_name ++ codes "-" ++ runtime

-- What the system says at one spawn: whether a file is there, which port is free, where the
-- search path has a name, and what becomes of the command; a process is its number.
pub record World : Type 0 where
  pub is_file : Text → Bool
  pub on_search_path : Text → Option Text
  pub free_port : Asked ℕ
  pub command : Text → Entry → ℕ → Asked ℕ

module _ (world : World) where
  -- `Server::located`; a server is its binary.
  unfoldable pub located : Option Text → Had Text
  located (some path) =
      if world.is_file path
      then had path
      else lacking
          (unavailable (codes "the configured server binary is not there: '" ++ path ++ codes "'"))
  located none = elim (world.on_search_path binary_name) [
    | some binary ↦ had binary
    | none ↦ lacking (
        unavailable (
          codes "no server binary was configured, and no '"
          ++ binary_name
          ++ codes "' was found on the search path"))
  ]

  -- `Server::model_file`, by the path that the entry's location resolves to.
  unfoldable pub model_file : Entry → Text → Had Text
  model_file e path =
      if world.is_file path
      then had path
      else lacking (
          unavailable
            (codes "entry '" ++ e.id ++ codes "': no model file at '" ++ path ++ codes "'"))

  unfoldable pub binary_for : Text → Entry → Had Text
  binary_for binary e = elim e.runtime [
    | none ↦ had binary
    | some runtime ↦ elim (world.on_search_path (runtime_named runtime)) [
      | some found ↦ had found
      | none ↦ lacking (
          unavailable (
            codes "entry '"
            ++ e.id
            ++ codes "' needs the '"
            ++ runtime
            ++ codes "' runtime, and nothing named '"
            ++ runtime_named runtime
            ++ codes "' is on the search path"))
    ]
  ]

  abbrev pub no_port : Entry → Text → Failure
  no_port e words =
      unavailable (codes "entry '" ++ e.id ++ codes "': no loopback port was free: " ++ words)

  abbrev pub no_process : Text → Entry → Text → Failure
  no_process binary e words = unavailable (
      codes "entry '"
      ++ e.id
      ++ codes "': the server binary '"
      ++ binary
      ++ codes "' would not start: "
      ++ words)

  abbrev pub spawned_by : Text → Entry → ℕ → Had Text → Had ℕ
  spawned_by binary e port (lacking failure) = lacking failure
  spawned_by binary e port (had found) = elim (world.command found e port) [
    | given process ↦ had process
    | error words ↦ lacking (no_process binary e words)
  ]

  abbrev pub spawned_at : Text → Entry → Asked ℕ → Had ℕ
  spawned_at binary e (error words) = lacking (no_port e words)
  spawned_at binary e (given port) = spawned_by binary e port (binary_for binary e)

  unfoldable pub spawn : Text → Entry → Text → Had ℕ
  spawn binary e path = elim (model_file e path) [
    | lacking failure ↦ lacking failure
    | had found ↦ spawned_at binary e world.free_port
  ]

-- The time between two polls, in milliseconds.
abbrev pub poll_interval : ℕ
poll_interval = 100

-- One turn of the loop: the status that the process has ended with, if it has, what its health
-- endpoint answers, and the time since the start, in milliseconds.
pub record Poll : Type 0 where
  pub exited : Option Text
  pub health : Option ℕ
  pub elapsed : ℕ

-- How an attempt_once ends. A child that is overdue is stopped before that is reported; one that has
-- exited was perhaps never reached, which the Boolean says.
pub data Tried : Type 0 where
  ready : ℕ → Tried
  unspawned : Failure → Tried
  exited_loading : Failure → Bool → Tried
  overdue : Failure → Tried

abbrev pub budget_ms : Entry → ℕ
budget_ms e = 1000 * e.startup_timeout_seconds

abbrev pub exit_failure : Entry → Text → Failure
exit_failure e status =
    unavailable (
      codes "entry '"
      ++ e.id
      ++ codes "': the server exited while loading ("
      ++ status
      ++ codes ")")

abbrev pub overdue_failure : Entry → Failure
overdue_failure e = not_ready (
    codes "entry '"
    ++ e.id
    ++ codes "': not ready within its startup budget of "
    ++ show e.startup_timeout_seconds
    ++ codes " seconds")

abbrev pub is_ok : Option ℕ → Bool
is_ok none = false
is_ok (some status) = status == 200

abbrev pub has_answered : Option ℕ → Bool
has_answered none = false
has_answered (some status) = true

-- The loop; none means that the polls ran out.
unfoldable pub poll_until : Entry → ℕ → Bool → List Poll → Option Tried
poll_until e process ever_connected [] = none
poll_until e process ever_connected (poll ∷ polls) =
    let rest = poll_until e process (ever_connected || has_answered poll.health) polls in
    elim poll.exited [
      | some status ↦ some (exited_loading (exit_failure e status) (not ever_connected))
      | none ↦
          if is_ok poll.health
          then some (ready process)
          else if leb (budget_ms e) poll.elapsed
          then some (overdue (overdue_failure e))
          else rest
    ]

-- One spawn and its polls.
pub record Run : Type 0 where
  pub world : World
  pub polls : List Poll

unfoldable pub attempt_once : Text → Entry → Text → Run → Option Tried
attempt_once binary e path run = elim (spawn run.world binary e path) [
  | lacking failure ↦ some (unspawned failure)
  | had process ↦ poll_until e process false run.polls
]

abbrev pub as_had : Tried → Had ℕ
as_had (ready process) = had process
as_had (unspawned failure) = lacking failure
as_had (exited_loading failure lost) = lacking failure
as_had (overdue failure) = lacking failure

abbrev pub finished : Option Tried → Option (Had ℕ)
finished none = none
finished (some tried) = some (as_had tried)

-- Only a child that exited before a probe ever reached it is tried once more.
abbrev pub retried : Option Tried → Option Tried → Option (Had ℕ)
retried (some (exited_loading failure true)) second = finished second
retried first second = finished first

-- `Server::start`
unfoldable pub start : Text → Entry → Text → Run → Run → Option (Had ℕ)
start binary e path first second =
    retried (attempt_once binary e path first) (attempt_once binary e path second)
