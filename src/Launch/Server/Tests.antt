-- ===== src/Launch/Server/Tests.antt =====
-- A first child that exits before it is reached, and a second that is ready on its third poll.
use maestro_llamacpp.Common.{
  ℕ, zero, suc, ◌+◌, true, none, some, List, [], ◌∷◌, ◌≡◌, ◌≢◌, ◌⊎◌, refl, arith,
}
use maestro_llamacpp.Common.Text.{Text, codes}
use maestro_llamacpp.Catalog.{Entry, on_demand}
use maestro_llamacpp.Launch.{Failure}
use maestro_llamacpp.Launch.Server.{
  had, World, given, Poll, Tried, exited_loading, Run, start, attempt_once, poll_until, spawn,
  model_file, binary_for, as_had,
}
use maestro_llamacpp.Launch.Server.Starting.{FillsBudget, start-answers}
use maestro_llamacpp.Launch.Server.Explaining.{Explained, start-Explained}

abbrev a_server : Text
a_server = codes "/usr/bin/llama-server"

abbrev a_model : Text
a_model = codes "/models/m.gguf"

abbrev an_entry : Entry
an_entry = record {
  id = codes "m";
  path = record { text = codes "m.gguf" };
  draft_path = none;
  projector_path = none;
  context_size = 4096;
  residency = on_demand;
  memory_estimate_mib = 3000;
  reasoning_format = none;
  reasoning_effort = none;
  startup_timeout_seconds = 1;
  runtime = none;
  flags = [];
}

abbrev a_world : World
a_world = record {
  is_file = λ path. true;
  on_search_path = λ name. none;
  free_port = given 4711;
  command = λ binary e port. given port;
}

abbrev unreached : ℕ → Poll
unreached t = record { exited = none; health = none; elapsed = t }

abbrev loading : ℕ → ℕ → List Poll
loading t zero = []
loading t (suc n) = unreached t ∷ loading (t + 100) n

-- A child that never answers.
abbrev silent : Run
silent = record { world = a_world; polls = loading 0 11 }

silent-FillsBudget : FillsBudget an_entry silent
silent-FillsBudget = (
  (
    omega arith,
    (
      omega arith,
      (
        omega arith,
        (
          omega arith,
          (
            omega arith,
            (
              omega arith,
              (omega arith, (omega arith, (omega arith, (omega arith, (omega arith, tt))))),
            ),
          ),
        ),
      ),
    ),
  ),
  omega arith,
)

start-answers_example : start a_server an_entry a_model silent silent ≢ none
start-answers_example =
    start-answers a_server an_entry a_model silent silent silent-FillsBudget silent-FillsBudget

abbrev lost_race : Run
lost_race = record {
  world = a_world;
  polls =
      unreached 0
      ∷ record { exited = some (codes "exit status: 1"); health = none; elapsed = 100 }
      ∷ [];
}

abbrev soon_ready : Run
soon_ready = record {
  world = a_world;
  polls =
      unreached 0
      ∷ record { exited = none; health = some 503; elapsed = 100 }
      ∷ record { exited = none; health = some 200; elapsed = 200 }
      ∷ [];
}

starts_again : start a_server an_entry a_model lost_race soon_ready ≡ some (had 4711)
unfolding start attempt_once poll_until spawn model_file binary_for
starts_again = refl

start-Explained_example :
    ((t : Tried) × Explained a_server an_entry a_model lost_race t
      × ((f : Failure) → t ≢ exited_loading f true)
      × (had 4711 ≡ as_had t))
    ⊎ ((f : Failure) × (u : Tried) × Explained a_server an_entry a_model lost_race
          (exited_loading f true)
        × Explained a_server an_entry a_model soon_ready u
        × (had 4711 ≡ as_had u))
start-Explained_example =
    start-Explained a_server an_entry a_model lost_race soon_ready (had 4711) starts_again
