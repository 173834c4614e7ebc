-- ===== src/Launch/Invocation/Tests.antt =====
-- An entry with a flag that names a host of its own.
use maestro_llamacpp.Common.{none, some, [], ◌∷◌, ◌≡◌}
use maestro_llamacpp.Common.Text.{Text, codes, show}
use maestro_llamacpp.Catalog.{Entry, on_demand}
use maestro_llamacpp.Catalog.Location.{RelativePath}
use maestro_llamacpp.Launch.Invocation.{host, command_of}
use maestro_llamacpp.Launch.Invocation.Binding.{last_value, command_of-last_value}

abbrev exposed : Entry
exposed = record {
  id = codes "m";
  path = record { text = codes "m.gguf" };
  draft_path = none;
  projector_path = none;
  context_size = 4096;
  residency = on_demand;
  memory_estimate_mib = 1000;
  reasoning_format = none;
  reasoning_effort = none;
  startup_timeout_seconds = 60;
  runtime = none;
  flags = (codes "host", codes "0.0.0.0") ∷ [];
}

abbrev as_is : RelativePath → Text
as_is path = path.text

command_of-last_value_example :
    (last_value (codes "--host") (command_of as_is exposed 8081) ≡ some host)
    × (last_value (codes "--port") (command_of as_is exposed 8081) ≡ some (show 8081))
command_of-last_value_example = command_of-last_value as_is exposed 8081
