-- ===== src/Launch/Invocation.antt =====
-- src/launch/invocation.rs: the command line that one catalog entry becomes.
pub mod Binding
mod Tests
use maestro_llamacpp.Common.{ℕ, Option, none, some, List, [], ◌∷◌, ◌++◌, if◌then◌else◌}
use maestro_llamacpp.Common.Text.{Text, codes, text_eq, trim, lowercase, show}
use maestro_llamacpp.Catalog.{Entry, Flags}
use maestro_llamacpp.Catalog.Location.{RelativePath}

abbrev pub host : Text
host = codes "127.0.0.1"

unfoldable pub long_form : Text → Text
long_form key =
    codes "--"
    ++ (if text_eq key (codes "c")
        then codes "ctx-size"
        else if text_eq key (codes "ctk")
        then codes "cache-type-k"
        else if text_eq key (codes "ctv")
        then codes "cache-type-v"
        else if text_eq key (codes "fa")
        then codes "flash-attn"
        else if text_eq key (codes "np")
        then codes "parallel"
        else key)

unfoldable pub option : Text → Text → List Text
option key value =
    let said = lowercase (trim value) in
    if text_eq said (codes "true")
    then long_form key ∷ []
    else if text_eq said (codes "false")
    then (codes "--no-" ++ key) ∷ []
    else long_form key ∷ value ∷ []

unfoldable pub options : Flags → List Text
options [] = []
options ((key, value) ∷ flags) = option key value ++ options flags

unfoldable pub pair_if : Text → Option Text → List Text
pair_if flag none = []
pair_if flag (some value) = flag ∷ value ∷ []

-- The standard library's `Path::join` of the models root and a location.
module _ (resolve : RelativePath → Text) where
  unfoldable pub resolved : Option RelativePath → Option Text
  resolved none = none
  resolved (some path) = some (resolve path)

  unfoldable pub leading : Entry → List Text
  leading e =
      (codes "--model" ∷ resolve e.path ∷ [])
      ++ (pair_if (codes "--model-draft") (resolved e.draft_path)
          ++ (pair_if (codes "--mmproj") (resolved e.projector_path)
              ++ ((codes "--ctx-size" ∷ show e.context_size ∷ [])
                  ++ (pair_if (codes "--reasoning-format") e.reasoning_format
                      ++ (pair_if (codes "--reasoning-effort") e.reasoning_effort
                          ++ options e.flags)))))

  unfoldable pub trailing : Entry → ℕ → List Text
  trailing e port = codes "--alias" ∷ e.id ∷ codes "--host" ∷ host ∷ codes "--port" ∷ show port ∷ []

  unfoldable pub command_of : Entry → ℕ → List Text
  command_of e port = leading e ++ trailing e port
