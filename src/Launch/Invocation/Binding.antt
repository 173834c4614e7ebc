-- ===== src/Launch/Invocation/Binding.antt =====
-- Where a child listens, whatever the flags of its entry say.
use maestro_llamacpp.Common.{ℕ, Option, none, some, List, [], ◌∷◌, ◌++◌, ◌≡◌, refl, if◌then◌else◌}
use maestro_llamacpp.Common.Text.{Text, codes, text_eq, show}
use maestro_llamacpp.Catalog.{Entry}
use maestro_llamacpp.Catalog.Location.{RelativePath}
use maestro_llamacpp.Launch.Invocation.{host, command_of, leading, trailing}

abbrev or_here : Option Text → Text → Text → Text → Option Text
or_here (some v) x flag y = some v
or_here none x flag y = if text_eq x flag then some y else none

-- The argument after the last one that is the flag.
unfoldable pub last_value : Text → List Text → Option Text
last_value flag [] = none
last_value flag (x ∷ []) = none
last_value flag (x ∷ y ∷ xs) = or_here (last_value flag (y ∷ xs)) x flag y

last_value-append :
    (flag v : Text) (xs ys : List Text)
    → last_value flag ys ≡ some v
    → last_value flag (xs ++ ys) ≡ some v
unfolding last_value
last_value-append flag v [] ys h = h
last_value-append flag v (x ∷ []) [] h = absurd (cc)
last_value-append flag v (x ∷ []) (y ∷ ys) h = rw h refl
last_value-append flag v (x ∷ x1 ∷ xs) ys h = rw (last_value-append flag v (x1 ∷ xs) ys h) refl

-- The last host and the last port of a command line are the loopback address and the port that
-- was chosen, whatever the entry's flags are.
pub command_of-last_value :
    (resolve : RelativePath → Text) (e : Entry) (port : ℕ)
    → (last_value (codes "--host") (command_of resolve e port) ≡ some host)
      × (last_value (codes "--port") (command_of resolve e port) ≡ some (show port))
unfolding command_of trailing last_value codes text_eq
command_of-last_value resolve e port = (
  last_value-append _ _ (leading resolve e) _ refl,
  last_value-append _ _ (leading resolve e) _ refl,
)
