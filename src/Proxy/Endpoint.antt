-- ===== src/Proxy/Endpoint.antt =====
-- src/proxy/endpoint.rs: which endpoint a path addressed.
pub mod Routing
use maestro_llamacpp.Common.{
  ℕ, Bool, true, false, not, ◌&&◌, Option, none, some, List, [], ◌∷◌, ◌++◌, ◌==◌, any,
  if◌then◌else◌,
}
use maestro_llamacpp.Common.Text.{
  Text, codes, text_eq, trim_end_by, strip_prefix, split_once, split_by, starts_with, join,
}
use maestro_llamacpp.Proxy.Refusal.{Refusal, path_not_found, refusal_of}

pub data Answer {ℓ} (A : Type ℓ) : Type ℓ where
  answered : A → Answer A
  refusing : Refusal → Answer A

abbrev pub dedicated_prefix : Text
dedicated_prefix = codes "/models/"

abbrev pub generic_prefix : Text
generic_prefix = codes "/v1/"

abbrev pub listing_path : Text
listing_path = codes "/v1/models"

abbrev pub catalogue_path : Text
catalogue_path = codes "/models"

abbrev pub properties_path : Text
properties_path = codes "/props"

pub data Endpoint : Type 0 where
  dedicated : Text → Text → Endpoint
  generic : Text → Endpoint
  listing catalogue properties : Endpoint

malformed : Text → Answer Endpoint
malformed reason = refusing (refusal_of path_not_found reason)

abbrev pub is_slash : ℕ → Bool
is_slash c = c == b'/'

unfoldable pub without_slashes : Text → Text
without_slashes = trim_end_by is_slash

-- The first part of a split at question marks.
unfoldable pub without_query : Text → Text
without_query path = elim (split_by (λ c. c == b'?') path) [ [] ↦ path | part ∷ parts ↦ part ]

abbrev pub is_empty : Text → Bool
is_empty [] = true
is_empty (c ∷ s) = false

unfoldable pub nothing_after : Text → Answer Endpoint
unfolding malformed
nothing_after path = malformed (
    codes "'"
    ++ path
    ++ codes "' names a model with nothing after it: the shape is /models/<model>/<path>")

-- What follows the prefix of the dedicated endpoints.
unfoldable pub dedicated_of : Text → Text → Answer Endpoint
unfolding nothing_after
dedicated_of path rest = elim (split_once b'/' rest) [
  | none ↦ nothing_after path
  | some (id, suffix) ↦
      if not (is_empty id) && not (is_empty suffix)
      then answered (dedicated id (b'/' ∷ suffix))
      else nothing_after path
]

unfoldable pub undedicated_of : Text → Answer Endpoint
unfolding malformed
undedicated_of path =
    if text_eq (without_slashes (without_query path)) listing_path
    then answered listing
    else if starts_with path generic_prefix
    then answered (generic path)
    else malformed (
        codes "'"
        ++ path
        ++ codes
            "' is not a path this router serves: the shapes are /models/<model>/<path> and /v1/<path>")

-- `Endpoint::of`
unfoldable pub endpoint_of : Text → Answer Endpoint
endpoint_of path =
    if text_eq (without_slashes path) catalogue_path
    then answered catalogue
    else if text_eq (without_slashes path) properties_path
    then answered properties
    else elim (strip_prefix path dedicated_prefix) [
      | some rest ↦ dedicated_of path rest
      | none ↦ undedicated_of path
    ]

-- The methods that an endpoint answers: the words between ", " in its `Allow` header.
unfoldable pub methods : Endpoint → List Text
methods listing = codes "GET" ∷ codes "HEAD" ∷ codes "OPTIONS" ∷ []
methods catalogue = codes "GET" ∷ codes "HEAD" ∷ codes "OPTIONS" ∷ []
methods properties = codes "GET" ∷ codes "HEAD" ∷ codes "OPTIONS" ∷ []
methods (dedicated id suffix) = codes "GET" ∷ codes "POST" ∷ codes "OPTIONS" ∷ []
methods (generic suffix) = codes "GET" ∷ codes "POST" ∷ codes "OPTIONS" ∷ []

unfoldable pub allowed : Endpoint → Text
allowed endpoint = join (codes ", ") (methods endpoint)

unfoldable pub allows : Endpoint → Text → Bool
allows endpoint method = any (λ a. text_eq a method) (methods endpoint)

unfoldable pub suffix_of : Endpoint → Text
suffix_of (dedicated id suffix) = suffix
suffix_of (generic suffix) = suffix
suffix_of listing = listing_path
suffix_of catalogue = catalogue_path
suffix_of properties = properties_path
