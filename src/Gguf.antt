-- ===== src/Gguf.antt =====
-- src/gguf.rs: what a model file says about itself.
pub mod Reader
pub mod Writing
pub mod Reads
pub mod Arrays
pub mod RoundTrip
pub mod Tests
use maestro_llamacpp.Common.{
  ℕ, zero, suc, ◌+◌, ◌*◌, ◌^◌, Bool, true, false, not, ◌&&◌, ◌||◌, Option, none, some, List, [],
  ◌∷◌, ◌++◌, ltb, leb, ◌==◌, max, if◌then◌else◌,
}
use maestro_llamacpp.Common.Text.{Text, codes, text_eq, starts_with, ends_with, show}
use maestro_llamacpp.Common.Word.{u64_mod}
use maestro_llamacpp.Common.Maps.{get, insert}
use Reader.{
  Files, Reading, ok, fault, ◌>>=◌, ◌>>◌, bind_outcome, return, fail, read_exact, u32_at, u64_at,
  width, scalar_at, text_at, skip,
}

abbrev pub max_pairs : ℕ
max_pairs = 2 ^ 16

abbrev pub max_key_bytes : ℕ
max_key_bytes = 1024

abbrev pub max_kept_text_bytes : ℕ
max_kept_text_bytes = 256

abbrev pub max_layer_array : ℕ
max_layer_array = 2 ^ 20

abbrev pub string_kind : ℕ
string_kind = 8

abbrev pub array_kind : ℕ
array_kind = 9

pub record Metadata : Type 0 where
  pub architecture : Option Text
  pub numbers : List (Text × ℕ)
  pub layers : List (Text × List ℕ)

abbrev pub no_metadata : Metadata
no_metadata = record { architecture = none; numbers = []; layers = [] }

unfoldable pub number : Metadata → Text → Option ℕ
number m key = get key m.numbers

-- A key of the model's own architecture.
unfoldable pub own_key : Text → Text → Text
own_key architecture suffix = architecture ++ codes "." ++ suffix

unfoldable pub of_model : Metadata → Text → Option ℕ
unfolding own_key
of_model m suffix = elim m.architecture [
  | none ↦ none
  | some architecture ↦ number m (own_key architecture suffix)
]

unfoldable pub per_layer : Metadata → Text → Option (List ℕ)
unfolding own_key
per_layer m suffix = elim m.architecture [
  | none ↦ none
  | some architecture ↦ get (own_key architecture suffix) m.layers
]

unfoldable pub split_count : Metadata → Option ℕ
split_count m = number m (codes "split.count")

unfoldable pub is_per_layer : Text → Bool
is_per_layer key =
    ends_with key (codes ".attention.head_count_kv")
    || ends_with key (codes ".attention.head_count")
    || ends_with key (codes ".attention.sliding_window_pattern")

-- `Option::max`, where none is the least.
abbrev pub max_option : Option ℕ → Option ℕ → Option ℕ
max_option none b = b
max_option (some a) none = some a
max_option (some a) (some b) = some (max a b)

abbrev pub push_some : List ℕ → Option ℕ → List ℕ
push_some elements none = elements
push_some elements (some element) = elements ++ element ∷ []

-- What the elements of an array come to: the largest, if there is one, and the array itself,
-- unless it is empty.
unfoldable pub with_largest : Text → Option ℕ → Metadata → Metadata
with_largest key none m = m
with_largest key (some largest) m = record m { numbers = insert key largest m.numbers }

unfoldable pub with_elements : Text → List ℕ → Metadata → Metadata
with_elements key [] m = m
with_elements key (e ∷ es) m = record m { layers = insert key (e ∷ es) m.layers }

unfoldable pub with_number : Text → Option ℕ → Metadata → Metadata
with_number key none m = m
with_number key (some n) m =
    if starts_with key (codes "tokenizer.")
    then m
    else record m { numbers = insert key n m.numbers }

unfoldable pub with_text : Text → Option Text → Metadata → Metadata
with_text key kept m =
    if text_eq key (codes "general.architecture") then record m { architecture = kept } else m

claims_layers : Text → ℕ → Text
claims_layers key count = codes "'" ++ key ++ codes "' claims " ++ show count ++ codes " layers"

unfoldable pub key_of : Option Text → Reading Text
key_of none = fail (codes "a key longer than any the format uses")
key_of (some key) = return key

-- Stepping past the end of the file is found at the end.
unfoldable pub ended : Metadata → Reading Metadata
ended m r = if ltb 0 r.past then fault (codes "ends before its metadata does") else ok m r

abbrev pub magic : List ℕ
magic = codes "GGUF"

module _ (files : Files) where
  -- The loop over the elements of a per-layer array.
  unfoldable pub elements_at : ℕ → ℕ → Option ℕ → List ℕ → Reading (Option ℕ × List ℕ)
  elements_at kind zero largest elements = return (largest, elements)
  elements_at kind (suc count) largest elements = do
    element ← scalar_at files kind
    elements_at kind count (max_option largest element) (push_some elements element)

  -- The loop over an array of texts.
  unfoldable pub texts_at : ℕ → Reading (Unit {0})
  texts_at zero = return tt
  texts_at (suc count) = do kept ← text_at files 0; texts_at count

  unfoldable pub layers_at : Text → ℕ → ℕ → Metadata → Reading Metadata
  unfolding claims_layers
  layers_at key kind count m =
      if ltb max_layer_array count
      then fail (claims_layers key count)
      else (elements_at kind count none [] >>= λ found.
          return (with_elements key found.1 (with_largest key found.0 m)))

  -- `checked_mul`
  skip_all : Text → ℕ → ℕ → Reading (Unit {0})
  skip_all key count each =
      if ltb (count * each) u64_mod
      then skip files (count * each)
      else fail (codes "'" ++ key ++ codes "' claims an impossible length")

  unfoldable pub array_of : Text → ℕ → ℕ → Metadata → Reading Metadata
  unfolding skip_all
  array_of key kind count m =
      if is_per_layer key && not (kind == string_kind) && not (kind == array_kind)
      then layers_at key kind count m
      else if kind == string_kind
      then (texts_at count >>= λ _. return m)
      else if kind == array_kind
      then fail (codes "'" ++ key ++ codes "' nests arrays")
      else (width kind >>= λ each. skip_all key count each >>= λ _. return m)

  unfoldable pub array : Text → Metadata → Reading Metadata
  array key m = do kind ← u32_at files; count ← u64_at files; array_of key kind count m

  unfoldable pub value : Text → ℕ → Metadata → Reading Metadata
  value key kind m =
      if kind == string_kind
      then (text_at files max_kept_text_bytes >>= λ kept. return (with_text key kept m))
      else if kind == array_kind
      then array key m
      else (scalar_at files kind >>= λ n. return (with_number key n m))

  unfoldable pub pair : Metadata → Reading Metadata
  pair m = do
    kept ← text_at files max_key_bytes
    key ← key_of kept
    kind ← u32_at files
    value key kind m

  -- The loop over the pairs.
  unfoldable pub pairs_at : ℕ → Metadata → Reading Metadata
  pairs_at zero m = return m
  pairs_at (suc count) m = do m1 ← pair m; pairs_at count m1

  unfoldable pub counted : ℕ → Reading Metadata
  counted pairs =
      if ltb max_pairs pairs
      then fail (codes "claims " ++ show pairs ++ codes " metadata pairs")
      else (pairs_at pairs no_metadata >>= ended)

  unfoldable pub versioned : ℕ → Reading Metadata
  versioned version =
      if leb 2 version && leb version 3
      then (u64_at files >>= λ tensors. u64_at files >>= counted)
      else fail (codes "GGUF version " ++ show version ++ codes " is not one this reads")

  unfoldable pub begun : List ℕ → Reading Metadata
  begun bytes =
      if text_eq bytes magic
      then (u32_at files >>= versioned)
      else fail (codes "does not begin with the GGUF magic")

  -- `Metadata::fill`, of an empty one
  unfoldable pub fill : Reading Metadata
  fill = read_exact files 4 >>= begun
