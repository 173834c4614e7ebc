-- ===== src/Catalog/Estimate/Cache.antt =====
-- src/catalog/estimate/cache.rs: what the key-value cache costs at a context.
use maestro_llamacpp.Common.{
  ℕ, zero, suc, ◌-◌, ◌/◌, ◌%◌, Option, none, some, List, [], ◌∷◌, map, ltb, ◌==◌, min,
  if◌then◌else◌, or_option, unwrap_or,
}
use maestro_llamacpp.Common.Options.{◌>>=◌, find_map, get_elem?}
use maestro_llamacpp.Common.Text.{Text, codes, text_eq}
use maestro_llamacpp.Common.Word.{add_u128, mul_u128}
use maestro_llamacpp.Gguf.{Metadata, of_model, per_layer}
use maestro_llamacpp.Catalog.{Flags, get_flag}

-- Bytes per cached element, in sixteenths.
abbrev pub f16 : ℕ
f16 = 32

abbrev pub f32 : ℕ
f32 = 64

abbrev pub q8_0 : ℕ
q8_0 = 17

abbrev pub q4_0 : ℕ
q4_0 = 9

abbrev pub one_in_each : ℕ → Option ℕ → ℕ
one_in_each layers none = layers
one_in_each layers (some interval) = if ltb 1 interval then layers / interval else layers

unfoldable pub caching_layers : Metadata → Option ℕ
caching_layers m = do
  layers ← of_model m (codes "block_count")
  some (one_in_each layers (of_model m (codes "full_attention_interval")))

-- `start..start + count`
unfoldable pub range_from : ℕ → ℕ → List ℕ
range_from start zero = []
range_from start (suc count) = start ∷ range_from (suc start) count

-- The architectures whose interval is known.
unfoldable pub interval_of : Text → Option ℕ
interval_of architecture = if text_eq architecture (codes "gemma3") then some 6 else none

-- One where a layer slides, zero where it attends fully.
unfoldable pub slides_at : ℕ → ℕ → ℕ
slides_at interval layer = if layer % interval == interval - 1 then 0 else 1

unfoldable pub assumed_pattern : Metadata → Option (List ℕ)
assumed_pattern m = do
  architecture ← m.architecture
  interval ← interval_of architecture
  layers ← of_model m (codes "block_count")
  some (map (slides_at interval) (range_from 0 layers))

unfoldable pub sixteenths : Flags → Text → Text → ℕ
sixteenths flags short long =
    let spelling =
      unwrap_or (find_map (λ name. get_flag name flags) (short ∷ long ∷ [])) (codes "f16") in
    if text_eq spelling (codes "f32")
    then f32
    else if text_eq spelling (codes "q8_0")
    then q8_0
    else if text_eq spelling (codes "q4_0")
    then q4_0
    else f16

-- What the metadata and the flags settle before the layers are summed. A `Span` is the tokens
-- that a layer keeps and the lengths of a key and a value there.
pub record Span : Type 0 where
  pub tokens : ℕ
  pub key : ℕ
  pub value : ℕ

pub record Shape : Type 0 where
  pub keys : ℕ
  pub values : ℕ
  pub kv_heads : ℕ
  pub by_layer : Option (List ℕ)
  pub whole : Span
  pub windowed : Span

-- Sixteenths of a byte for a token and a head.
unfoldable pub element_cost : Shape → Span → ℕ
element_cost s span = add_u128 (mul_u128 span.key s.keys) (mul_u128 span.value s.values)

unfoldable pub layer_cost : Shape → Span → ℕ → ℕ
layer_cost s span heads = mul_u128 (mul_u128 span.tokens heads) (element_cost s span)

unfoldable pub heads_at : Shape → ℕ → ℕ
heads_at s layer = unwrap_or (s.by_layer >>= get_elem? layer) s.kv_heads

abbrev pub span_of : Shape → ℕ → Span
span_of s slides = if slides == 0 then s.whole else s.windowed

-- The loop over the layers.
unfoldable pub windowed_total : Shape → ℕ → ℕ → List ℕ → ℕ
windowed_total s layer total [] = total
windowed_total s layer total (slides ∷ pattern) =
    windowed_total s (suc layer)
      (add_u128 total (layer_cost s (span_of s slides) (heads_at s layer))) pattern

-- The single product, where every layer attends to the whole context.
unfoldable pub dense_total : Shape → ℕ → ℕ
dense_total s layers =
    mul_u128 (mul_u128 layers s.whole.tokens) (mul_u128 s.kv_heads (element_cost s s.whole))

-- `checked_div`
unfoldable pub checked_div : ℕ → ℕ → Option ℕ
checked_div a b = if b == 0 then none else some (a / b)

unfoldable pub key_length_of : Metadata → Option ℕ → Option ℕ
key_length_of m heads = elim (of_model m (codes "attention.key_length")) [
  | some length ↦ some length
  | none ↦
      of_model m (codes "embedding_length") >>= λ width. heads >>= λ count. checked_div width count
]

unfoldable pub shape_of : Metadata → ℕ → ℕ → ℕ → ℕ → ℕ → ℕ → Shape
shape_of m context keys values kv_heads key_length window =
    let value_length = unwrap_or (of_model m (codes "attention.value_length")) key_length in
    let swa_keys = unwrap_or (of_model m (codes "attention.key_length_swa")) key_length in
    let swa_values = unwrap_or (of_model m (codes "attention.value_length_swa")) swa_keys in
    record {
      keys = keys;
      values = values;
      kv_heads = kv_heads;
      by_layer = per_layer m (codes "attention.head_count_kv");
      whole = record { tokens = context; key = key_length; value = value_length };
      windowed = record { tokens = min context window; key = swa_keys; value = swa_values };
    }

-- The pattern of the layers and the window of those that slide, if there are both.
unfoldable pub window_of : Metadata → Option (List ℕ × ℕ)
window_of m = do
  pattern ← or_option (per_layer m (codes "attention.sliding_window_pattern")) (assumed_pattern m)
  window ← of_model m (codes "attention.sliding_window")
  some (pattern, window)

-- Sixteenths of a byte, for the layers of a pattern one at a time or for all at once.
unfoldable pub cache_total : Metadata → ℕ → ℕ → ℕ → ℕ → ℕ → ℕ → Option (List ℕ × ℕ) → ℕ
cache_total m context keys values layers kv_heads key_length (some (pattern, window)) =
    windowed_total (shape_of m context keys values kv_heads key_length window) 0 0 pattern
cache_total m context keys values layers kv_heads key_length none =
    dense_total (shape_of m context keys values kv_heads key_length 0) layers

unfoldable pub cache_bytes : Metadata → ℕ → ℕ → ℕ → Option ℕ
cache_bytes m context keys values = do
  layers ← caching_layers m
  kv_heads ←
      or_option (of_model m (codes "attention.head_count_kv"))
        (of_model m (codes "attention.head_count"))
  key_length ← key_length_of m (of_model m (codes "attention.head_count"))
  some (cache_total m context keys values layers kv_heads key_length (window_of m) / 16)
