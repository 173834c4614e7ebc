-- ===== src/Catalog/Estimate/Gemma.antt =====
-- src/catalog/estimate/cache.rs: the pattern of layers that is assumed of an architecture.

use maestro_llamacpp.Common.{
  ℕ, zero, suc, ◌+◌, ◌-◌, ◌*◌, ◌/◌, ◌≢◌, ◌%◌, ◌^◌, ◌≤◌, none, some, map, length, ◌==◌, ◌≡◌, refl,
  ◌∙◌, arith, or_option, Bool-cases, inl, inr, ap, ==_iff,
}
use maestro_llamacpp.Common.Text.{codes}
use maestro_llamacpp.Common.Text.Equality.{text_eq_refl}
use maestro_llamacpp.Gguf.{Metadata, of_model, per_layer}
use maestro_llamacpp.Catalog.Estimate.Cache.{
  Shape, cache_bytes, caching_layers, shape_of, window_of, key_length_of, assumed_pattern,
  slides_at, range_from, interval_of, one_in_each,
}
use maestro_llamacpp.Catalog.Estimate.Windows.{
  whole_layers, sliding_layers, layers_add_up, exact_cost, IsModest, cache_bytes-windowed,
}

whole_of_six :
    (start count : ℕ)
    → whole_layers (map (slides_at 6) (range_from start count)) + start / 6 ≡ (start + count) / 6
unfolding slides_at range_from
whole_of_six start zero = omega arith
whole_of_six start (suc count) = elim (Bool-cases (start % 6 == 5)) [
  | inl e ↦
      rw (e, whole_layers)
        (omega (arith, (==_iff (start % 6) 5).0 e, whole_of_six (suc start) count))
  | inr e ↦
      let apart : start % 6 ≢ 5 = ground arith in
      rw (e, whole_layers) (omega (arith, apart, whole_of_six (suc start) count))
]

length-range_from : (f : ℕ → ℕ) (start count : ℕ) → length (map f (range_from start count)) ≡ count
unfolding range_from
length-range_from f start zero = refl
length-range_from f start (suc count) = ap suc (length-range_from f (suc start) count)

gemma3_pattern :
    (m : Metadata) (layers : ℕ)
    → m.architecture ≡ some (codes "gemma3")
    → of_model m (codes "block_count") ≡ some layers
    → assumed_pattern m ≡ some (map (slides_at 6) (range_from 0 layers))
unfolding assumed_pattern interval_of
gemma3_pattern m layers e1 e2 = rw e2 (rw e1 (rw (text_eq_refl (codes "gemma3")) refl))

gemma3_layers :
    (m : Metadata) (layers : ℕ)
    → of_model m (codes "block_count") ≡ some layers
    → (n : ℕ) × (caching_layers m ≡ some n)
unfolding caching_layers
gemma3_layers m layers e =
    (one_in_each layers (of_model m (codes "full_attention_interval")), rw e refl)

-- A Gemma 3 file that does not say which layers slide, and whose layers all have the same number
-- of key and value heads: one layer in six is taken to attend to the whole context, and the others
-- to the window, and the estimate is the exact cost of both, rounded down from sixteenths of a
-- byte. The file states its layers, which are at most 2^20, its window, its heads and what the length of a
-- key is found from; the tokens, the heads and the lengths times the size of an element are each
-- below 2^32.
pub cache_bytes-gemma3 :
    (m : Metadata) (context keys values layers kv_heads key_length window : ℕ) (s : Shape)
    → s ≡ shape_of m context keys values kv_heads key_length window
    → m.architecture ≡ some (codes "gemma3")
    → per_layer m (codes "attention.sliding_window_pattern") ≡ none
    → of_model m (codes "block_count") ≡ some layers
    → of_model m (codes "attention.sliding_window") ≡ some window
    → or_option
        (of_model m (codes "attention.head_count_kv"))
        (of_model m (codes "attention.head_count"))
      ≡ some kv_heads
    → key_length_of m (of_model m (codes "attention.head_count")) ≡ some key_length
    → s.by_layer ≡ none
    → IsModest s s.whole
    → IsModest s s.windowed
    → layers ≤ 2 ^ 20
    → cache_bytes m context keys values
      ≡ some (
          (layers / 6 * exact_cost s s.whole + (layers - layers / 6) * exact_cost s s.windowed)
          / 16)
unfolding window_of
cache_bytes-gemma3 m context keys values layers kv_heads key_length window s e0 named silent e1 e2
      e3 e4 uniform whole windowed few =
    let pattern = map (slides_at 6) (range_from 0 layers) in
    let long = length-range_from (slides_at 6) 0 layers in
    let wholes : whole_layers pattern ≡ layers / 6 = omega (arith, whole_of_six 0 layers) in
    let sliding : sliding_layers pattern ≡ layers - layers / 6 =
      omega (arith, layers_add_up pattern) in
    let (n, counted) = gemma3_layers m layers e1 in
    let found : window_of m ≡ some (pattern, window) =
      rw (silent, gemma3_pattern m layers named e1, e2) refl in
    cache_bytes-windowed m context keys values n kv_heads key_length window pattern s e0 counted e3
      e4 found uniform whole windowed (omega (arith, long, few))
    ∙ ap (λ cost. some (cost / 16)) (rw (wholes, sliding) refl)
