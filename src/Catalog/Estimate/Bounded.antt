-- ===== src/Catalog/Estimate/Bounded.antt =====
-- src/catalog/estimate.rs, src/catalog/estimate/cache.rs: the sums of an estimate do not wrap.
use maestro_llamacpp.Common.{
  ℕ, suc, ◌+◌, ◌*◌, ◌/◌, ◌^◌, ◌≤◌, ◌<◌, Option, none, some, List, [], ◌∷◌, ◌≡◌, refl, ◌⊎◌, inl, inr,
  arith, Bool-cases, or_option, ltb,
}
use maestro_llamacpp.Common.Options.{bind-All}
use maestro_llamacpp.Common.Word.{
  u64_mod, u128_mod, u32_max, add_u128, mul_u128, add_u128_exact, mul_u128_exact, clamp_u32,
}
use maestro_llamacpp.Common.Text.{codes}
use maestro_llamacpp.Gguf.{Metadata, of_model}
use maestro_llamacpp.Catalog.Estimate.{mib, overhead_bytes, sum_by_metadata, sum_by_size, mib_of}
use maestro_llamacpp.Catalog.Estimate.Cache.{
  Shape, caching_layers, key_length_of, cache_bytes, cache_total, windowed_total, dense_total,
  window_of, shape_of,
}

add_u128-bounded : (a b : ℕ) → add_u128 a b < u128_mod
unfolding add_u128
add_u128-bounded a b = omega arith

windowed_total-bounded :
    (s : Shape) (layer total : ℕ) (pattern : List ℕ)
    → total < u128_mod
    → windowed_total s layer total pattern < u128_mod
unfolding windowed_total
windowed_total-bounded s layer total [] h = h
windowed_total-bounded s layer total (slides ∷ pattern) h =
    windowed_total-bounded s (suc layer) _ pattern (add_u128-bounded total _)

cache_total-bounded :
    (m : Metadata) (context keys values layers kv_heads key_length : ℕ)
    (windows : Option (List ℕ × ℕ))
    → cache_total m context keys values layers kv_heads key_length windows < u128_mod
unfolding cache_total dense_total mul_u128
cache_total-bounded m context keys values layers kv_heads key_length (some (pattern, window)) =
    windowed_total-bounded (shape_of m context keys values kv_heads key_length window) 0 0 pattern
      (omega arith)
cache_total-bounded m context keys values layers kv_heads key_length none = omega arith

-- A number of bytes counted in sixteenths.
abbrev pub Small : ℕ → Type 0
Small bytes = bytes < 2 ^ 124

sixteenth : (total bytes : ℕ) → total < u128_mod → some (total / 16) ≡ some bytes → Small bytes
sixteenth total bytes few h = let same : total / 16 ≡ bytes = cc in omega arith

pub cache_bytes-bounded :
    (m : Metadata) (context keys values bytes : ℕ)
    → cache_bytes m context keys values ≡ some bytes
    → Small bytes
unfolding cache_bytes
cache_bytes-bounded m context keys values = bind-All Small (caching_layers m) _ λ layers.
    bind-All Small
      (or_option (of_model m (codes "attention.head_count_kv"))
        (of_model m (codes "attention.head_count")))
      _
      λ kv_heads.
        bind-All Small (key_length_of m (of_model m (codes "attention.head_count"))) _
          λ key_length bytes h.
            sixteenth (cache_total m context keys values layers kv_heads key_length (window_of m))
              bytes
              (cache_total-bounded m context keys values layers kv_heads key_length (window_of m)) h

-- The mebibytes of so many bytes hold them, unless they are the most that 32 bits hold.
pub mib_of-holds : (bytes : ℕ) → (mib_of bytes ≡ u32_max) ⊎ (bytes ≤ mib_of bytes * mib)
unfolding mib_of clamp_u32
mib_of-holds bytes = elim (Bool-cases (ltb u32_max ((bytes + 1048575) / 1048576))) [
  | inl e ↦ rw e (inl refl)
  | inr e ↦ rw e (inr (omega arith))
]

pub sum_by_metadata-covers :
    (weights model_cache cache : ℕ)
    → weights < u64_mod
    → model_cache < 2 ^ 124
    → cache < 2 ^ 124
    → weights + overhead_bytes ≤ sum_by_metadata weights model_cache cache
unfolding sum_by_metadata
sum_by_metadata-covers weights model_cache cache h1 h2 h3 =
    rw
      (
        add_u128_exact weights model_cache (omega arith),
        add_u128_exact (weights + model_cache) cache (omega arith),
        mul_u128_exact weights 5 (omega arith),
        add_u128_exact (weights + model_cache + cache) (weights * 5 / 100) (omega arith),
        add_u128_exact (weights + model_cache + cache + weights * 5 / 100) overhead_bytes
            (omega arith),
      )
      (omega arith)

pub sum_by_size-covers :
    (weights : ℕ) → weights < u64_mod → weights + overhead_bytes ≤ sum_by_size weights
unfolding sum_by_size
sum_by_size-covers weights h =
    rw
      (
        add_u128_exact weights (weights / 4) (omega arith),
        add_u128_exact (weights + weights / 4) overhead_bytes (omega arith),
      )
      (omega arith)
