-- ===== src/Catalog/Estimate/Windows.antt =====
-- src/catalog/estimate/cache.rs: the loop over the layers against the two products it comes to.
use native.Mathlib.Nat.{mul-le-mul}
use maestro_llamacpp.Common.{
  ℕ, suc, ◌+◌, ◌*◌, ◌/◌, ◌^◌, ◌≤◌, ◌<◌, none, some, List, [], ◌∷◌, length, ◌==◌, ◌≡◌, refl, ◌∙◌,
  arith, if◌then◌else◌, or_option, Bool-cases, inl, inr, sym,
}
use maestro_llamacpp.Common.Text.{codes}
use maestro_llamacpp.Common.Word.{u128_mod, add_u128_exact, mul_u128_exact}
use maestro_llamacpp.Gguf.{Metadata, of_model}
use maestro_llamacpp.Catalog.Estimate.Cache.{
  Shape, Span, element_cost, layer_cost, heads_at, span_of, windowed_total, cache_bytes,
  cache_total, caching_layers, shape_of, window_of, key_length_of,
}

-- How many layers of a pattern attend to the whole context, and how many slide.
abbrev pub whole_layers : List ℕ → ℕ
whole_layers [] = 0
whole_layers (slides ∷ pattern) =
    let rest = whole_layers pattern in if slides == 0 then suc rest else rest

abbrev pub sliding_layers : List ℕ → ℕ
sliding_layers [] = 0
sliding_layers (slides ∷ pattern) =
    let rest = sliding_layers pattern in if slides == 0 then rest else suc rest

-- Sixteenths of a byte that a layer's cache takes, exactly.
abbrev pub exact_cost : Shape → Span → ℕ
exact_cost s span = span.tokens * s.kv_heads * (span.key * s.keys + span.value * s.values)

-- No figure is so large that a product wraps: tokens and heads are of 32 bits, and so are the
-- lengths times the size of an element.
pub record IsModest (s : Shape) (span : Span) : Type 0 where
  pub tokens : span.tokens < 2 ^ 32
  pub kv_heads : s.kv_heads < 2 ^ 32
  pub key : span.key * s.keys < 2 ^ 32
  pub value : span.value * s.values < 2 ^ 32

at_most : (a b m n : ℕ) → a ≤ m → b ≤ n → a * b ≤ m * n
at_most a b m n h k = mul-le-mul h k

pub element_cost_exact :
    (s : Shape) (span : Span)
    → IsModest s span
    → element_cost s span ≡ span.key * s.keys + span.value * s.values
unfolding element_cost
element_cost_exact s span h = rw (mul_u128_exact (span.key) s.keys (omega (arith, h.key))) (
    rw (mul_u128_exact span.value s.values (omega (arith, h.value)))
      (add_u128_exact (span.key * s.keys) (span.value * s.values) (omega (arith, h.key, h.value))))

pub exact_cost-bounded : (s : Shape) (span : Span) → IsModest s span → exact_cost s span ≤ 2 ^ 97
exact_cost-bounded s span h =
    let tokens_heads =
      at_most span.tokens s.kv_heads (2 ^ 32) (2 ^ 32) (omega (arith, h.tokens))
        (omega (arith, h.kv_heads)) in
    omega (
      arith,
      at_most (span.tokens * s.kv_heads) (span.key * s.keys + span.value * s.values) (2 ^ 64)
          (2 ^ 33) (omega (arith, tokens_heads)) (omega (arith, h.key, h.value)),
    )

layer_cost_exact :
    (s : Shape) (span : Span) → IsModest s span → layer_cost s span s.kv_heads ≡ exact_cost s span
unfolding layer_cost
layer_cost_exact s span h =
    let tokens_heads =
      at_most span.tokens s.kv_heads (2 ^ 32) (2 ^ 32) (omega (arith, h.tokens))
        (omega (arith, h.kv_heads)) in
    rw (element_cost_exact s span h) (
      rw (mul_u128_exact span.tokens s.kv_heads (omega (arith, tokens_heads))) (
        mul_u128_exact (span.tokens * s.kv_heads) (span.key * s.keys + span.value * s.values)
          (omega (arith, exact_cost-bounded s span h))))

-- The sum over the layers of what a whole and a sliding one cost.
pattern_cost : ℕ → ℕ → List ℕ → ℕ
pattern_cost whole windowed [] = 0
pattern_cost whole windowed (slides ∷ pattern) =
    (if slides == 0 then whole else windowed) + pattern_cost whole windowed pattern

pattern_cost_products :
    (whole windowed : ℕ) (pattern : List ℕ)
    → pattern_cost whole windowed pattern
      ≡ whole_layers pattern * whole + sliding_layers pattern * windowed
unfolding pattern_cost
pattern_cost_products whole windowed [] = omega arith
pattern_cost_products whole windowed (slides ∷ pattern) = elim (Bool-cases (slides == 0)) [
  | inl e ↦
      rw (e, whole_layers, sliding_layers)
        (grind (arith, pattern_cost_products whole windowed pattern))
  | inr e ↦
      rw (e, whole_layers, sliding_layers)
        (grind (arith, pattern_cost_products whole windowed pattern))
]

layer_cost_of :
    (s : Shape) (slides layer : ℕ)
    → s.by_layer ≡ none
    → IsModest s s.whole
    → IsModest s s.windowed
    → layer_cost s (span_of s slides) (heads_at s layer)
      ≡ (if slides == 0 then exact_cost s s.whole else exact_cost s s.windowed)
unfolding heads_at layer_cost element_cost
layer_cost_of s slides layer uniform whole windowed = rw uniform (elim (Bool-cases (slides == 0)) [
  | inl e ↦ rw e (layer_cost_exact s s.whole whole)
  | inr e ↦ rw e (layer_cost_exact s s.windowed windowed)
])

windowed_total_exact :
    (s : Shape) (layer total : ℕ) (pattern : List ℕ)
    → s.by_layer ≡ none
    → IsModest s s.whole
    → IsModest s s.windowed
    → total + pattern_cost (exact_cost s s.whole) (exact_cost s s.windowed) pattern < u128_mod
    → windowed_total s layer total pattern
      ≡ total + pattern_cost (exact_cost s s.whole) (exact_cost s s.windowed) pattern
unfolding windowed_total pattern_cost
windowed_total_exact s layer total [] uniform whole windowed fits = omega arith
windowed_total_exact s layer total (slides ∷ pattern) uniform whole windowed fits =
    let cost = (if slides == 0 then exact_cost s s.whole else exact_cost s s.windowed) in
    rw (layer_cost_of s slides layer uniform whole windowed) (
      rw (add_u128_exact total cost (omega arith)) (
        windowed_total_exact s (suc layer) (total + cost) pattern uniform whole windowed
          (omega arith)
        ∙ omega arith))

pub layers_add_up :
    (pattern : List ℕ) → whole_layers pattern + sliding_layers pattern ≡ length pattern
layers_add_up [] = omega arith
layers_add_up (slides ∷ pattern) = elim (Bool-cases (slides == 0)) [
  | inl e ↦ rw (e, whole_layers, sliding_layers) (omega (arith, layers_add_up pattern))
  | inr e ↦ rw (e, whole_layers, sliding_layers) (omega (arith, layers_add_up pattern))
]

pattern_fits :
    (s : Shape) (pattern : List ℕ)
    → IsModest s s.whole
    → IsModest s s.windowed
    → length pattern ≤ 2 ^ 20
    → pattern_cost (exact_cost s s.whole) (exact_cost s s.windowed) pattern < u128_mod
pattern_fits s pattern whole windowed few =
    let products = pattern_cost_products (exact_cost s s.whole) (exact_cost s s.windowed) pattern in
    let add_up = layers_add_up pattern in
    let first =
      at_most (whole_layers pattern) (exact_cost s s.whole) (2 ^ 20) (2 ^ 97)
        (omega (arith, add_up)) (exact_cost-bounded s s.whole whole) in
    let second =
      at_most (sliding_layers pattern) (exact_cost s s.windowed) (2 ^ 20) (2 ^ 97)
        (omega (arith, add_up)) (exact_cost-bounded s s.windowed windowed) in
    rw products (omega (arith, first, second))

-- The layers that attend to the whole context, and those that slide, each multiplied out.
abbrev pub windowed_cost : Shape → List ℕ → ℕ
windowed_cost s pattern =
    whole_layers pattern * exact_cost s s.whole + sliding_layers pattern * exact_cost s s.windowed

windowed_total_products :
    (s : Shape) (pattern : List ℕ)
    → s.by_layer ≡ none
    → IsModest s s.whole
    → IsModest s s.windowed
    → length pattern ≤ 2 ^ 20
    → windowed_total s 0 0 pattern ≡ windowed_cost s pattern
windowed_total_products s pattern uniform whole windowed few =
    let fits = pattern_fits s pattern whole windowed few in
    windowed_total_exact s 0 0 pattern uniform whole windowed (omega (arith, fits))
    ∙ omega (arith, pattern_cost_products (exact_cost s s.whole) (exact_cost s s.windowed) pattern)

-- Where a file has a pattern and a window and all its layers have as many heads, and no figure is
-- beyond 32 bits, the estimate of the cache is that of the layers that attend to the whole
-- context and that of those that slide, whose tokens the window bounds, each multiplied out.
pub cache_bytes-windowed :
    (m : Metadata) (context keys values layers kv_heads key_length window : ℕ) (pattern : List ℕ)
    (s : Shape)
    → s ≡ shape_of m context keys values kv_heads key_length window
    → caching_layers m ≡ some layers
    → or_option
        (of_model m (codes "attention.head_count_kv"))
        (of_model m (codes "attention.head_count"))
      ≡ some kv_heads
    → key_length_of m (of_model m (codes "attention.head_count")) ≡ some key_length
    → window_of m ≡ some (pattern, window)
    → s.by_layer ≡ none
    → IsModest s s.whole
    → IsModest s s.windowed
    → length pattern ≤ 2 ^ 20
    → cache_bytes m context keys values ≡ some (windowed_cost s pattern / 16)
unfolding cache_bytes cache_total
cache_bytes-windowed m context keys values layers kv_heads key_length window pattern s e0 e1 e2 e3
      e4 uniform whole windowed few =
    rw (e1, e2, e3, e4)
      (rw (sym e0) (rw (windowed_total_products s pattern uniform whole windowed few) refl))
