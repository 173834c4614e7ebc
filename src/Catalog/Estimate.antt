-- ===== src/Catalog/Estimate.antt =====
-- src/catalog/estimate.rs: what loading an entry is expected to cost, worked out from its files.
pub mod Served
pub mod Cache
pub mod Shards
pub mod Windows
pub mod Gemma
pub mod Bounded
pub mod Files
pub mod Charged
mod Tests
use maestro_llamacpp.Common.{
  ℕ, zero, suc, ◌+◌, ◌-◌, ◌*◌, ◌/◌, Bool, ◌||◌, Option, none, some, ◌++◌, ◌==◌, if◌then◌else◌,
  unwrap_or,
}
use maestro_llamacpp.Common.Options.{◌>>=◌}
use maestro_llamacpp.Common.Text.{Text, codes}
use maestro_llamacpp.Common.Word.{add_u64, add_u128, mul_u128, clamp_u32}
use maestro_llamacpp.Gguf.{Metadata, split_count}
use maestro_llamacpp.Catalog.{Entry}
use maestro_llamacpp.Catalog.Disk.{Disk, metadata_at}
use Served.{keeps_no_cache, predicts_tokens, runs_on_processor}
use Cache.{cache_bytes, sixteenths}
use Shards.{Shard, shard_of, sibling_name}

abbrev pub mib : ℕ
mib = 1024 * 1024

abbrev pub overhead_bytes : ℕ
overhead_bytes = 1024 * mib

pub data Basis : Type 0 where
  from_metadata from_size : Basis

pub record Derived : Type 0 where
  pub mib : ℕ
  pub basis : Basis

-- `Result`, whose error is a reason.
pub data Attempt (A : Type 0) : Type 0 where
  made : A → Attempt A
  failed : Text → Attempt A

-- The sum of the terms where the metadata was read, and where it was not.
unfoldable pub sum_by_metadata : ℕ → ℕ → ℕ → ℕ
sum_by_metadata weights model_cache cache =
    add_u128 (add_u128 (add_u128 (add_u128 weights model_cache) cache) (mul_u128 weights 5 / 100))
      overhead_bytes

unfoldable pub sum_by_size : ℕ → ℕ
sum_by_size weights = add_u128 (add_u128 weights (weights / 4)) overhead_bytes

-- `div_ceil` and the conversion to 32 bits
unfoldable pub mib_of : ℕ → ℕ
mib_of bytes = clamp_u32 ((bytes + (mib - 1)) / mib)

unfoldable pub model_cache_bytes : Entry → Option Metadata → Option ℕ
model_cache_bytes entry metadata = metadata >>= λ m.
    cache_bytes m entry.context_size (sixteenths entry.flags (codes "ctk") (codes "cache-type-k"))
      (sixteenths entry.flags (codes "ctv") (codes "cache-type-v"))

-- The match on the model's own cache, which a server that keeps none is not charged.
abbrev pub charged : Bool → ℕ → ℕ → Option ℕ → Derived
charged free weights cache (some model_cache) = record {
  mib = mib_of (sum_by_metadata weights (if free then 0 else model_cache) cache);
  basis = from_metadata;
}
charged free weights cache none = record { mib = mib_of (sum_by_size weights); basis = from_size }

-- The entry's estimate from its weights and its draft's cache.
unfoldable pub estimate_of : Entry → Option Metadata → ℕ → ℕ → Derived
estimate_of entry metadata weights draft_cache =
    let on_processor = runs_on_processor entry.flags in
    charged (keeps_no_cache entry.flags || on_processor) (if on_processor then 0 else weights)
      (if on_processor then 0 else draft_cache) (model_cache_bytes entry metadata)

module _ {P : Type 0} (disk : Disk P) where
  -- The loop over the shards from an index on.
  unfoldable pub shards_weigh : P → Shard → ℕ → ℕ → ℕ → ℕ
  shards_weigh model shard index zero total = total
  shards_weigh model shard index (suc count) total = shards_weigh model shard (suc index) count (
      if index == shard.index
      then total
      else add_u64 total
          (unwrap_or (disk.size_of (disk.with_file_name model (sibling_name shard index))) 0))

  abbrev pub weights_from : P → Option Metadata → ℕ → ℕ
  weights_from model metadata total = elim (disk.file_name model >>= shard_of) [
    | none ↦ total
    | some shard ↦ shards_weigh model shard 1 (unwrap_or (metadata >>= split_count) 1) total
  ]

  unfoldable pub weights_of : P → Option Metadata → Attempt ℕ
  weights_of model metadata = elim (disk.size_of model) [
    | none ↦ failed (codes "no model file at '" ++ disk.display model ++ codes "'")
    | some total ↦ made (weights_from model metadata total)
  ]

  -- What a file beside the model adds to its weights: nothing, if it is not there.
  abbrev pub beside : Option P → ℕ → ℕ
  beside none weights = weights
  beside (some path) weights = add_u64 weights (unwrap_or (disk.size_of path) 0)

  abbrev pub draft_of : Entry → Option P
  draft_of entry = entry.draft_path >>= λ location. some (disk.resolve location)

  abbrev pub projector_of : Entry → Option P
  projector_of entry = entry.projector_path >>= λ location. some (disk.resolve location)

  unfoldable pub draft_cache_of : Entry → ℕ
  draft_cache_of entry =
      if predicts_tokens entry.flags
      then 0
      else unwrap_or
          (draft_of entry >>= metadata_at disk >>= λ m.
            cache_bytes m entry.context_size
              (sixteenths entry.flags (codes "ctkd") (codes "cache-type-k-draft"))
              (sixteenths entry.flags (codes "ctvd") (codes "cache-type-v-draft")))
          0

  unfoldable pub derive : Entry → Attempt Derived
  derive entry =
      let model = disk.resolve entry.path in
      let metadata = metadata_at disk model in
      elim (weights_of model metadata) [
        | failed reason ↦ failed reason
        | made weights ↦ made (
            estimate_of entry metadata
              (beside (projector_of entry) (beside (draft_of entry) weights))
              (draft_cache_of entry))
      ]
