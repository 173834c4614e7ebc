-- ===== src/Catalog/Estimate/Charged.antt =====
-- src/catalog/estimate.rs: what an estimate charges at the least, and on the processor.
use maestro_llamacpp.Common.{
  ℕ, ◌+◌, ◌*◌, ◌≤◌, ◌<◌, ◌||◌, Bool, true, false, Option, none, some, ◌≡◌, refl, ◌⊎◌, inl, inr,
  arith, Bool-cases, unwrap_or,
}
use maestro_llamacpp.Common.Options.{bind-All, ◌>>=◌}
use maestro_llamacpp.Common.Word.{u64_mod, u32_max, add_u128, mul_u128, clamp_u32}
use maestro_llamacpp.Gguf.{Metadata}
use maestro_llamacpp.Catalog.{Entry}
use maestro_llamacpp.Catalog.Disk.{Disk, metadata_at}
use maestro_llamacpp.Catalog.Estimate.{
  charged, Basis, from_metadata, from_size, mib, overhead_bytes, Derived, made, sum_by_metadata,
  sum_by_size, mib_of, model_cache_bytes, estimate_of, weights_of, beside, draft_of, projector_of,
  draft_cache_of, derive,
}
use maestro_llamacpp.Catalog.Estimate.Served.{runs_on_processor, predicts_tokens, keeps_no_cache}
use maestro_llamacpp.Catalog.Estimate.Files.{files_bytes, charged_files_exact}
use maestro_llamacpp.Catalog.Estimate.Bounded.{
  Small, cache_bytes-bounded, mib_of-holds, sum_by_metadata-covers, sum_by_size-covers,
}

-- An estimate in mebibytes holds so many bytes and the overhead, unless it is the most that 32 bits hold.
abbrev pub Holds : Derived → ℕ → Type 0
Holds d weights = (d.mib ≡ u32_max) ⊎ (weights + overhead_bytes ≤ d.mib * mib)

mib_of-Holds :
    (weights bytes : ℕ) (basis : Basis)
    → weights + overhead_bytes ≤ bytes
    → Holds (record { mib = mib_of bytes; basis = basis }) weights
mib_of-Holds weights bytes basis h = elim (mib_of-holds bytes) [
  | inl e ↦ inl e
  | inr held ↦ inr (omega (arith, held))
]

model_cache-bounded :
    (entry : Entry) (metadata : Option Metadata) (bytes : ℕ)
    → model_cache_bytes entry metadata ≡ some bytes
    → Small bytes
unfolding model_cache_bytes
model_cache-bounded entry metadata =
    bind-All Small metadata _ λ m bytes h. cache_bytes-bounded m _ _ _ bytes h

charged-Holds :
    (free : Bool) (weights cache : ℕ) (model_cache : Option ℕ)
    → weights < u64_mod
    → Small cache
    → ((bytes : ℕ) → model_cache ≡ some bytes → Small bytes)
    → Holds (charged free weights cache model_cache) weights
charged-Holds free weights cache none few small bounded =
    mib_of-Holds weights (sum_by_size weights) from_size (sum_by_size-covers weights few)
charged-Holds true weights cache (some bytes) few small bounded =
    mib_of-Holds weights (sum_by_metadata weights 0 cache) from_metadata
      (sum_by_metadata-covers weights 0 cache few (omega arith) small)
charged-Holds false weights cache (some bytes) few small bounded =
    mib_of-Holds weights (sum_by_metadata weights bytes cache) from_metadata
      (sum_by_metadata-covers weights bytes cache few (bounded bytes refl) small)

estimate_of-Holds :
    (entry : Entry) (metadata : Option Metadata) (weights draft_cache : ℕ)
    → runs_on_processor entry.flags ≡ false
    → weights < u64_mod
    → Small draft_cache
    → Holds (estimate_of entry metadata weights draft_cache) weights
unfolding estimate_of
estimate_of-Holds entry metadata weights draft_cache device few small = rw device (
    charged-Holds (keeps_no_cache entry.flags || false) weights draft_cache
      (model_cache_bytes entry metadata) few small (model_cache-bounded entry metadata))

unwrap_or-bounded :
    (o : Option ℕ) → ((bytes : ℕ) → o ≡ some bytes → Small bytes) → Small (unwrap_or o 0)
unwrap_or-bounded none h = omega arith
unwrap_or-bounded (some bytes) h = h bytes refl

charged_processor :
    (free : Bool) (model_cache : Option ℕ) → (charged (free || true) 0 0 model_cache).mib ≡ 1024
unfolding sum_by_metadata sum_by_size mib_of add_u128 mul_u128 clamp_u32
charged_processor free none = refl
charged_processor true (some bytes) = refl
charged_processor false (some bytes) = refl

module _ {P : Type 0} (disk : Disk P) where
  draft_cache_of-bounded : (entry : Entry) → Small (draft_cache_of disk entry)
  unfolding draft_cache_of
  draft_cache_of-bounded entry = elim (Bool-cases (predicts_tokens entry.flags)) [
    | inl e ↦ rw e (omega arith)
    | inr e ↦ rw e (
        unwrap_or-bounded _ (
          bind-All Small (draft_of disk entry >>= metadata_at disk) _
            λ m bytes h. cache_bytes-bounded m _ _ _ bytes h))
  ]

  -- The weights that an estimate is charged with.
  abbrev all_weights : Entry → ℕ → ℕ
  all_weights entry weights =
      beside disk (projector_of disk entry) (beside disk (draft_of disk entry) weights)

  -- An estimate of an entry that is not held on the processor is never below the sizes of its
  -- model, the model's other shards, its draft and its projector, and the overhead of the device,
  -- unless it is the most that 32 bits hold. The model has a size, a shard, draft or projector
  -- that is not there has none, and together they are less than 2^64 bytes.
  pub derive-Holds :
      (entry : Entry) (size : ℕ)
      → runs_on_processor entry.flags ≡ false
      → disk.size_of (disk.resolve entry.path) ≡ some size
      → files_bytes disk entry < u64_mod
      → (d : Derived) × (derive disk entry ≡ made d) × Holds d (files_bytes disk entry)
  unfolding derive
  derive-Holds entry size device found few =
      let metadata = metadata_at disk (disk.resolve entry.path) in
      let (weights, weighed, same) = charged_files_exact disk entry size found few in
      (
        estimate_of entry metadata (files_bytes disk entry) (draft_cache_of disk entry),
        rw (weighed, derive) (rw same refl),
        estimate_of-Holds entry metadata (files_bytes disk entry) (draft_cache_of disk entry) device
            few (draft_cache_of-bounded entry),
      )

  -- An entry held on the processor is charged the overhead of the device and nothing else.
  pub derive_processor :
      (entry : Entry) (weights : ℕ)
      → runs_on_processor entry.flags ≡ true
      → weights_of disk (disk.resolve entry.path) (metadata_at disk (disk.resolve entry.path))
        ≡ made weights
      → (d : Derived) × (derive disk entry ≡ made d) × (d.mib ≡ 1024)
  unfolding derive estimate_of
  derive_processor entry weights processor found =
      let metadata = metadata_at disk (disk.resolve entry.path) in
      (
        estimate_of entry metadata (all_weights entry weights) (draft_cache_of disk entry),
        rw (found, derive) refl,
        rw processor
            (charged_processor (keeps_no_cache entry.flags) (model_cache_bytes entry metadata)),
      )
