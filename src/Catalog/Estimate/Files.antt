-- ===== src/Catalog/Estimate/Files.antt =====
-- src/catalog/estimate.rs: the files of an entry and their sizes, added up without a word's bound.
use maestro_llamacpp.Common.{
  ℕ, zero, suc, ◌+◌, ◌<◌, true, false, not, Option, none, some, List, [], map, keep, ◌==◌, ◌≡◌,
  refl, ◌∙◌, arith, Bool-cases, inl, inr, unwrap_or, sum_by,
}
use maestro_llamacpp.Common.Options.{◌>>=◌}
use maestro_llamacpp.Common.Word.{u64_mod, add_u64_exact}
use maestro_llamacpp.Gguf.{Metadata, split_count}
use maestro_llamacpp.Catalog.{Entry}
use maestro_llamacpp.Catalog.Disk.{Disk, metadata_at}
use maestro_llamacpp.Catalog.Estimate.{
  made, shards_weigh, weights_from, weights_of, beside, draft_of, projector_of,
}
use maestro_llamacpp.Catalog.Estimate.Cache.{range_from}
use maestro_llamacpp.Catalog.Estimate.Shards.{Shard, shard_of, sibling_name}

module _ {P : Type 0} (disk : Disk P) where
  -- A file that is not there has no size.
  abbrev pub size_at : P → ℕ
  size_at path = unwrap_or (disk.size_of path) 0

  -- The shards whose place is one of so many from an index on, but for the one that is named.
  abbrev pub siblings : P → Shard → ℕ → ℕ → List P
  siblings model shard index count =
      map (λ i. disk.with_file_name model (sibling_name shard i))
        (keep (λ i. not (i == shard.index)) (range_from index count))

  abbrev pub shards_beside : P → Option Metadata → Option Shard → List P
  shards_beside model metadata none = []
  shards_beside model metadata (some shard) =
      siblings model shard 1 (unwrap_or (metadata >>= split_count) 1)

  abbrev pub other_shards : P → Option Metadata → List P
  other_shards model metadata = shards_beside model metadata (disk.file_name model >>= shard_of)

  abbrev pub size_if_any : Option P → ℕ
  size_if_any none = 0
  size_if_any (some path) = size_at path

  -- The size of a model, of its other shards, of its draft and of its projector.
  abbrev pub files_bytes : Entry → ℕ
  files_bytes entry =
      let model = disk.resolve entry.path in
      size_at model
      + sum_by size_at (other_shards model (metadata_at disk model))
      + size_if_any (draft_of disk entry)
      + size_if_any (projector_of disk entry)

  sum-siblings_own :
      (model : P) (shard : Shard) (index count : ℕ)
      → (index == shard.index) ≡ true
      → sum_by size_at (siblings model shard index (suc count))
        ≡ sum_by size_at (siblings model shard (suc index) count)
  unfolding sum_by keep range_from
  sum-siblings_own model shard index count e = rw (e, keep) refl

  sum-siblings_other :
      (model : P) (shard : Shard) (index count : ℕ)
      → (index == shard.index) ≡ false
      → sum_by size_at (siblings model shard index (suc count))
        ≡ size_at (disk.with_file_name model (sibling_name shard index))
          + sum_by size_at (siblings model shard (suc index) count)
  unfolding sum_by keep range_from
  sum-siblings_other model shard index count e = rw (e, keep) refl

  shards_weigh_exact :
      (model : P) (shard : Shard) (index count total : ℕ)
      → total + sum_by size_at (siblings model shard index count) < u64_mod
      → shards_weigh disk model shard index count total
        ≡ total + sum_by size_at (siblings model shard index count)
  unfolding shards_weigh sum_by keep range_from
  shards_weigh_exact model shard index zero total h = omega arith
  shards_weigh_exact model shard index (suc count) total h =
      let size = size_at (disk.with_file_name model (sibling_name shard index)) in
      elim (Bool-cases (index == shard.index)) [
        | inl e ↦
            let same = sum-siblings_own model shard index count e in
            rw (e, shards_weigh)
              (shards_weigh_exact model shard (suc index) count total (omega arith) ∙ omega arith)
        | inr e ↦
            let more = sum-siblings_other model shard index count e in
            rw (e, shards_weigh)
              (rw (add_u64_exact total size (omega arith)) (
                shards_weigh_exact model shard (suc index) count (total + size) (omega arith)
                ∙ omega arith))
      ]

  weigh_beside_exact :
      (model : P) (metadata : Option Metadata) (total : ℕ) (found : Option Shard)
      → total + sum_by size_at (shards_beside model metadata found) < u64_mod
      → (elim found [
        | none ↦ total
        | some shard ↦
            shards_weigh disk model shard 1 (unwrap_or (metadata >>= split_count) 1) total
      ])
        ≡ total + sum_by size_at (shards_beside model metadata found)
  unfolding sum_by
  weigh_beside_exact model metadata total none h = omega arith
  weigh_beside_exact model metadata total (some shard) h =
      shards_weigh_exact model shard 1 (unwrap_or (metadata >>= split_count) 1) total h

  weights_from_exact :
      (model : P) (metadata : Option Metadata) (total : ℕ)
      → total + sum_by size_at (other_shards model metadata) < u64_mod
      → weights_from disk model metadata total
        ≡ total + sum_by size_at (other_shards model metadata)
  weights_from_exact model metadata total h =
      weigh_beside_exact model metadata total (disk.file_name model >>= shard_of) h

  beside_exact :
      (file : Option P) (weights : ℕ)
      → weights + size_if_any file < u64_mod
      → beside disk file weights ≡ weights + size_if_any file
  beside_exact none weights h = omega arith
  beside_exact (some path) weights h = add_u64_exact weights (size_at path) h

  -- What an estimate is charged for its files is their sizes' sum, where that is within 64 bits.
  pub charged_files_exact :
      (entry : Entry) (size : ℕ)
      → disk.size_of (disk.resolve entry.path) ≡ some size
      → files_bytes entry < u64_mod
      → (weights : ℕ) × (weights_of disk
            (disk.resolve entry.path)
            (metadata_at disk (disk.resolve entry.path))
          ≡ made weights)
        × (beside disk (projector_of disk entry) (beside disk (draft_of disk entry) weights)
            ≡ files_bytes entry)
  unfolding weights_of
  charged_files_exact entry size found few =
      let model = disk.resolve entry.path in
      let metadata = metadata_at disk model in
      let sized : size_at model ≡ size = rw found refl in
      let shards = weights_from_exact model metadata size (omega arith) in
      let drafted =
        beside_exact (draft_of disk entry) (size + sum_by size_at (other_shards model metadata))
          (omega arith) in
      let projected =
        beside_exact (projector_of disk entry)
          (size + sum_by size_at (other_shards model metadata) + size_if_any (draft_of disk entry))
          (omega arith) in
      (
        weights_from disk model metadata size,
        rw (found, weights_of) refl,
        rw (shards, drafted, projected) (omega arith),
      )
