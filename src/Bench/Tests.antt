-- ===== src/Bench/Tests.antt =====
-- An entry that ranks, though it is told not to embed.
use maestro_llamacpp.Common.{
  ℕ, ◌+◌, ◌/◌, ◌%◌, ◌<◌, ◌≤◌, some, refl, arith, none, true, [], ◌∷◌, ◌≡◌, ◌↔◌,
}
use maestro_llamacpp.Common.Text.{codes}
use maestro_llamacpp.Catalog.{Entry, on_demand}
use maestro_llamacpp.Catalog.Capability.{generates}
use maestro_llamacpp.Bench.Margin.{recommended_mib-bounds}
use maestro_llamacpp.Bench.{recommended_mib, completions, answers}
use maestro_llamacpp.Bench.Modes.{answers-generates}

abbrev ranker : Entry
ranker = record {
  id = codes "ranker";
  path = record { text = codes "m.gguf" };
  draft_path = none;
  projector_path = none;
  context_size = 4096;
  residency = on_demand;
  memory_estimate_mib = 3000;
  reasoning_format = none;
  reasoning_effort = none;
  startup_timeout_seconds = 1;
  runtime = none;
  flags = (codes "embeddings", codes "false") ∷ (codes "rerank", codes "true") ∷ [];
}

answers-generates_example : (answers ranker.flags ≡ completions) ↔ (generates ranker ≡ true)
answers-generates_example = answers-generates ranker

recommended_mib-bounds_example :
    (wants : ℕ) × (recommended_mib (some 28715) ≡ some wants)
    × (28715 + 28715 / 20 ≤ wants)
    × (wants < 28715 + 28715 / 20 + 256)
    × (wants % 256 ≡ 0)
recommended_mib-bounds_example = recommended_mib-bounds 28715 (omega arith)

recommended_mib_large_model : recommended_mib (some 28715) ≡ some 30208
unfolding recommended_mib
recommended_mib_large_model = refl
