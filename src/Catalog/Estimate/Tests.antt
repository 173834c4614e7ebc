-- ===== src/Catalog/Estimate/Tests.antt =====
-- A Gemma 3 file, and a disk that holds one model with its projector.
use maestro_llamacpp.Common.{
  keep, sum_by, ◌+◌, ◌*◌, ◌/◌, ◌-◌, ◌≡◌, true, false, none, some, [], ◌∷◌, refl, arith,
  if◌then◌else◌,
}
use maestro_llamacpp.Common.Text.{
  lowercase, to_ascii_lowercase, Text, codes, rsplit_once, rsplit_once_text, strip_prefix, is_digit,
  parse_unsigned, text_eq, trim, trim_start_by, trim_end_by, is_whitespace,
}
use maestro_llamacpp.Gguf.{Metadata, of_model, per_layer, number, own_key}
use maestro_llamacpp.Common.Maps.{get}
use maestro_llamacpp.Common.Options.{find_map}
use maestro_llamacpp.Catalog.{Entry, on_demand, get_flag}
use maestro_llamacpp.Catalog.Disk.{Disk, metadata_at}
use maestro_llamacpp.Catalog.Estimate.Shards.{shard_of, counts_with, all_digits}
use maestro_llamacpp.Catalog.Estimate.{Derived, made, derive, weights_of, shards_weigh}
use maestro_llamacpp.Catalog.Estimate.Served.{runs_on_processor, keeps_no_cache, says_no}
use maestro_llamacpp.Catalog.Capability.{generates}
use maestro_llamacpp.Catalog.Capability.Modes.{keeps_no_cache-generates}
use maestro_llamacpp.Catalog.Estimate.Files.{files_bytes}
use maestro_llamacpp.Catalog.Estimate.Charged.{Holds, derive-Holds, derive_processor}
use maestro_llamacpp.Catalog.Estimate.Cache.{
  range_from, Shape, shape_of, key_length_of, cache_bytes,
}
use maestro_llamacpp.Catalog.Estimate.Windows.{IsModest, exact_cost}
use maestro_llamacpp.Catalog.Estimate.Gemma.{cache_bytes-gemma3}

abbrev gemma : Metadata
gemma = record {
  architecture = some (codes "gemma3");
  numbers =
      (codes "gemma3.attention.head_count", 4)
      ∷ (codes "gemma3.attention.head_count_kv", 1)
      ∷ (codes "gemma3.attention.key_length", 256)
      ∷ (codes "gemma3.attention.sliding_window", 512)
      ∷ (codes "gemma3.block_count", 26)
      ∷ [];
  layers = [];
}

abbrev gemma_shape : Shape
gemma_shape = record {
  keys = 32;
  values = 32;
  kv_heads = 1;
  by_layer = none;
  whole = record { tokens = 32768; key = 256; value = 256 };
  windowed = record { tokens = 512; key = 256; value = 256 };
}

gemma_whole-IsModest : IsModest gemma_shape gemma_shape.whole
gemma_whole-IsModest = record {
  tokens = omega arith;
  kv_heads = omega arith;
  key = omega arith;
  value = omega arith;
}

gemma_windowed-IsModest : IsModest gemma_shape gemma_shape.windowed
gemma_windowed-IsModest = record {
  tokens = omega arith;
  kv_heads = omega arith;
  key = omega arith;
  value = omega arith;
}

cache_bytes-gemma3_example :
    cache_bytes gemma 32768 32 32
    ≡ some (
        (26 / 6 * exact_cost gemma_shape gemma_shape.whole
          + (26 - 26 / 6) * exact_cost gemma_shape gemma_shape.windowed)
        / 16)
unfolding shape_of key_length_of of_model per_layer number get own_key text_eq codes
cache_bytes-gemma3_example =
    cache_bytes-gemma3 gemma 32768 32 32 26 1 256 512 gemma_shape refl refl refl refl refl refl refl
      refl gemma_whole-IsModest gemma_windowed-IsModest (omega arith)

abbrev small_disk : Disk Text
small_disk = record {
  root = codes "/models";
  resolve = λ location. location.text;
  path_eq = text_eq;
  file_name = λ path. some path;
  parent_name = λ path. none;
  with_file_name = λ path name. name;
  display = λ path. path;
  size_of = λ path.
      if text_eq path (codes "a-00001-of-00002.gguf")
      then some 4000
      else if text_eq path (codes "mmproj.gguf")
      then some 700
      else none;
  reader = λ path. none;
  files = record {
    from_utf8_lossy = λ bytes. bytes;
    may_pass = λ n. true;
    end_words = codes "failed to fill whole buffer";
    seek_words = codes "invalid seek";
  };
  is_dir = λ path. false;
  read_dir = λ path. none;
  parts = λ path. none;
}

abbrev small_entry : Text → Entry
small_entry layers = record {
  id = codes "a";
  path = record { text = codes "a-00001-of-00002.gguf" };
  draft_path = none;
  projector_path = none;
  context_size = 4096;
  residency = on_demand;
  memory_estimate_mib = 0;
  reasoning_format = none;
  reasoning_effort = none;
  startup_timeout_seconds = 30;
  runtime = none;
  flags = (codes "ngl", layers) ∷ [];
}

small_weights :
    weights_of small_disk
      (codes "a-00001-of-00002.gguf")
      (metadata_at small_disk (codes "a-00001-of-00002.gguf"))
    ≡ made 4000
unfolding weights_of text_eq codes shard_of rsplit_once rsplit_once_text strip_prefix counts_with
    all_digits is_digit parse_unsigned shards_weigh metadata_at
small_weights = refl

abbrev seeing_entry : Entry
seeing_entry = record (small_entry (codes "20")) {
  projector_path = some (record { text = codes "mmproj.gguf" });
}

seeing_bytes : files_bytes small_disk seeing_entry ≡ 4700
unfolding text_eq codes shard_of rsplit_once rsplit_once_text strip_prefix counts_with all_digits
    is_digit parse_unsigned metadata_at keep sum_by range_from
seeing_bytes = refl

derive-Holds_example :
    (d : Derived) × (derive small_disk seeing_entry ≡ made d)
    × Holds d (files_bytes small_disk seeing_entry)
unfolding runs_on_processor find_map get_flag text_eq codes trim trim_start_by trim_end_by
    is_whitespace
derive-Holds_example =
    derive-Holds small_disk seeing_entry 4000 refl refl (omega (arith, seeing_bytes))

derive_processor_example :
    (d : Derived) × (derive small_disk (small_entry (codes " 0 ")) ≡ made d) × (d.mib ≡ 1024)
unfolding runs_on_processor find_map get_flag text_eq codes trim trim_start_by trim_end_by
    is_whitespace
derive_processor_example =
    derive_processor small_disk (small_entry (codes " 0 ")) 4000 refl small_weights

abbrev embedder : Entry
embedder = record (small_entry (codes "99")) { flags = (codes "embeddings", codes "true") ∷ [] }

keeps_no_cache-generates_example : generates embedder ≡ false
unfolding keeps_no_cache find_map get_flag text_eq codes says_no trim trim_start_by trim_end_by
    is_whitespace lowercase to_ascii_lowercase
keeps_no_cache-generates_example = keeps_no_cache-generates embedder refl
