-- ===== src/Catalog/Resolve/Tests.antt =====
-- A root with two files of one name in two directories, one of them the catalog's.
use maestro_llamacpp.Common.{none, some, true, false, [], ◌∷◌, ◌++◌, ◌≡◌, refl}
use maestro_llamacpp.Common.Text.{
  Text, codes, text_eq, mem_text, show, rsplit_once, rsplit_once_text, strip_prefix,
}
use maestro_llamacpp.Catalog.{Entry, on_demand, get_flag}
use maestro_llamacpp.Catalog.Disk.{Disk, metadata_at}
use maestro_llamacpp.Catalog.Read.Entries.{Drafts}
use maestro_llamacpp.Catalog.Read.Defaults.{no_defaults}
use maestro_llamacpp.Common.Options.{find_map}
use maestro_llamacpp.Common.Word.{clamp_u32, add_u128}
use maestro_llamacpp.Catalog.Estimate.{
  derive, weights_of, estimate_of, model_cache_bytes, mib_of, sum_by_size,
}
use maestro_llamacpp.Catalog.Estimate.Served.{runs_on_processor}
use maestro_llamacpp.Catalog.Estimate.Shards.{shard_of}
use maestro_llamacpp.Catalog.Discover.{under}
use maestro_llamacpp.Catalog.Discover.Name.{reserved}
use maestro_llamacpp.Catalog.Discover.Fresh.{ids_of, IsFresh, under-IsFresh}
use maestro_llamacpp.Catalog.Resolve.{
  Reading, read_as, read_catalog, settle_all, settle, settle_derived, with_discovered,
}
use maestro_llamacpp.Catalog.Resolve.Settling.{AllSettle, read_catalog-AllSettle}

abbrev two_names : Disk Text
two_names = record {
  root = codes "/";
  resolve = λ location. location.text;
  path_eq = text_eq;
  file_name = λ path. some (codes "Tiny.gguf");
  parent_name = λ path. some path;
  with_file_name = λ path name. name;
  display = λ path. path;
  size_of = λ path. some 4000;
  reader = λ path. none;
  files = record {
    from_utf8_lossy = λ bytes. bytes;
    may_pass = λ n. true;
    end_words = codes "failed to fill whole buffer";
    seek_words = codes "invalid seek";
  };
  is_dir = λ path. false;
  read_dir = λ path. some (codes "a" ∷ codes "b" ∷ []);
  parts = λ path. some (path ∷ []);
}

abbrev tiny : Entry
tiny = record {
  id = codes "tiny";
  path = record { text = codes "a" };
  draft_path = none;
  projector_path = none;
  context_size = 4096;
  residency = on_demand;
  memory_estimate_mib = 0;
  reasoning_format = none;
  reasoning_effort = none;
  startup_timeout_seconds = 30;
  runtime = none;
  flags = [];
}

under-IsFresh_example :
    IsFresh (ids_of (tiny ∷ []) ++ reserved) (under two_names (tiny ∷ []) no_defaults []).0
under-IsFresh_example = under-IsFresh two_names (tiny ∷ []) no_defaults []

abbrev tiny_drafts : Drafts
tiny_drafts = record {
  version = some 1;
  defaults = no_defaults;
  entries = tiny ∷ [];
  undeclared = codes "tiny" ∷ [];
  problems = [];
}

abbrev tiny_reading : Reading
tiny_reading =
    with_discovered two_names tiny_drafts (record tiny { memory_estimate_mib = 1025 } ∷ [])
      (record {
        notes =
            codes
              "entry 'tiny': memory estimate of 1025 MiB derived from file size alone, because the model file's metadata could not be read"
            ∷ [];
        problems = [];
        derived = codes "tiny" ∷ [];
      })

tiny_read : read_catalog two_names tiny_drafts ≡ read_as tiny_reading
unfolding read_catalog settle_all settle settle_derived mem_text text_eq codes derive weights_of
    estimate_of model_cache_bytes metadata_at mib_of show clamp_u32 sum_by_size add_u128
    runs_on_processor find_map get_flag shard_of rsplit_once rsplit_once_text strip_prefix
tiny_read = refl

read_catalog-AllSettle_example :
    AllSettle two_names (codes "tiny" ∷ []) (tiny ∷ []) tiny_reading.catalog.entries
read_catalog-AllSettle_example = read_catalog-AllSettle two_names tiny_drafts tiny_reading tiny_read
