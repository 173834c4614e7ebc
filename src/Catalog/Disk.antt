-- ===== src/Catalog/Disk.antt =====
-- What the standard library and the system say of the files under the models root, and the
-- metadata of a file there: src/gguf.rs, `Metadata::read`.
use maestro_llamacpp.Common.{Bool, ℕ, Option, none, some, List}
use maestro_llamacpp.Common.Options.{◌>>=◌}
use maestro_llamacpp.Common.Text.{Text}
use maestro_llamacpp.Gguf.{Metadata, fill}
use maestro_llamacpp.Gguf.Reader.{Files, Reader, Outcome, ok, fault}
use maestro_llamacpp.Catalog.Location.{RelativePath}

-- `P` stands for `PathBuf`. `resolve` joins a location to the root; a `read_dir` that succeeds is
-- the sorted list of what it holds; `parts` are the components below the root, where they are
-- text.
pub record Disk (P : Type 0) : Type 0 where
  pub root : P
  pub resolve : RelativePath → P
  pub path_eq : P → P → Bool
  pub file_name : P → Option Text
  pub parent_name : P → Option Text
  pub with_file_name : P → Text → P
  pub display : P → Text
  pub size_of : P → Option ℕ
  pub reader : P → Option Reader
  pub files : Files
  pub is_dir : P → Bool
  pub read_dir : P → Option (List P)
  pub parts : P → Option (List Text)

abbrev pub kept_metadata : Outcome Metadata → Option Metadata
kept_metadata (ok m r) = some m
kept_metadata (fault words) = none

-- `Metadata::read(path).ok()`
unfoldable pub metadata_at : {P : Type 0} → Disk P → P → Option Metadata
metadata_at disk path = disk.reader path >>= λ opened. kept_metadata (fill disk.files opened)
