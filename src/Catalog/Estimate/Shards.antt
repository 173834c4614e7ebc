-- ===== src/Catalog/Estimate/Shards.antt =====
-- src/catalog/estimate.rs: a shard's place in a split model, read from its name.
use maestro_llamacpp.Common.{
  ℕ, zero, suc, ◌-◌, Bool, true, ◌&&◌, not, Option, none, some, [], ◌∷◌, ◌++◌, ◌==◌, length,
  if◌then◌else◌,
}
use maestro_llamacpp.Common.Options.{◌>>=◌}
use maestro_llamacpp.Common.Text.{
  Text, codes, is_digit, rsplit_once, rsplit_once_text, parse_unsigned, show,
}

pub record Shard : Type 0 where
  pub stem : Text
  pub index : ℕ
  pub total : Text
  pub extension : Text

-- `bytes().all(is_ascii_digit)`
unfoldable pub all_digits : Text → Bool
all_digits [] = true
all_digits (c ∷ s) = is_digit c && all_digits s

unfoldable pub counts_with : Text → Text → Bool
counts_with total index =
    not (length total == 0)
    && all_digits total
    && (length index == length total)
    && all_digits index

unfoldable pub shard_of : Text → Option Shard
shard_of name = do
  (rest, extension) ← rsplit_once b'.' name
  (head, total) ← rsplit_once_text (codes "-of-") rest
  (stem, index) ← rsplit_once b'-' head
  place ← if counts_with total index then parse_unsigned 64 index else none
  some (record { stem = stem; index = place; total = total; extension = extension })

abbrev pub zeros : ℕ → Text
zeros zero = []
zeros (suc n) = b'0' ∷ zeros n

-- `{index:0width$}`
abbrev pub padded : ℕ → ℕ → Text
padded width index = let digits = show index in zeros (width - length digits) ++ digits

unfoldable pub sibling_name : Shard → ℕ → Text
sibling_name shard index =
    shard.stem
    ++ codes "-"
    ++ padded (length shard.total) index
    ++ codes "-of-"
    ++ shard.total
    ++ codes "."
    ++ shard.extension
