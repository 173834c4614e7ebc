-- ===== src/Bench.antt =====
-- src/bench.rs, src/bench/rate.rs: what a measurement recommends, which endpoint an entry is measured on, and what its reply holds.
pub mod Modes
pub mod Margin
mod Report
mod Tests
use maestro_llamacpp.Common.{
  ℕ, ◌+◌, ◌*◌, ◌/◌, ◌%◌, ◌^◌, Bool, true, false, not, ◌||◌, Option, none, some, List, [], ◌∷◌,
  is_some_and, if◌then◌else◌,
}
use maestro_llamacpp.Common.Options.{◌>>=◌}
use maestro_llamacpp.Common.Text.{Text, codes, split_once_text}
use maestro_llamacpp.Catalog.{Flags, get_flag}
use maestro_llamacpp.Catalog.Estimate.Served.{says_no}

pub data Answers : Type 0 where
  completions embeddings reranking : Answers

-- The closure `set`: a flag that is there and does not say no.
unfoldable pub is_set : Flags → Text → Bool
is_set flags name = is_some_and (get_flag name flags) (λ value. not (says_no value))

unfoldable pub answers : Flags → Answers
answers flags =
    if is_set flags (codes "reranking") || is_set flags (codes "rerank")
    then reranking
    else if is_set flags (codes "embeddings") || is_set flags (codes "embedding")
    then embeddings
    else completions

-- What followed the blank line.
unfoldable pub body_of : Text → Option Text
body_of reply = split_once_text (13 ∷ 10 ∷ 13 ∷ 10 ∷ []) reply >>= λ (head, body). some body

-- What a measurement supports: a twentieth over it, to a quarter gibibyte. Each operation wraps
-- as those of a `u32` do.
unfoldable pub recommended_mib : Option ℕ → Option ℕ
recommended_mib measured_mib = measured_mib >>= λ measured.
    let with_room = (measured + measured / 20) % 2 ^ 32 in
    some (((with_room + 255) / 256 * 256) % 2 ^ 32)
