-- ===== src/Gguf/Tests.antt =====
-- A small header, read.
use maestro_llamacpp.Common.{All, ◌++◌, List, [], ◌∷◌, true, ◌≡◌, refl, arith}
use maestro_llamacpp.Common.Text.{codes}
use maestro_llamacpp.Gguf.{no_metadata, fill}
use maestro_llamacpp.Gguf.Reader.{Files, ok, width_of}
use maestro_llamacpp.Gguf.Writing.{IsPair, IsPair, Pair, text, scalar, scalars, write, all_say}
use maestro_llamacpp.Gguf.RoundTrip.{fill-write}

abbrev ascii_files : Files
ascii_files = record {
  from_utf8_lossy = λ bytes. bytes;
  may_pass = λ n. true;
  end_words = codes "failed to fill whole buffer";
  seek_words = codes "invalid seek";
}

abbrev three_pairs : List Pair
three_pairs =
    record { key = codes "general.architecture"; value = text (codes "gemma3") }
    ∷ record { key = codes "gemma3.block_count"; value = scalar 4 (34 ∷ 0 ∷ 0 ∷ 0 ∷ []) }
    ∷ record {
      key = codes "gemma3.attention.head_count_kv";
      value = scalars 0 ((4 ∷ []) ∷ (8 ∷ []) ∷ []);
    }
    ∷ []

three_pairs-IsPair : All (IsPair ascii_files) three_pairs
unfolding width_of codes
three_pairs-IsPair = (
  record { short_key = omega arith; value = omega arith },
  (
    record { short_key = omega arith; value = refl },
    (
      record {
        short_key = omega arith;
        value = (1, refl, (refl, (refl, tt)), omega arith, λ e. omega arith);
      },
      tt,
    ),
  ),
)

fill-write_example :
    fill ascii_files (record { rest = write 3 1 three_pairs ++ 7 ∷ []; past = 0 })
    ≡ ok (all_say ascii_files three_pairs no_metadata) (record { rest = 7 ∷ []; past = 0 })
fill-write_example =
    fill-write ascii_files 3 1 three_pairs (omega arith) (omega arith) (omega arith) (omega arith)
      three_pairs-IsPair (7 ∷ [])
