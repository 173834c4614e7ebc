-- ===== src/Catalog/Estimate/Served.antt =====
-- src/catalog/estimate/served.rs: what the flags say about the way an entry is served.
use maestro_llamacpp.Common.{Bool, not, ◌||◌, List, [], ◌∷◌, is_some_and}
use maestro_llamacpp.Common.Options.{find_map}
use maestro_llamacpp.Common.Text.{Text, codes, text_eq, trim, lowercase, contains_text}
use maestro_llamacpp.Catalog.{Flags, get_flag}

-- The flags that make a server embed or rank.
abbrev pub embedding_names : List Text
embedding_names = codes "embeddings" ∷ codes "embedding" ∷ codes "reranking" ∷ codes "rerank" ∷ []

abbrev pub layer_names : List Text
layer_names = codes "n-gpu-layers" ∷ codes "gpu-layers" ∷ codes "ngl" ∷ []

abbrev pub speculation_names : List Text
speculation_names = codes "spec-type" ∷ codes "speculative-type" ∷ []

-- The `matches!` of a flag's value.
unfoldable pub says_no : Text → Bool
says_no value =
    let word = lowercase (trim value) in text_eq word (codes "false") || text_eq word (codes "0")

unfoldable pub keeps_no_cache : Flags → Bool
keeps_no_cache flags =
    is_some_and (find_map (λ name. get_flag name flags) embedding_names)
      (λ value. not (says_no value))

unfoldable pub runs_on_processor : Flags → Bool
runs_on_processor flags =
    is_some_and (find_map (λ name. get_flag name flags) layer_names)
      (λ value. text_eq (trim value) (codes "0"))

unfoldable pub predicts_tokens : Flags → Bool
predicts_tokens flags =
    is_some_and (find_map (λ name. get_flag name flags) speculation_names)
      (λ spelling. contains_text (lowercase (trim spelling)) (codes "mtp"))
