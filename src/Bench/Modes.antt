-- ===== src/Bench/Modes.antt =====
-- src/bench/rate.rs beside src/catalog/capability.rs: which entries are measured as generators.
use maestro_llamacpp.Common.{
  Bool, true, false, not, ◌||◌, [], ◌∷◌, ◌≡◌, ◌↔◌, refl, any, filter_map, is_some_and, Option-cases,
  inl, inr, arith, if◌then◌else◌, List, Option,
}
use maestro_llamacpp.Common.Text.{Text, codes}
use maestro_llamacpp.Catalog.{Entry, get_flag}
use maestro_llamacpp.Catalog.Estimate.Served.{says_no}
use maestro_llamacpp.Catalog.Capability.{generates}
use maestro_llamacpp.Bench.{Answers, completions, embeddings, reranking, is_set, answers}

-- A value among those that are found passes a test, one name at a time.
any-filter_map_cons :
    {A B : Type 0} (f : A → Option B) (p : B → Bool) (x : A) (xs : List A)
    → any p (filter_map f (x ∷ xs)) ≡ (is_some_and (f x) p || any p (filter_map f xs))
unfolding any filter_map
any-filter_map_cons f p x xs = elim (Option-cases (f x)) [
  | inl e ↦ rw (e, filter_map) refl
  | inr (b, e) ↦ rw (e, filter_map) refl
]

abbrev chosen : Bool → Bool → Answers
chosen r e = if r then reranking else if e then embeddings else completions

chosen_iff :
    (a b c d : Bool)
    → (chosen (c || d) (a || b) ≡ completions) ↔ (not (a || (b || (c || (d || false)))) ≡ true)
chosen_iff a b c d = ground arith

-- The entries that the bench measures by the tokens that they generate are those that the catalog
-- offers as generating text.
pub answers-generates : (e : Entry) → (answers e.flags ≡ completions) ↔ (generates e ≡ true)
unfolding answers generates is_set any filter_map
answers-generates e =
    let found = λ (name : Text). get_flag name e.flags in
    let passes = λ (value : Text). not (says_no value) in
    let set = λ (name : Text). is_set e.flags name in
    rw
      (
        any-filter_map_cons found passes (codes "embeddings")
            (codes "embedding" ∷ codes "reranking" ∷ codes "rerank" ∷ []),
        any-filter_map_cons found passes (codes "embedding")
            (codes "reranking" ∷ codes "rerank" ∷ []),
        any-filter_map_cons found passes (codes "reranking") (codes "rerank" ∷ []),
        any-filter_map_cons found passes (codes "rerank") [],
      )
      (chosen_iff (set (codes "embeddings")) (set (codes "embedding")) (set (codes "reranking"))
        (set (codes "rerank")))
