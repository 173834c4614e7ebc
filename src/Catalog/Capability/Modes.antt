-- ===== src/Catalog/Capability/Modes.antt =====
-- src/catalog/capability.rs beside src/catalog/estimate/served.rs: what their readings of the same
-- flags have in common.
use mathlib.Core.Logic.{inl, inr}
use maestro_llamacpp.Common.{
  Bool, true, false, not, Option, List, [], ◌∷◌, refl, any, filter_map, is_some_and, ◌≡◌, arith,
  Option-cases,
}
use maestro_llamacpp.Common.Options.{find_map}
use maestro_llamacpp.Catalog.{Entry, get_flag}
use maestro_llamacpp.Catalog.Estimate.Served.{embedding_names, says_no, keeps_no_cache}
use maestro_llamacpp.Catalog.Capability.{generates}

-- What the first value found passes, some value passes.
any-filter_map :
    {A B : Type 0} (f : A → Option B) (p : B → Bool) (xs : List A)
    → is_some_and (find_map f xs) p ≡ true
    → any p (filter_map f xs) ≡ true
unfolding any filter_map find_map
any-filter_map f p [] h = cc
any-filter_map f p (x ∷ xs) h = elim (Option-cases (f x)) [
  | inl e ↦ rw (e, filter_map) (any-filter_map f p xs (rw (e, find_map) at h))
  | inr (b, e) ↦
      let passes : p b ≡ true = rw (e, find_map) at h in rw (e, filter_map) (ground arith)
]

-- An entry that the estimate charges no cache for is not offered as one that generates text.
pub keeps_no_cache-generates :
    (entry : Entry) → keeps_no_cache entry.flags ≡ true → generates entry ≡ false
unfolding keeps_no_cache generates
keeps_no_cache-generates entry h =
    rw
      (any-filter_map (λ name. get_flag name entry.flags) (λ value. not (says_no value))
        embedding_names h)
      refl
