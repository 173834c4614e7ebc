-- ===== src/Catalog/Read/Merging.antt =====
-- A map of flags and what is put into it: src/catalog/read.rs.
use maestro_llamacpp.Common.{Bool, true, false, ◌&&◌, ◌||◌, [], ◌∷◌, ltb, ◌==◌, if◌then◌else◌}
use maestro_llamacpp.Common.Text.{Text, text_eq}
use maestro_llamacpp.Catalog.{Flags}

-- The order of a map's keys.
unfoldable pub text_lt : Text → Text → Bool
text_lt [] [] = false
text_lt [] (d ∷ t) = true
text_lt (c ∷ s) [] = false
text_lt (c ∷ s) (d ∷ t) = ltb c d || (c == d && text_lt s t)

-- `BTreeMap::insert`
unfoldable pub insert_flag : Text → Text → Flags → Flags
insert_flag key value [] = (key, value) ∷ []
insert_flag key value ((j, w) ∷ m) =
    let rest = insert_flag key value m in
    if text_eq key j
    then (key, value) ∷ m
    else if text_lt key j
    then (key, value) ∷ (j, w) ∷ m
    else (j, w) ∷ rest

-- `BTreeMap::extend` by a map, whose keys differ, so their order does not matter.
unfoldable pub extend_flags : Flags → Flags → Flags
extend_flags m [] = m
extend_flags m ((key, value) ∷ own) = insert_flag key value (extend_flags m own)
