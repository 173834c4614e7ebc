-- ===== src/Admission/Taken.antt =====
-- The entries that the loop of `Budget::admit` takes, and those that are named by their identifiers.
use maestro_llamacpp.Common.{
  ℕ, ◌+◌, ◌≤◌, Bool, true, not, Option, none, List, [], ◌∷◌, map, ◌≡◌, ◌↔◌, ap, arith, All, All-imp,
  any, keep, sum_by, sum_by-append, sum_by-keep_le, sum_by-keep-not, sum_by-keep, sum_by-All,
  sum_by-sort_by_key, if◌then◌else◌,
}
use maestro_llamacpp.Common.Text.{Text, mem_text}
use maestro_llamacpp.Common.Text.Equality.{text_eq_refl}
use maestro_llamacpp.Admission.Subject.{Loaded, Wanted}
use maestro_llamacpp.Admission.Room.{Room, nothing_freed, short}
use maestro_llamacpp.Admission.Admit.{choose, candidates, is_candidate, room_of}
use maestro_llamacpp.Admission.Choice.{choose-freed_by, leave, choose-append-leave}
use maestro_llamacpp.Admission.Fits.{FitsWithout, short-none_iff}
use maestro_llamacpp.Admission.Exact.{InRange}

abbrev pub named_in : List Text → Loaded → Bool
named_in ids h = mem_text h.id ids

-- What stays loaded once the named entries are unloaded, and what is unloaded.
abbrev pub without : List Text → List Loaded → List Loaded
without ids = keep (λ h. not (named_in ids h))

abbrev pub only : List Text → List Loaded → List Loaded
only ids = keep (named_in ids)

abbrev pub ids_of : List Loaded → List Text
ids_of = map (λ (h : Loaded). h.id)

named_in-cons :
    (id : Text) (ids : List Text) (hs : List Loaded)
    → All (λ h. named_in ids h ≡ true) hs
    → All (λ h. named_in (id ∷ ids) h ≡ true) hs
unfolding mem_text any
named_in-cons id ids hs =
    All-imp (λ h. named_in ids h ≡ true) (λ h. named_in (id ∷ ids) h ≡ true) (λ h e. ground arith)
      hs

-- Every entry of a list is named among its identifiers.
named_in_self : (hs : List Loaded) → All (λ h. named_in (ids_of hs) h ≡ true) hs
named_in_self [] = tt
named_in_self (h ∷ hs) = (
  unfold mem_text any in ground (arith, text_eq_refl h.id),
  named_in-cons h.id (ids_of hs) hs (named_in_self hs),
)

unfoldable pub chosen_in : Room → Wanted → List Loaded → List Loaded
chosen_in room wanted loaded = (choose room wanted (candidates loaded wanted) nothing_freed).1

module _ (f : Loaded → ℕ) (room : Room) (wanted : Wanted) (loaded : List Loaded) where
  abbrev pub chosen : List Loaded
  chosen = chosen_in room wanted loaded

  -- What the loop takes is among what is loaded under the names that it gives.
  pub chosen-le-only : sum_by f chosen ≤ sum_by f (only (ids_of chosen) loaded)
  unfolding chosen_in candidates
  chosen-le-only =
      let ids = ids_of chosen in
      let g : Loaded → ℕ = λ h. if named_in ids h then f h else 0 in
      let cs = candidates loaded wanted in
      omega (
        arith,
        sum_by-keep f (named_in ids) loaded,
        sum_by-keep_le g (is_candidate wanted) loaded,
        sum_by-sort_by_key (λ h. h.last_used) g (keep (is_candidate wanted) loaded),
        sum_by-append g chosen (leave room wanted cs nothing_freed),
        ap (sum_by g) (choose-append-leave room wanted cs nothing_freed),
        sum_by-All f (named_in ids) chosen (named_in_self chosen),
      )

  pub chosen-le : sum_by f chosen ≤ sum_by f loaded
  chosen-le = omega (arith, chosen-le-only, sum_by-keep_le f (named_in (ids_of chosen)) loaded)

  pub chosen-without : sum_by f chosen + sum_by f (without (ids_of chosen) loaded) ≤ sum_by f loaded
  chosen-without =
      omega (arith, chosen-le-only, sum_by-keep-not f (named_in (ids_of chosen)) loaded)

abbrev pub taken : Option ℕ → List Loaded → Wanted → Option ℕ → List Loaded
taken limit loaded wanted free = chosen_in (room_of limit loaded free) wanted loaded

-- The code's test after the loop is the exact question about what the loop took.
module _ (limit : Option ℕ) (loaded : List Loaded) (wanted : Wanted) (free : Option ℕ)
    (r : InRange loaded wanted free) where
  abbrev room : Room
  room = room_of limit loaded free

  pub short-choose_iff :
      (short room wanted (choose room wanted (candidates loaded wanted) nothing_freed).0 ≡ none)
      ↔ FitsWithout limit loaded wanted free (taken limit loaded wanted free)
  unfolding chosen_in
  short-choose_iff = rw (choose-freed_by room wanted (candidates loaded wanted) nothing_freed) (
      short-none_iff limit loaded wanted free r (taken limit loaded wanted free)
        (chosen-le (λ h. h.cost_mib) room wanted loaded)
        (chosen-le (λ h. h.device_mib) room wanted loaded))
