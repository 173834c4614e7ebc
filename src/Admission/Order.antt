-- ===== src/Admission/Order.antt =====
-- Whom an unloading decision of `Budget::admit` names, and in which order.
use mathlib.Core.List.{Mem, Perm}
use maestro_llamacpp.Common.{
  ℕ, ◌≤◌, true, false, Option, List, ◌∷◌, ◌++◌, ◌≡◌, ◌≢◌, ap, arith, All, All-imp, All-keep,
  All-keep_of_All, All-both, All-Mem, All-append_left, keep, IsSortedBy, IsSortedBy-append,
  IsSortedBy-append_left, sort_by_key-IsSortedBy, All-sort_by_key, sort_by_key-perm, sum_by,
  sum_by-append,
}
use maestro_llamacpp.Common.Text.{Text}
use maestro_llamacpp.Common.Text.Equality.{text_eq_iff}
use maestro_llamacpp.Catalog.{on_demand}
use maestro_llamacpp.Admission.Subject.{Loaded, Wanted}
use maestro_llamacpp.Admission.Room.{nothing_freed}
use maestro_llamacpp.Admission.Admit.{unload, admit, room_of, candidates, is_candidate}
use maestro_llamacpp.Admission.Choice.{admit-Unloads, leave, choose-append-leave, choose_minimal}
use maestro_llamacpp.Admission.Exact.{total_cost, total_device, InRange}
use maestro_llamacpp.Admission.Fits.{FitsWithout, short-none_iff}
use maestro_llamacpp.Admission.Taken.{ids_of, chosen_in, taken, chosen-le}

-- A loaded entry that the router may end: on-demand, with nobody reading from it, and another than
-- the entry that is asked for.
pub record MayEnd (loaded : List Loaded) (wanted : Wanted) (h : Loaded) : Type 0 where
  pub held : Mem h loaded
  pub evictable : h.residency ≡ on_demand
  pub idle : h.busy ≡ false
  pub other : h.id ≢ wanted.id

is_candidate-MayEnd :
    (loaded : List Loaded) (wanted : Wanted) (h : Loaded)
    → (is_candidate wanted h ≡ true) × Mem h loaded
    → MayEnd loaded wanted h
unfolding is_candidate
is_candidate-MayEnd loaded wanted h (e, m) = record {
  held = m;
  evictable = ground arith;
  idle = ground arith;
  other = λ p. ground (arith, text_eq_iff h.id wanted.id);
}

candidates-MayEnd :
    (loaded : List Loaded) (wanted : Wanted) → All (MayEnd loaded wanted) (candidates loaded wanted)
unfolding candidates
candidates-MayEnd loaded wanted =
    All-sort_by_key (λ h. h.last_used) (MayEnd loaded wanted) (keep (is_candidate wanted) loaded)
      (All-imp _ _ (is_candidate-MayEnd loaded wanted) (keep (is_candidate wanted) loaded) (
        All-both _ _ (keep (is_candidate wanted) loaded) (All-keep (is_candidate wanted) loaded)
          (All-keep_of_All (λ h. Mem h loaded) (is_candidate wanted) loaded (All-Mem loaded))))

taken-MayEnd :
    (limit : Option ℕ) (loaded : List Loaded) (wanted : Wanted) (free : Option ℕ)
    → All (MayEnd loaded wanted) (taken limit loaded wanted free)
unfolding chosen_in
taken-MayEnd limit loaded wanted free =
    let room = room_of limit loaded free in
    All-append_left (MayEnd loaded wanted) _
      (leave room wanted (candidates loaded wanted) nothing_freed)
      (rw choose-append-leave (candidates-MayEnd loaded wanted))

-- What stands behind a list of identifiers that are to be unloaded.
pub record ColdestFirst (limit : Option ℕ) (loaded : List Loaded) (wanted : Wanted)
    (free : Option ℕ) (ids : List Text) (ended left : List Loaded) : Type 0 where
  pub named : ids ≡ ids_of ended
  pub allowed : All (MayEnd loaded wanted) ended
  pub candidates : Perm (ended ++ left) (keep (is_candidate wanted) loaded)
  pub order : IsSortedBy (λ (h : Loaded). h.last_used) ended
  pub colder : All (λ h. All (λ k. h.last_used ≤ k.last_used) left) ended
  pub minimal :
      (front : List Loaded) (h : Loaded) (back : List Loaded)
      → ended ≡ front ++ h ∷ back
      → ¬ FitsWithout limit loaded wanted free front

module _ (limit : Option ℕ) (loaded : List Loaded) (wanted : Wanted) (free : Option ℕ) where
  abbrev ended : List Loaded
  ended = taken limit loaded wanted free

  abbrev left : List Loaded
  left = leave (room_of limit loaded free) wanted (candidates loaded wanted) nothing_freed

  ended-append-left : ended ++ left ≡ candidates loaded wanted
  unfolding chosen_in
  ended-append-left =
      choose-append-leave (room_of limit loaded free) wanted (candidates loaded wanted)
        nothing_freed

  sorted : IsSortedBy (λ (h : Loaded). h.last_used) (ended ++ left)
  unfolding candidates
  sorted = rw ended-append-left (sort_by_key-IsSortedBy _ (keep (is_candidate wanted) loaded))

  ended_minimal :
      InRange loaded wanted free
      → (front : List Loaded) (h : Loaded) (back : List Loaded) → ended ≡ front ++ h ∷ back
      → ¬ FitsWithout limit loaded wanted free front
  unfolding chosen_in sum_by
  ended_minimal r front h back e f =
      let room = room_of limit loaded free in
      choose_minimal room wanted (candidates loaded wanted) nothing_freed front h back e (
        (short-none_iff limit loaded wanted free r front
            (omega (
              arith,
              sum_by-append (λ (k : Loaded). k.cost_mib) front (h ∷ back),
              ap total_cost e,
              chosen-le (λ k. k.cost_mib) room wanted loaded,
            ))
            (omega (
              arith,
              sum_by-append (λ (k : Loaded). k.device_mib) front (h ∷ back),
              ap total_device e,
              chosen-le (λ k. k.device_mib) room wanted loaded,
            ))).1
          f)

-- If `admit` answers that the entries `ids` are to be unloaded, and no sum of its figures passes a
-- 64-bit word, then `ids` names, in order, a part of the loaded entries, each of them on-demand,
-- idle and not the wanted one. That part and the rest together are all such entries. It is in the
-- order of last use, no entry of it was used after one of the rest, and before each entry of it
-- the entries ahead alone would not have made room enough.
pub admit-unload-ColdestFirst :
    (limit : Option ℕ) (loaded : List Loaded) (wanted : Wanted) (free : Option ℕ) (ids : List Text)
    → InRange loaded wanted free
    → admit limit loaded wanted free ≡ unload ids
    → (ended : List Loaded) × (left : List Loaded) × ColdestFirst limit loaded wanted free ids ended
        left
unfolding candidates
admit-unload-ColdestFirst limit loaded wanted free ids r h =
    let u = admit-Unloads limit loaded wanted free ids h in
    (
      ended limit loaded wanted free,
      left limit loaded wanted free,
      record {
        named = unfold chosen_in in u.taken;
        allowed = taken-MayEnd limit loaded wanted free;
        candidates = rw ended-append-left (sort_by_key-perm _ (keep (is_candidate wanted) loaded));
        order = IsSortedBy-append_left _ _ _ (sorted limit loaded wanted free);
        colder = IsSortedBy-append _ _ _ (sorted limit loaded wanted free);
        minimal = ended_minimal limit loaded wanted free r;
      },
    )
