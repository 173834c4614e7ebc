-- ===== src/Admission/Ledger.antt =====
-- The ledger after a decision of `Budget::admit`, whatever the device holds.
use maestro_llamacpp.Common.{
  ℕ, ◌+◌, ◌≤◌, ◌<◌, false, Option, none, List, [], ◌≡◌, sym, subst, arith, sum_by,
}
use maestro_llamacpp.Common.Text.{Text}
use maestro_llamacpp.Common.Word.{u64_mod}
use maestro_llamacpp.Admission.Subject.{Loaded, Wanted}
use maestro_llamacpp.Admission.Room.{nothing_freed, short}
use maestro_llamacpp.Admission.Admit.{
  fits, unload, admit, admit_in, decide, already_loaded, room_of,
}
use maestro_llamacpp.Admission.Choice.{choose-freed_by, admit-Unloads}
use maestro_llamacpp.Admission.Exact.{total_cost, IfSome, IfSome-mono}
use maestro_llamacpp.Admission.Fits.{short-none-ledger}
use maestro_llamacpp.Admission.Taken.{without, chosen_in, chosen-le, chosen-without}

module _ (limit : Option ℕ) (loaded : List Loaded) (wanted : Wanted) (free : Option ℕ)
    (in_range : total_cost loaded + wanted.cost_mib < u64_mod) where
  admit-fits-short :
      already_loaded loaded wanted ≡ false
      → admit limit loaded wanted free ≡ fits
      → short (room_of limit loaded free) wanted nothing_freed ≡ none
  unfolding admit admit_in decide
  admit-fits-short absent h = ground arith

  -- An entry that is not loaded and is said to fit keeps within the limit.
  pub admit-fits-ledger :
      already_loaded loaded wanted ≡ false
      → admit limit loaded wanted free ≡ fits
      → IfSome limit (λ l. total_cost loaded + wanted.cost_mib ≤ l)
  unfolding sum_by
  admit-fits-ledger absent h =
      IfSome-mono limit _ _ (λ l q. omega (arith, q))
        (short-none-ledger limit loaded wanted free [] in_range (omega arith)
          (admit-fits-short absent h))

  pub admit-unload-ledger :
      (ids : List Text)
      → admit limit loaded wanted free ≡ unload ids
      → IfSome limit (λ l. total_cost (without ids loaded) + wanted.cost_mib ≤ l)
  unfolding chosen_in
  admit-unload-ledger ids h =
      let u = admit-Unloads limit loaded wanted free ids h in
      let room = room_of limit loaded free in
      let taken = chosen_in room wanted loaded in
      subst
        (λ (is : List Text).
          IfSome limit (λ l. total_cost (without is loaded) + wanted.cost_mib ≤ l))
        (sym u.taken)
        (IfSome-mono limit _ _
          (λ l q. omega (arith, chosen-without (λ h. h.cost_mib) room wanted loaded, q))
          (short-none-ledger limit loaded wanted free taken in_range
            (chosen-le (λ h. h.cost_mib) room wanted loaded) (rw choose-freed_by at u.enough)))
