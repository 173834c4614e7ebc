-- ===== src/Admission/MakesRoom.antt =====
-- An unloading decision of `Budget::admit` makes the room that the wanted entry needs.
use maestro_llamacpp.Common.{ℕ, ◌+◌, ◌≤◌, Option, List, ◌≡◌, sym, subst, arith}
use maestro_llamacpp.Common.Text.{Text}
use maestro_llamacpp.Admission.Subject.{Loaded, Wanted}
use maestro_llamacpp.Admission.Admit.{unload, admit, room_of}
use maestro_llamacpp.Admission.Choice.{admit-Unloads}
use maestro_llamacpp.Admission.Exact.{total_cost, total_device, InRange, IfSome, IfSome-mono}
use maestro_llamacpp.Admission.Fits.{FitsWithout}
use maestro_llamacpp.Admission.Taken.{
  without, only, ids_of, chosen-without, chosen-le-only, taken, short-choose_iff, chosen_in,
}

-- What the device has once the named entries are gone, and what the ledger holds.
pub record MakesRoom (limit : Option ℕ) (loaded : List Loaded) (wanted : Wanted) (free : Option ℕ)
    (ids : List Text) : Type 0 where
  pub ledger : IfSome limit (λ l. total_cost (without ids loaded) + wanted.cost_mib ≤ l)
  pub device : IfSome free (λ d. wanted.device_mib ≤ d + total_device (only ids loaded))

FitsWithout-MakesRoom :
    (limit : Option ℕ) (loaded : List Loaded) (wanted : Wanted) (free : Option ℕ)
    → FitsWithout limit loaded wanted free (taken limit loaded wanted free)
    → MakesRoom limit loaded wanted free (ids_of (taken limit loaded wanted free))
FitsWithout-MakesRoom limit loaded wanted free f =
    let room = room_of limit loaded free in
    record {
      ledger =
          IfSome-mono limit _ _
            (λ l q. omega (arith, chosen-without (λ h. h.cost_mib) room wanted loaded, q)) f.ledger;
      device =
          IfSome-mono free _ _
            (λ d q. omega (arith, chosen-le-only (λ h. h.device_mib) room wanted loaded, q))
            f.device;
    }

-- If `admit` answers that the entries `ids` are to be unloaded, and no sum of its figures passes a
-- 64-bit word, then without every entry named in `ids` the exact cost of what stays loaded and the
-- wanted entry together keep within the limit, where there is one, and what the device has free
-- with what those entries hold there is enough for the wanted entry, where the device can be asked.
pub admit-unload-MakesRoom :
    (limit : Option ℕ) (loaded : List Loaded) (wanted : Wanted) (free : Option ℕ) (ids : List Text)
    → InRange loaded wanted free
    → admit limit loaded wanted free ≡ unload ids
    → MakesRoom limit loaded wanted free ids
unfolding chosen_in
admit-unload-MakesRoom limit loaded wanted free ids r h =
    let u = admit-Unloads limit loaded wanted free ids h in
    subst (MakesRoom limit loaded wanted free) (sym u.taken) (
      FitsWithout-MakesRoom limit loaded wanted free
        ((short-choose_iff limit loaded wanted free r).0 u.enough))
