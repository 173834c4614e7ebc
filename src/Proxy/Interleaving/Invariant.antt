-- ===== src/Proxy/Interleaving/Invariant.antt =====
-- The invariant of the interleaved slots: what each phase of a start may rely on.

use maestro_llamacpp.Common.{
  ℕ, ◌+◌, ◌*◌, ◌≤◌, Bool, Option, none, some, List, [], ◌++◌, ◌≡◌, ◌≢◌, refl, sym, subst, arith,
  All, length, sum_by, inl, inr, Option-cases,
}
use maestro_llamacpp.Common.Text.{Text}
use maestro_llamacpp.Common.Word.{u32_max}
use maestro_llamacpp.Catalog.{Entry}
use maestro_llamacpp.Admission.Subject.{Loaded}
use maestro_llamacpp.Admission.Exact.{total_cost, IfSome, IfSome-mono}
use maestro_llamacpp.Admission.Taken.{without}
use maestro_llamacpp.Proxy.Child.{LoadedChild}
use maestro_llamacpp.Proxy.Slots.{Slots}
use maestro_llamacpp.Proxy.Interleaving.{Phase, unheld, viewing, unloading, starting, State}
use maestro_llamacpp.Proxy.Interleaving.Costs.{
  charge, SlotShrinks, Shrinks, charge_mono, max_mib, IsReadable,
}
use maestro_llamacpp.Proxy.Interleaving.Shrinking.{SlotShrinks-none}

-- The entry that is being started is in range, and nothing is in its slot.
pub record Vacant (slots : Slots) (e : Entry) : Type 0 where
  pub declared : e.memory_estimate_mib ≤ u32_max
  pub vacant : slots e.id ≡ none

-- What the snapshot has seen covers the slots that it has looked at.
pub record Views (entries : List Entry) (slots : Slots) (e : Entry) (seen : List Loaded)
    (rest : List Entry) : Type 0 where
  pub visited : List Entry
  pub split : visited ++ rest ≡ entries
  pub others : All (λ h. h.id ≢ e.id) seen
  pub covers : (ids : List Text) → charge slots ids visited ≤ total_cost (without ids seen)
  pub small : total_cost seen ≤ length visited * max_mib

module _ (limit : Option ℕ) (entries : List Entry) where
  -- The ledger's promise while the entries `ids` are still to go.
  abbrev pub Promise : Slots → Entry → List Text → Type 0
  Promise slots e ids = IfSome limit (λ l. charge slots ids entries + e.memory_estimate_mib ≤ l)

  abbrev pub PhaseInv : Slots → Phase → Type 0
  PhaseInv slots unheld = Unit
  PhaseInv slots (viewing e seen rest) = Vacant slots e × Views entries slots e seen rest
  PhaseInv slots (unloading e ids) = Vacant slots e × Promise slots e ids
  PhaseInv slots (starting e) = Vacant slots e × Promise slots e []

  pub record Inv (s : State) : Type 0 where
    pub readings : (id : Text) (c : LoadedChild) → s.slots id ≡ some c → IsReadable c.measured
    pub phase : PhaseInv s.slots s.phase

  pub Vacant-Shrinks :
      (before after : Slots) (e : Entry) → Shrinks before after → Vacant before e → Vacant after e
  Vacant-Shrinks before after e h v = record {
    declared = v.declared;
    vacant =
        SlotShrinks-none (after e.id) (subst (λ a. SlotShrinks a (after e.id)) v.vacant (h e.id));
  }

  pub PhaseInv-Shrinks :
      (before after : Slots) (p : Phase)
      → Shrinks before after
      → PhaseInv before p
      → PhaseInv after p
  PhaseInv-Shrinks before after unheld h i = tt
  PhaseInv-Shrinks before after (viewing e seen rest) h (v, w) = (
    Vacant-Shrinks before after e h v,
    record {
      visited = w.visited;
      split = w.split;
      others = w.others;
      covers = λ ids. omega (arith, charge_mono before after ids w.visited h, w.covers ids);
      small = w.small;
    },
  )
  PhaseInv-Shrinks before after (unloading e ids) h (v, w) = (
    Vacant-Shrinks before after e h v,
    IfSome-mono limit _ _ (λ l q. omega (arith, charge_mono before after ids entries h, q)) w,
  )
  PhaseInv-Shrinks before after (starting e) h (v, w) = (
    Vacant-Shrinks before after e h v,
    IfSome-mono limit _ _ (λ l q. omega (arith, charge_mono before after [] entries h, q)) w,
  )

  pub readings-Shrinks :
      (before after : Slots)
      → Shrinks before after
      → ((id : Text) (c : LoadedChild) → before id ≡ some c → IsReadable c.measured)
      → (id : Text) (c : LoadedChild) → after id ≡ some c
      → IsReadable c.measured
  readings-Shrinks before after h r id c e = elim (Option-cases (before id)) [
    | inl n ↦ absurd (rw (n, e) at (h id))
    | inr (a, n) ↦
        let same : SlotShrinks (some a) (some c) = rw (n, e) at (h id) in
        subst IsReadable (sym same.1) (r id a n)
  ]

  -- A step that only shrinks the slots, and leaves the phase.
  pub Inv-Shrinks :
      (s : State) (slots : Slots) (handles : List ℕ) (stopped : Bool)
      → Shrinks s.slots slots
      → Inv s
      → Inv (record s { slots = slots; handles = handles; stopped = stopped })
  Inv-Shrinks s slots handles stopped h i = record {
    readings = readings-Shrinks s.slots slots h i.readings;
    phase = PhaseInv-Shrinks s.slots slots s.phase h i.phase;
  }

  -- A snapshot that has looked at nothing yet.
  pub Views-start : (slots : Slots) (e : Entry) → Views entries slots e [] entries
  unfolding sum_by
  Views-start slots e = record {
    visited = [];
    split = refl;
    others = tt;
    covers = λ ids. omega arith;
    small = omega arith;
  }
