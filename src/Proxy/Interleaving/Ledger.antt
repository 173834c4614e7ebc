-- ===== src/Proxy/Interleaving/Ledger.antt =====
-- The budget holds at every start, however requests, sweeps and stops interleave.
use mathlib.Core.List.{Mem}
use native.Mathlib.Bridge.{le_prop}
use maestro_llamacpp.Common.{
  ℕ, ◌+◌, ◌^◌, ◌≤◌, true, Option, none, some, List, [], ◌∷◌, ◌++◌, ◌≡◌, refl, sym, subst, ◌∙◌,
  arith, any, All, All-append_right, All-at, keep, length, sum_by, inl, inr, Option-cases,
  Bool-cases,
}
use maestro_llamacpp.Common.Text.{Text, text_eq, mem_text}
use maestro_llamacpp.Common.Word.{u32_max}
use maestro_llamacpp.Catalog.{Entry}
use maestro_llamacpp.Memory.{Measurement}
use maestro_llamacpp.Admission.Subject.{Loaded}
use maestro_llamacpp.Admission.Exact.{total_cost, IfSome, IfSome-mono}
use maestro_llamacpp.Admission.Taken.{without}
use maestro_llamacpp.Proxy.Child.{LoadedChild, Slot, Liveness, live_child}
use maestro_llamacpp.Proxy.Slots.{Slots, set_slot, held, seen_one}
use maestro_llamacpp.Proxy.Interleaving.{
  Phase, unheld, viewing, starting, State, run_slot, put_slot, in_phase, started, Step, serves,
  finishes, touches, reaps, expires, stops, begins, views, decides, unloads, unloaded, starts,
  gives_up, Reach, here, next,
}
use maestro_llamacpp.Proxy.Interleaving.Costs.{cost_in-le, held-charge, SlotShrinks, IsReadable}
use maestro_llamacpp.Proxy.Interleaving.Shrinking.{
  live_child-SlotShrinks, take_if_idle-SlotShrinks, take_if_exited-SlotShrinks, touched-SlotShrinks,
  set_slot-Shrinks, set_slot_self, live_child-unhanded,
}
use maestro_llamacpp.Proxy.Interleaving.Deciding.{decided, Views-next, unloads-phase}
use maestro_llamacpp.Proxy.Interleaving.Invariant.{PhaseInv, Inv, Inv-Shrinks, Views-start}

-- Leaving nothing out.
without-nil : (hs : List Loaded) → total_cost (without [] hs) ≡ total_cost hs
unfolding keep sum_by mem_text any
without-nil [] = refl
without-nil (h ∷ hs) = omega (arith, without-nil hs)

abbrev IsReadableSlot : Slot → Type 0
IsReadableSlot none = Unit
IsReadableSlot (some c) = IsReadable c.measured

set_slot-readable :
    (slots : Slots) (id : Text) (slot : Slot)
    → IsReadableSlot slot
    → ((j : Text) (c : LoadedChild) → slots j ≡ some c → IsReadable c.measured)
    → (j : Text) → IsReadableSlot (set_slot slots id slot j)
unfolding set_slot
set_slot-readable slots id slot h r j = elim (Bool-cases (text_eq id j)) [
  | inl e ↦ rw e h
  | inr e ↦ rw e (elim (Option-cases (slots j)) [ inl n ↦ rw n tt | inr (c, n) ↦ rw n (r j c n) ])
]

module _ (limit : Option ℕ) (entries : List Entry) (measure_of : ℕ → Measurement)
    (few : length entries ≤ 2 ^ 20) (declared : All (λ x. x.memory_estimate_mib ≤ u32_max) entries)
    (readable : (c : ℕ) → IsReadable (measure_of c)) where
  declared_at : (e : Entry) → Mem e entries → e.memory_estimate_mib ≤ u32_max
  declared_at e m = All-at (λ x. x.memory_estimate_mib ≤ u32_max) (λ x. le_prop) entries declared m

  declared_next :
      (x : Entry) (visited rest : List Entry)
      → visited ++ x ∷ rest ≡ entries
      → x.memory_estimate_mib ≤ u32_max
  declared_next x visited rest split =
      (All-append_right _ visited (x ∷ rest)
        (subst (All (λ y. y.memory_estimate_mib ≤ u32_max)) (sym split) declared)).0

  run_slot-Inv :
      (s : State) (id : Text) (check : ℕ → Liveness) (now : ℕ)
      → Inv limit entries s
      → Inv limit entries (run_slot s id check now)
  unfolding run_slot
  run_slot-Inv s id check now i =
      Inv-Shrinks limit entries s _ _ s.stopped
        (set_slot-Shrinks s.slots id _ (live_child-SlotShrinks s.handles check now (s.slots id))) i

  put_slot-Inv :
      (s : State) (id : Text) (slot : Slot)
      → SlotShrinks (s.slots id) slot
      → Inv limit entries s
      → Inv limit entries (put_slot s id slot)
  put_slot-Inv s id slot h i =
      Inv-Shrinks limit entries s _ s.handles s.stopped (set_slot-Shrinks s.slots id slot h) i

  in_phase-Inv :
      (s : State) (p : Phase)
      → Inv limit entries s
      → PhaseInv limit entries s.slots p
      → Inv limit entries (in_phase s p)
  in_phase-Inv s p i h = record { readings = i.readings; phase = h }

  begins-Vacant :
      (s : State) (e : Entry) (check : ℕ → Liveness) (now : ℕ)
      → (live_child s.handles check now (s.slots e.id)).handed ≡ none
      → (run_slot s e.id check now).slots e.id ≡ none
  unfolding run_slot
  begins-Vacant s e check now h =
      set_slot_self s.slots e.id _ ∙ live_child-unhanded s.handles check now (s.slots e.id) h

  started-Inv :
      (s : State) (e : Entry) (now : ℕ)
      → Inv limit entries s
      → Inv limit entries (started measure_of s e now)
  unfolding started
  started-Inv s e now i = record {
    readings = λ id c q.
        subst IsReadableSlot q
          (set_slot-readable s.slots e.id _ (readable s.next_child) i.readings id);
    phase = tt;
  }

  Step-Inv :
      {s t : State} → Step limit entries measure_of s t → Inv limit entries s → Inv limit entries t
  Step-Inv {s} (serves id check now q) i =
      subst (Inv limit entries) (sym q) (run_slot-Inv s id check now i)
  Step-Inv {s} (finishes child q) i =
      subst (Inv limit entries) (sym q) (record { readings = i.readings; phase = i.phase })
  Step-Inv {s} (touches id now q) i =
      subst (Inv limit entries) (sym q)
        (put_slot-Inv s id _ (touched-SlotShrinks now (s.slots id)) i)
  Step-Inv {s} (reaps id check q) i =
      subst (Inv limit entries) (sym q)
        (put_slot-Inv s id _ (take_if_exited-SlotShrinks s.handles check (s.slots id)) i)
  Step-Inv {s} (expires id also q) i =
      subst (Inv limit entries) (sym q)
        (put_slot-Inv s id _ (take_if_idle-SlotShrinks s.handles also (s.slots id)) i)
  Step-Inv {s} (stops id q) i =
      subst (Inv limit entries) (sym q)
        (Inv-Shrinks limit entries s _ s.handles true (set_slot-Shrinks s.slots id none tt) i)
  Step-Inv {s} (begins e check now m p h q) i = subst (Inv limit entries) (sym q) (
      in_phase-Inv (run_slot s e.id check now) (viewing e [] entries)
        (run_slot-Inv s e.id check now i)
        (
          record { declared = declared_at e m; vacant = begins-Vacant s e check now h },
          Views-start limit entries (run_slot s e.id check now).slots e,
        ))
  Step-Inv {s} (views e seen x rest p q) i =
      let (v, w) : PhaseInv limit entries s.slots (viewing e seen (x ∷ rest)) = rw p at i.phase in
      subst (Inv limit entries) (sym q) (
        in_phase-Inv s (viewing e (seen ++ seen_one (s.slots x.id) s.handles x) rest) i (
          v,
          Views-next limit entries few s.slots s.handles e seen x rest
              (λ c r.
                cost_in-le x c.measured (declared_next x w.visited rest w.split)
                  (i.readings x.id c r))
              v.vacant w,
        ))
  Step-Inv {s} (decides e seen free p q) i =
      let now_at : PhaseInv limit entries s.slots (viewing e seen []) = rw p at i.phase in
      subst (Inv limit entries) (sym q) (
        in_phase-Inv s _ i (decided limit entries few s.slots e seen free now_at.0 now_at.1 _ refl))
  Step-Inv {s} (unloads e id ids p q) i = subst (Inv limit entries) (sym q) (
      in_phase-Inv _ _
        (put_slot-Inv s id _ (take_if_idle-SlotShrinks s.handles (λ held. true) (s.slots id)) i)
        (unloads-phase limit entries few s e id ids i p))
  Step-Inv {s} (unloaded e p q) i =
      subst (Inv limit entries) (sym q) (in_phase-Inv s (starting e) i (rw p at i.phase))
  Step-Inv {s} (starts e now p q) i = subst (Inv limit entries) (sym q) (started-Inv s e now i)
  Step-Inv {s} (gives_up q) i = subst (Inv limit entries) (sym q) (in_phase-Inv s unheld i tt)

  Reach-Inv : {s : State} → Reach limit entries measure_of s → Inv limit entries s
  Reach-Inv here = record { readings = λ id c q. absurd (cc); phase = tt }
  Reach-Inv (next r st) = Step-Inv st (Reach-Inv r)

  -- Whatever requests, readers, sweeps and stops do in between, and in whatever order: when the
  -- holder of the admission lock comes to start an entry, nothing is in that entry's slot, and
  -- under a limit the exact cost of all that is loaded and the entry's estimate keep within it.
  -- It is assumed that the catalog has at most 2^20 entries, that every estimate fits 32 bits, and
  -- that no child is measured at more than 2^40 MiB.
  pub starting-within_limit :
      (s : State) (e : Entry)
      → Reach limit entries measure_of s
      → s.phase ≡ starting e
      → (s.slots e.id ≡ none)
        × IfSome limit
            (λ l. total_cost (held s.slots s.handles entries) + e.memory_estimate_mib ≤ l)
  starting-within_limit s e r p =
      let i = Reach-Inv r in
      let now_at : PhaseInv limit entries s.slots (starting e) = rw p at i.phase in
      (
        now_at.0.vacant,
        IfSome-mono limit _ _
            (λ l q. omega (
              arith,
              held-charge s.slots s.handles [] entries,
              without-nil (held s.slots s.handles entries),
              q,
            ))
            now_at.1,
      )
