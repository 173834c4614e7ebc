-- ===== src/Proxy/Interleaving/InUse.antt =====
-- Every child in use stays in its slot, on every path of src/proxy/slots.

use maestro_llamacpp.Common.{
  ℕ, true, false, Option, none, some, List, [], ◌≡◌, refl, sym, subst, ◌∙◌,
}
use maestro_llamacpp.Common.Text.{Text}
use maestro_llamacpp.Catalog.{Entry}
use maestro_llamacpp.Memory.{Measurement}
use maestro_llamacpp.Admission.Admit.{Decision, fits, unload, blocked, refuse}
use maestro_llamacpp.Proxy.Child.{
  LoadedChild, Slot, Liveness, live_child, Take, taken, busy_child, empty, take_if_idle,
}
use maestro_llamacpp.Proxy.Slots.{Slots}
use maestro_llamacpp.Proxy.Interleaving.{
  Phase, unheld, viewing, unloading, starting, State, hand_out, run_slot, put_slot, in_phase,
  after_decision, after_take, started, Step, serves, finishes, touches, reaps, expires, stops,
  begins, views, decides, unloads, unloaded, starts, gives_up, Reach, here, next,
}
use maestro_llamacpp.Proxy.Interleaving.Costs.{SlotShrinks, Shrinks}
use maestro_llamacpp.Proxy.Interleaving.Shrinking.{
  SlotShrinks-none, live_child-SlotShrinks, take_if_idle-SlotShrinks, take_if_exited-SlotShrinks,
  touched-SlotShrinks, set_slot-Shrinks, set_slot_self, live_child-unhanded,
}
use maestro_llamacpp.Proxy.Interleaving.Accounting.{
  InSlot, Accounted, Keeps, set_slot-Accounted, take_if_idle-Keeps, live_child-Keeps,
  take_if_exited-Keeps, touched-Keeps, handed-InSlot, All-drop_handle,
}

abbrev pub IsVacantFor : Slots → Phase → Type 0
IsVacantFor slots unheld = Unit
IsVacantFor slots (viewing e seen rest) = slots e.id ≡ none
IsVacantFor slots (unloading e ids) = slots e.id ≡ none
IsVacantFor slots (starting e) = slots e.id ≡ none

none-Shrinks :
    (before after : Slots) (e : Entry)
    → Shrinks before after
    → before e.id ≡ none
    → after e.id ≡ none
none-Shrinks before after e h q =
    SlotShrinks-none (after e.id) (subst (λ a. SlotShrinks a (after e.id)) q (h e.id))

IsVacantFor-Shrinks :
    (before after : Slots) (p : Phase)
    → Shrinks before after
    → IsVacantFor before p
    → IsVacantFor after p
IsVacantFor-Shrinks before after unheld h v = tt
IsVacantFor-Shrinks before after (viewing e seen rest) h v = none-Shrinks before after e h v
IsVacantFor-Shrinks before after (unloading e ids) h v = none-Shrinks before after e h v
IsVacantFor-Shrinks before after (starting e) h v = none-Shrinks before after e h v

after_decision-IsVacantFor :
    (slots : Slots) (entries : List Entry) (e : Entry) (d : Decision)
    → slots e.id ≡ none
    → IsVacantFor slots (after_decision entries e d)
unfolding after_decision
after_decision-IsVacantFor slots entries e fits v = v
after_decision-IsVacantFor slots entries e (unload ids) v = v
after_decision-IsVacantFor slots entries e (blocked m) v = v
after_decision-IsVacantFor slots entries e (refuse m) v = tt

after_take-IsVacantFor :
    (slots : Slots) (entries : List Entry) (e : Entry) (ids : List Text) (t : Take)
    → slots e.id ≡ none
    → IsVacantFor slots (after_take entries e ids t)
unfolding after_take
after_take-IsVacantFor slots entries e ids (taken child) v = v
after_take-IsVacantFor slots entries e ids busy_child v = v
after_take-IsVacantFor slots entries e ids empty v = v

pub record IsSafe (s : State) : Type 0 where
  pub accounted : s.stopped ≡ false → Accounted s.slots s.handles
  pub vacant : IsVacantFor s.slots s.phase

put_slot-IsSafe :
    (s : State) (id : Text) (slot : Slot)
    → SlotShrinks (s.slots id) slot
    → Keeps s.handles (s.slots id) slot
    → IsSafe s
    → IsSafe (put_slot s id slot)
put_slot-IsSafe s id slot h k i = record {
  accounted = λ q. set_slot-Accounted s.slots s.handles id slot k (i.accounted q);
  vacant = IsVacantFor-Shrinks s.slots _ s.phase (set_slot-Shrinks s.slots id slot h) i.vacant;
}

hand_out-Accounted :
    (slots : Slots) (handles : List ℕ) (handed : Option ℕ)
    → ((h : ℕ) → handed ≡ some h → InSlot slots h)
    → Accounted slots handles
    → Accounted slots (hand_out handed handles)
hand_out-Accounted slots handles none new acc = acc
hand_out-Accounted slots handles (some c) new acc = (new c refl, acc)

run_slot-IsSafe :
    (s : State) (id : Text) (check : ℕ → Liveness) (now : ℕ)
    → IsSafe s
    → IsSafe (run_slot s id check now)
unfolding run_slot
run_slot-IsSafe s id check now i =
    let found = live_child s.handles check now (s.slots id) in
    let put =
      put_slot-IsSafe s id found.slot (live_child-SlotShrinks s.handles check now (s.slots id))
        (live_child-Keeps s.handles check now (s.slots id)) i in
    record {
      accounted = λ q.
          hand_out-Accounted _ s.handles found.handed
            (λ h e.
              let (d, q2, r) = handed-InSlot s.handles check now (s.slots id) h e in
              (id, d, set_slot_self s.slots id found.slot ∙ q2, r))
            (put.accounted q);
      vacant = put.vacant;
    }

begins-vacant :
    (s : State) (e : Entry) (check : ℕ → Liveness) (now : ℕ)
    → (live_child s.handles check now (s.slots e.id)).handed ≡ none
    → (run_slot s e.id check now).slots e.id ≡ none
unfolding run_slot
begins-vacant s e check now h =
    set_slot_self s.slots e.id _ ∙ live_child-unhanded s.handles check now (s.slots e.id) h

started-IsSafe :
    (measure_of : ℕ → Measurement) (s : State) (e : Entry) (now : ℕ)
    → s.slots e.id ≡ none
    → IsSafe s
    → IsSafe (started measure_of s e now)
unfolding started
started-IsSafe measure_of s e now v i =
    let new : LoadedChild = record {
      child = s.next_child;
      last_used = now;
      measured = measure_of s.next_child;
    } in
    record {
      accounted = λ q. (
        (e.id, new, set_slot_self s.slots e.id (some new), refl),
        set_slot-Accounted s.slots s.handles e.id (some new)
            (subst (λ a. Keeps s.handles a (some new)) (sym v) tt) (i.accounted q),
      );
      vacant = tt;
    }

-- Another phase, with an entry whose slot is empty.
in_phase-IsSafe : (s : State) (p : Phase) → IsVacantFor s.slots p → IsSafe s → IsSafe (in_phase s p)
in_phase-IsSafe s p v i = record { accounted = i.accounted; vacant = v }

module _ (limit : Option ℕ) (entries : List Entry) (measure_of : ℕ → Measurement) where
  Step-IsSafe : {s t : State} → Step limit entries measure_of s t → IsSafe s → IsSafe t
  Step-IsSafe {s} (serves id check now q) i =
      subst IsSafe (sym q) (run_slot-IsSafe s id check now i)
  Step-IsSafe {s} (finishes child q) i = subst IsSafe (sym q) (record {
    accounted = λ run. All-drop_handle (InSlot s.slots) child s.handles (i.accounted run);
    vacant = i.vacant;
  })
  Step-IsSafe {s} (touches id now q) i = subst IsSafe (sym q) (
      put_slot-IsSafe s id _ (touched-SlotShrinks now (s.slots id))
        (touched-Keeps s.handles now (s.slots id)) i)
  Step-IsSafe {s} (reaps id check q) i = subst IsSafe (sym q) (
      put_slot-IsSafe s id _ (take_if_exited-SlotShrinks s.handles check (s.slots id))
        (take_if_exited-Keeps s.handles check (s.slots id)) i)
  Step-IsSafe {s} (expires id also q) i = subst IsSafe (sym q) (
      put_slot-IsSafe s id _ (take_if_idle-SlotShrinks s.handles also (s.slots id))
        (take_if_idle-Keeps s.handles also (s.slots id)) i)
  Step-IsSafe {s} (stops id q) i = subst IsSafe (sym q) (record {
    accounted = λ run. absurd (cc);
    vacant = IsVacantFor-Shrinks s.slots _ s.phase (set_slot-Shrinks s.slots id none tt) i.vacant;
  })
  Step-IsSafe {s} (begins e check now m p h q) i = subst IsSafe (sym q) (
      in_phase-IsSafe (run_slot s e.id check now) (viewing e [] entries)
        (begins-vacant s e check now h) (run_slot-IsSafe s e.id check now i))
  Step-IsSafe {s} (views e seen x rest p q) i =
      subst IsSafe (sym q)
        (in_phase-IsSafe s (viewing e _ rest) (subst (IsVacantFor s.slots) p i.vacant) i)
  Step-IsSafe {s} (decides e seen free p q) i = subst IsSafe (sym q) (
      in_phase-IsSafe s _
        (after_decision-IsVacantFor s.slots entries e _ (subst (IsVacantFor s.slots) p i.vacant)) i)
  Step-IsSafe {s} (unloads e id ids p q) i =
      let found = take_if_idle s.handles (λ held. true) (s.slots id) in
      let put =
        put_slot-IsSafe s id found.0
          (take_if_idle-SlotShrinks s.handles (λ held. true) (s.slots id))
          (take_if_idle-Keeps s.handles (λ held. true) (s.slots id)) i in
      subst IsSafe (sym q) (
        in_phase-IsSafe (put_slot s id found.0) _
          (after_take-IsVacantFor _ entries e ids found.1
            (subst (IsVacantFor (put_slot s id found.0).slots) p put.vacant))
          put)
  Step-IsSafe {s} (unloaded e p q) i =
      subst IsSafe (sym q)
        (in_phase-IsSafe s (starting e) (subst (IsVacantFor s.slots) p i.vacant) i)
  Step-IsSafe {s} (starts e now p q) i =
      subst IsSafe (sym q)
        (started-IsSafe measure_of s e now (subst (IsVacantFor s.slots) p i.vacant) i)
  Step-IsSafe {s} (gives_up q) i = subst IsSafe (sym q) (in_phase-IsSafe s unheld tt i)

  pub Reach-IsSafe : {s : State} → Reach limit entries measure_of s → IsSafe s
  Reach-IsSafe here = record { accounted = λ run. tt; vacant = tt }
  Reach-IsSafe (next r st) = Step-IsSafe st (Reach-IsSafe r)

  -- Until the router is stopped, and however requests, readers and sweeps interleave: the child
  -- of every handle that is alive outside the slots is in a slot. So no sweep and no unloading
  -- ends a child that a request reads, and no start forgets one.
  pub Reach-Accounted :
      (s : State)
      → Reach limit entries measure_of s
      → s.stopped ≡ false
      → Accounted s.slots s.handles
  Reach-Accounted s r run = (Reach-IsSafe r).accounted run
