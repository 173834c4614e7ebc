-- ===== src/Proxy/Pool/Refine.antt =====
-- The interleaved slots do what the pool allows: src/proxy/slots.
use maestro_llamacpp.Common.{
  ℕ, true, Option, none, some, List, ◌≡◌, ◌⊎◌, inl, inr, refl, sym, ap, subst, ◌∙◌, Bool-cases,
  Option-cases, arith,
}
use maestro_llamacpp.Common.Text.{Text, text_eq}
use maestro_llamacpp.Common.Text.Equality.{text_eq_iff}
use maestro_llamacpp.Catalog.{Entry}
use maestro_llamacpp.Memory.{Measurement}
use maestro_llamacpp.Proxy.Child.{Slot, Liveness, count_handles, live_child, exited}
use maestro_llamacpp.Proxy.Slots.{Slots, set_slot}
use maestro_llamacpp.Proxy.Interleaving.{
  Phase, State, initial, hand_out, drop_handle, run_slot, put_slot, in_phase, started, Step, serves,
  finishes, touches, reaps, expires, stops, begins, views, decides, unloaded, starts, gives_up,
  Reach,
}
use maestro_llamacpp.Proxy.Interleaving
use maestro_llamacpp.Proxy.Interleaving.Costs.{SlotShrinks}
use maestro_llamacpp.Proxy.Interleaving.Shrinking.{
  live_child-SlotShrinks, take_if_idle-SlotShrinks, take_if_exited-SlotShrinks, touched-SlotShrinks,
}
use maestro_llamacpp.Proxy.Interleaving.Accounting.{
  Keeps, take_if_idle-Keeps, live_child-Keeps, take_if_exited-Keeps, touched-Keeps,
}
use maestro_llamacpp.Proxy.Interleaving.InUse.{IsVacantFor, IsSafe, Reach-IsSafe}
use maestro_llamacpp.Proxy.Pool.{Pool, put, PoolStep, stays, reads, leaves, loads, unloads, halts}

abbrev pub child_of : Slot → Option ℕ
child_of none = none
child_of (some held) = some held.child

-- What a state of the slots is as a pool.
unfoldable pub pool_of : State → Pool
pool_of s = record {
  serving = λ id. child_of (s.slots id);
  readers = s.handles;
  stopped = s.stopped;
}

-- A change of a slot that keeps its child, or lets go of one that nobody reads.
abbrev KeepsChild : List ℕ → Slot → Slot → Type 0
KeepsChild handles a b =
    (child_of b ≡ child_of a)
    ⊎ ((c : ℕ) × (child_of a ≡ some c) × (child_of b ≡ none) × (count_handles c handles ≡ 0))

changed :
    (handles : List ℕ) (a b : Slot) → SlotShrinks a b → Keeps handles a b → KeepsChild handles a b
changed handles none none h k = inl refl
changed handles none (some b) h k = absurd h
changed handles (some a) none h k = inr (a.child, refl, refl, k)
changed handles (some a) (some b) h k = inl (ap some k)

child_of-set_slot :
    (slots : Slots) (id : Text) (slot : Slot) (j : Text)
    → child_of (set_slot slots id slot j) ≡ put (λ i. child_of (slots i)) id (child_of slot) j
unfolding set_slot put
child_of-set_slot slots id slot j = elim (Bool-cases (text_eq id j)) [
  | inl e ↦ rw e refl
  | inr e ↦ rw e refl
]

put_same :
    (slots : Slots) (id : Text) (child : Option ℕ) (j : Text)
    → child ≡ child_of (slots id)
    → put (λ i. child_of (slots i)) id child j ≡ child_of (slots j)
unfolding put
put_same slots id child j h = elim (Bool-cases (text_eq id j)) [
  | inl e ↦ rw e (h ∙ ap (λ i. child_of (slots i)) ((text_eq_iff id j).0 e))
  | inr e ↦ rw e refl
]

-- One slot is put, and nobody's handle changes.
put-PoolStep :
    (s t : State) (id : Text) (slot : Slot)
    → KeepsChild s.handles (s.slots id) slot
    → t.slots ≡ set_slot s.slots id slot
    → t.handles ≡ s.handles
    → t.stopped ≡ s.stopped
    → PoolStep (pool_of s) (pool_of t)
unfolding pool_of
put-PoolStep s t id slot (inl same) e1 e2 e3 =
    stays
      (λ j.
        ap (λ (slots : Slots). child_of (slots j)) e1
        ∙ child_of-set_slot s.slots id slot j
        ∙ put_same s.slots id (child_of slot) j same)
      e2 e3
put-PoolStep s t id slot (inr (c, was, now, unread)) e1 e2 e3 =
    unloads id c was unread
      (λ j.
        ap (λ (slots : Slots). child_of (slots j)) e1
        ∙ child_of-set_slot s.slots id slot j
        ∙ ap (λ child. put (λ i. child_of (s.slots i)) id child j) now)
      e2 e3

-- A handle is handed out of the child that stays in the slot.
handed-serving :
    (handles : List ℕ) (check : ℕ → Liveness) (now : ℕ) (a : Slot) (h : ℕ)
    → (live_child handles check now a).handed ≡ some h
    → (child_of a ≡ some h) × (child_of (live_child handles check now a).slot ≡ some h)
unfolding live_child
handed-serving handles check now none h e = absurd (cc)
handed-serving handles check now (some a) h e = elim (Option-cases (exited handles check a)) [
  | inl n ↦
      let same : some a.child ≡ some h = rw (n, live_child) at e in rw (n, live_child) (same, same)
  | inr (status, n) ↦ absurd (ground arith)
]

run_slot-PoolStep :
    (s : State) (id : Text) (check : ℕ → Liveness) (now : ℕ)
    → PoolStep (pool_of s) (pool_of (run_slot s id check now))
unfolding run_slot pool_of
run_slot-PoolStep s id check now =
    let found = live_child s.handles check now (s.slots id) in
    elim (Option-cases found.handed) [
      | inl e ↦
          put-PoolStep s (run_slot s id check now) id found.slot
            (changed s.handles (s.slots id) found.slot
              (live_child-SlotShrinks s.handles check now (s.slots id))
              (live_child-Keeps s.handles check now (s.slots id)))
            refl (ap (λ o. hand_out o s.handles) e) refl
      | inr (h, e) ↦
          let (was, still) = handed-serving s.handles check now (s.slots id) h e in
          reads id h was
            (λ j.
              child_of-set_slot s.slots id found.slot j
              ∙ put_same s.slots id (child_of found.slot) j (still ∙ sym was))
            (ap (λ o. hand_out o s.handles) e) refl
    ]

started-PoolStep :
    (measure_of : ℕ → Measurement) (s : State) (e : Entry) (now : ℕ)
    → s.slots e.id ≡ none
    → PoolStep (pool_of s) (pool_of (started measure_of s e now))
unfolding started pool_of
started-PoolStep measure_of s e now vacant =
    loads e.id s.next_child (ap child_of vacant)
      (child_of-set_slot s.slots e.id (
        some
          (record { child = s.next_child; last_used = now; measured = measure_of s.next_child })))
      refl refl

module _ (limit : Option ℕ) (entries : List Entry) (measure_of : ℕ → Measurement) where
  IsSafe-PoolStep :
      (s t : State)
      → IsSafe s
      → Step limit entries measure_of s t
      → PoolStep (pool_of s) (pool_of t)
  unfolding pool_of
  IsSafe-PoolStep s t i (serves id check now q) = rw q (run_slot-PoolStep s id check now)
  IsSafe-PoolStep s t i (finishes child q) = rw q (leaves child (λ j. refl) refl refl)
  IsSafe-PoolStep s t i (touches id now q) = rw q (
      put-PoolStep s (put_slot s id _) id _
        (changed s.handles (s.slots id) _ (touched-SlotShrinks now (s.slots id))
          (touched-Keeps s.handles now (s.slots id)))
        refl refl refl)
  IsSafe-PoolStep s t i (reaps id check q) = rw q (
      put-PoolStep s (put_slot s id _) id _
        (changed s.handles (s.slots id) _ (take_if_exited-SlotShrinks s.handles check (s.slots id))
          (take_if_exited-Keeps s.handles check (s.slots id)))
        refl refl refl)
  IsSafe-PoolStep s t i (expires id also q) = rw q (
      put-PoolStep s (put_slot s id _) id _
        (changed s.handles (s.slots id) _ (take_if_idle-SlotShrinks s.handles also (s.slots id))
          (take_if_idle-Keeps s.handles also (s.slots id)))
        refl refl refl)
  IsSafe-PoolStep s t i (stops id q) = rw q (halts id (child_of-set_slot s.slots id none) refl refl)
  IsSafe-PoolStep s t i (begins e check now m p h q) = rw q (run_slot-PoolStep s e.id check now)
  IsSafe-PoolStep s t i (views e seen x rest p q) = rw q (stays (λ j. refl) refl refl)
  IsSafe-PoolStep s t i (decides e seen free p q) = rw q (stays (λ j. refl) refl refl)
  IsSafe-PoolStep s t i (Interleaving.unloads e id ids p q) = rw q (
      put-PoolStep s (put_slot s id _) id _
        (changed s.handles (s.slots id) _
          (take_if_idle-SlotShrinks s.handles (λ held. true) (s.slots id))
          (take_if_idle-Keeps s.handles (λ held. true) (s.slots id)))
        refl refl refl)
  IsSafe-PoolStep s t i (unloaded e p q) = rw q (stays (λ j. refl) refl refl)
  IsSafe-PoolStep s t i (starts e now p q) =
      rw q (started-PoolStep measure_of s e now (subst (IsVacantFor s.slots) p i.vacant))
  IsSafe-PoolStep s t i (gives_up q) = rw q (stays (λ j. refl) refl refl)

  -- Whatever a step of the interleaved slots does in a state that can be reached, the pool allows
  -- it: a reader is given the child that serves, a child is started only where none serves, and
  -- but for a stop a child is ended only when nobody reads it.
  pub Step-PoolStep :
      (s t : State)
      → Reach limit entries measure_of s
      → Step limit entries measure_of s t
      → PoolStep (pool_of s) (pool_of t)
  Step-PoolStep s t r st = IsSafe-PoolStep s t (Reach-IsSafe limit entries measure_of r) st
