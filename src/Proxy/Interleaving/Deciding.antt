-- ===== src/Proxy/Interleaving/Deciding.antt =====
-- The phases of a start keep the invariant: the snapshot, the decision and the unloading.
use mathlib.Core.List.{append_assoc, append-nil}
use maestro_llamacpp.Common.{
  ℕ, ◌+◌, ◌^◌, ◌≤◌, ◌<◌, true, false, Option, none, some, List, [], ◌∷◌, ◌++◌, ◌≡◌, ◌≢◌, refl, sym,
  ap, subst, ◌∙◌, arith, any, All, All-append, length, length-append, sum_by, sum_by-append,
  sum_by-keep_le, inl, inr, ◌⊎◌, Option-cases, Bool-cases,
}
use maestro_llamacpp.Common.Text.{Text}
use maestro_llamacpp.Common.Text.Equality.{text_eq_iff}
use maestro_llamacpp.Common.Word.{u64_mod}
use maestro_llamacpp.Catalog.{Entry}
use maestro_llamacpp.Admission.Subject.{Loaded, wanted_of}
use maestro_llamacpp.Admission.Admit.{
  Decision, fits, unload, blocked, refuse, admit, already_loaded,
}
use maestro_llamacpp.Admission.Exact.{total_cost, IfSome-mono}
use maestro_llamacpp.Admission.Ledger.{admit-fits-ledger, admit-unload-ledger}
use maestro_llamacpp.Admission.Taken.{without}
use maestro_llamacpp.Proxy.Child.{LoadedChild, Slot, busy, take_if_idle}
use maestro_llamacpp.Proxy.Slots.{Slots, set_slot, seen_one}
use maestro_llamacpp.Proxy.Interleaving.{viewing, unloading, State, after_decision, after_take}
use maestro_llamacpp.Proxy.Interleaving.Costs.{
  cost_in, cost_in_lem, id-held_one, charge_one, charge, seen_one-charge, total_cost-append,
  Shrinks, charge-cons, max_mib,
}
use maestro_llamacpp.Proxy.Interleaving.Shrinking.{
  take_if_idle-SlotShrinks, set_slot-Shrinks, set_slot_self,
}
use maestro_llamacpp.Proxy.Interleaving.Invariant.{
  Vacant, Views, Promise, PhaseInv, Inv, PhaseInv-Shrinks, Views-start,
}

seen_one-others :
    (slots : Slots) (handles : List ℕ) (e x : Entry)
    → slots e.id ≡ none
    → All (λ h. h.id ≢ e.id) (seen_one (slots x.id) handles x)
seen_one-others slots handles e x vacant = elim (Option-cases (slots x.id)) [
  | inl n ↦ rw n tt
  | inr (c, n) ↦ rw n (λ q. cc (n, vacant, ap slots (sym (id-held_one handles x c) ∙ q)), tt)
]

seen_one-le :
    (slot : Slot) (handles : List ℕ) (x : Entry)
    → ((c : LoadedChild) → slot ≡ some c → cost_in x c.measured ≤ max_mib)
    → total_cost (seen_one slot handles x) ≤ max_mib
unfolding sum_by
seen_one-le none handles x h = omega arith
seen_one-le (some c) handles x h = omega (arith, cost_in_lem handles x c, h c refl)

-- A take that is not refused leaves the slot empty.
take-cases :
    (entries : List Entry) (e : Entry) (ids : List Text) (handles : List ℕ) (a : Slot)
    → let found = take_if_idle handles (λ held. true) a in
      (after_take entries e ids found.1 ≡ viewing e [] entries)
      ⊎ ((after_take entries e ids found.1 ≡ unloading e ids) × (found.0 ≡ none))
unfolding take_if_idle after_take
take-cases entries e ids handles none = inr (refl, refl)
take-cases entries e ids handles (some a) = elim (Bool-cases (busy handles a.child)) [
  | inl b ↦ rw b (inl refl)
  | inr b ↦ rw b (inr (refl, refl))
]

not-already_loaded :
    (e : Entry) (seen : List Loaded)
    → All (λ h. h.id ≢ e.id) seen
    → already_loaded seen (wanted_of e) ≡ false
unfolding already_loaded any wanted_of
not-already_loaded e [] h = refl
not-already_loaded e (x ∷ xs) h =
    let ne : x.id ≢ e.id = h.0 in ground (arith, text_eq_iff x.id e.id, not-already_loaded e xs h.1)

module _ (limit : Option ℕ) (entries : List Entry) (few : length entries ≤ 2 ^ 20) where
  module _ (slots : Slots) (e : Entry) (seen : List Loaded) (free : Option ℕ) (v : Vacant slots e)
      (w : Views entries slots e seen []) where
    all_visited : w.visited ≡ entries
    all_visited = sym (append-nil w.visited) ∙ w.split

    in_range : total_cost seen + (wanted_of e).cost_mib < u64_mod
    unfolding wanted_of
    in_range = omega (arith, w.small, few, v.declared, ap length all_visited)

    covers_all : (ids : List Text) → charge slots ids entries ≤ total_cost (without ids seen)
    covers_all ids =
        subst (λ xs. charge slots ids xs ≤ total_cost (without ids seen)) all_visited (w.covers ids)

    pub decided :
        (d : Decision)
        → admit limit seen (wanted_of e) free ≡ d
        → PhaseInv limit entries slots (after_decision entries e d)
    unfolding after_decision wanted_of
    decided fits h = (
      v,
      IfSome-mono limit _ _
          (λ l q.
            omega (arith, covers_all [], sum_by-keep_le (λ (k : Loaded). k.cost_mib) _ seen, q))
          (admit-fits-ledger limit seen (wanted_of e) free in_range
            (not-already_loaded e seen w.others) h),
    )
    decided (unload ids) h = (
      v,
      IfSome-mono limit _ _ (λ l q. omega (arith, covers_all ids, q))
          (admit-unload-ledger limit seen (wanted_of e) free in_range ids h),
    )
    decided (blocked m) h = (v, Views-start limit entries slots e)
    decided (refuse m) h = tt

  -- The snapshot looks at one more slot.
  pub Views-next :
      (slots : Slots) (handles : List ℕ) (e : Entry) (seen : List Loaded) (x : Entry)
      (rest : List Entry)
      → ((c : LoadedChild) → slots x.id ≡ some c → cost_in x c.measured ≤ max_mib)
      → slots e.id ≡ none
      → Views entries slots e seen (x ∷ rest)
      → Views entries slots e (seen ++ seen_one (slots x.id) handles x) rest
  unfolding sum_by
  Views-next slots handles e seen x rest low vacant w = record {
    visited = w.visited ++ x ∷ [];
    split = append_assoc w.visited (x ∷ []) rest ∙ w.split;
    others =
        All-append (λ h. h.id ≢ e.id) seen (seen_one (slots x.id) handles x) w.others
          (seen_one-others slots handles e x vacant);
    covers = λ ids. omega (
      arith,
      sum_by-append (λ y. charge_one ids y (slots y.id)) w.visited (x ∷ []),
      w.covers ids,
      total_cost-append ids seen (seen_one (slots x.id) handles x),
      seen_one-charge ids (slots x.id) handles x,
    );
    small = omega (
      arith,
      sum_by-append (λ (h : Loaded). h.cost_mib) seen (seen_one (slots x.id) handles x),
      length-append w.visited (x ∷ []),
      w.small,
      seen_one-le (slots x.id) handles x low,
    );
  }

  module _ (s : State) (e : Entry) (id : Text) (ids : List Text) (i : Inv limit entries s)
      (p : s.phase ≡ unloading e (id ∷ ids)) where
    abbrev after : Slots
    after = set_slot s.slots id (take_if_idle s.handles (λ held. true) (s.slots id)).0

    after-Shrinks : Shrinks s.slots after
    after-Shrinks =
        set_slot-Shrinks s.slots id _
          (take_if_idle-SlotShrinks s.handles (λ held. true) (s.slots id))

    kept : PhaseInv limit entries after (unloading e (id ∷ ids))
    kept =
        PhaseInv-Shrinks limit entries s.slots after (unloading e (id ∷ ids)) after-Shrinks
          (rw p at i.phase)

    taken-Promise :
        (take_if_idle s.handles (λ held. true) (s.slots id)).0 ≡ none
        → Promise limit entries after e ids
    taken-Promise gone =
        IfSome-mono limit _ _
          (λ l q.
            omega (arith, charge-cons after id ids entries (set_slot_self s.slots id _ ∙ gone), q))
          kept.1

    pub unloads-phase :
        PhaseInv limit entries after
          (after_take entries e ids (take_if_idle s.handles (λ held. true) (s.slots id)).1)
    unloads-phase = elim (take-cases entries e ids s.handles (s.slots id)) [
      | inl again ↦ rw again (kept.0, Views-start limit entries after e)
      | inr (on, gone) ↦ rw on (kept.0, taken-Promise gone)
    ]
