-- ===== src/Proxy/Interleaving/Shrinking.antt =====
-- Every step but a start leaves each slot empty or with the child that it had.
use maestro_llamacpp.Common.{
  ℕ, Bool, List, none, some, ◌≡◌, refl, subst, arith, Bool-cases, Option-cases, not, ◌||◌, inl, inr,
}
use maestro_llamacpp.Common.Text.{Text, text_eq}
use maestro_llamacpp.Common.Text.Equality.{text_eq_iff, text_eq_refl}
use maestro_llamacpp.Proxy.Child.{
  LoadedChild, Slot, Liveness, busy, exited, live_child, take_if_idle, take_if_exited, touched,
}
use maestro_llamacpp.Proxy.Slots.{Slots, set_slot}
use maestro_llamacpp.Proxy.Interleaving.Costs.{SlotShrinks, Shrinks}

pub SlotShrinks-refl : (a : Slot) → SlotShrinks a a
SlotShrinks-refl none = tt
SlotShrinks-refl (some a) = (refl, refl)

pub SlotShrinks-none : (b : Slot) → SlotShrinks none b → b ≡ none
SlotShrinks-none none h = refl
SlotShrinks-none (some b) h = absurd h

pub live_child-SlotShrinks :
    (handles : List ℕ) (check : ℕ → Liveness) (now : ℕ) (a : Slot)
    → SlotShrinks a (live_child handles check now a).slot
unfolding live_child
live_child-SlotShrinks handles check now none = tt
live_child-SlotShrinks handles check now (some a) = elim (Option-cases (exited handles check a)) [
  | inl e ↦ rw (e, live_child) (refl, refl)
  | inr (status, e) ↦ rw (e, live_child) tt
]

pub take_if_idle-SlotShrinks :
    (handles : List ℕ) (also : LoadedChild → Bool) (a : Slot)
    → SlotShrinks a (take_if_idle handles also a).0
unfolding take_if_idle
take_if_idle-SlotShrinks handles also none = tt
take_if_idle-SlotShrinks handles also (some a) =
    elim (Bool-cases (busy handles a.child || not (also a))) [
      | inl e ↦ rw (e, take_if_idle) (refl, refl)
      | inr e ↦ rw (e, take_if_idle) tt
    ]

pub take_if_exited-SlotShrinks :
    (handles : List ℕ) (check : ℕ → Liveness) (a : Slot)
    → SlotShrinks a (take_if_exited handles check a).0
unfolding take_if_exited
take_if_exited-SlotShrinks handles check none = tt
take_if_exited-SlotShrinks handles check (some a) = elim (Option-cases (exited handles check a)) [
  | inl e ↦ rw (e, take_if_exited) (refl, refl)
  | inr (status, e) ↦ rw (e, take_if_exited) tt
]

pub touched-SlotShrinks : (now : ℕ) (a : Slot) → SlotShrinks a (touched now a)
unfolding touched
touched-SlotShrinks now none = tt
touched-SlotShrinks now (some a) = (refl, refl)

-- A slot that shrinks is a change of the slots that shrinks.
pub set_slot-Shrinks :
    (slots : Slots) (id : Text) (slot : Slot)
    → SlotShrinks (slots id) slot
    → Shrinks slots (set_slot slots id slot)
unfolding set_slot
set_slot-Shrinks slots id slot h j = elim (Bool-cases (text_eq id j)) [
  | inl e ↦ rw e (subst (λ k. SlotShrinks (slots k) slot) ((text_eq_iff id j).0 e) h)
  | inr e ↦ rw e (SlotShrinks-refl (slots j))
]

pub set_slot_self : (slots : Slots) (id : Text) (slot : Slot) → set_slot slots id slot id ≡ slot
unfolding set_slot
set_slot_self slots id slot = rw text_eq_refl

-- Where no child is handed out, the slot is left empty.
pub live_child-unhanded :
    (handles : List ℕ) (check : ℕ → Liveness) (now : ℕ) (a : Slot)
    → (live_child handles check now a).handed ≡ none
    → (live_child handles check now a).slot ≡ none
unfolding live_child
live_child-unhanded handles check now none h = refl
live_child-unhanded handles check now (some a) h = ground arith
