-- ===== src/Proxy/Interleaving/Accounting.antt =====
-- No child that a request reads is ended or forgotten: src/proxy/loaded.rs, on every path that
-- empties a slot.
use mathlib.Core.List.{Mem, not-mem-nil, mem-cons}
use mathlib.Core.Logic.Or
use native.Mathlib.Bridge.{le_prop}
use maestro_llamacpp.Common.{
  ℕ, ◌<◌, Bool, not, ◌||◌, none, some, List, [], ◌∷◌, ◌≡◌, refl, ap, ◌∙◌, arith, ◌==◌, inl, inr,
  Option-cases, Bool-cases, All, All-imp, All-both, All-Mem,
}
use maestro_llamacpp.Common.Text.{Text, text_eq}
use maestro_llamacpp.Common.Text.Equality.{text_eq_iff}
use maestro_llamacpp.Proxy.Child.{
  LoadedChild, Slot, Liveness, count_handles, strong_count, busy, exited, live_child, take_if_idle,
  take_if_exited, touched,
}
use maestro_llamacpp.Proxy.Slots.{Slots, set_slot}
use maestro_llamacpp.Proxy.Interleaving.{drop_handle}

-- The slot where a child is.
abbrev pub InSlot : Slots → ℕ → Type 0
InSlot slots h = (id : Text) × (c : LoadedChild) × (slots id ≡ some c) × (c.child ≡ h)

abbrev pub Accounted : Slots → List ℕ → Type 0
Accounted slots = All (InSlot slots)

-- A change of one slot that lets go only of a child with no handle outside.
abbrev pub Keeps : List ℕ → Slot → Slot → Type 0
Keeps handles none b = Unit
Keeps handles (some a) none = count_handles a.child handles ≡ 0
Keeps handles (some a) (some b) = b.child ≡ a.child

count_handles-pos : (h : ℕ) (hs : List ℕ) → Mem h hs → 0 < count_handles h hs
unfolding count_handles
count_handles-pos h [] m = absurd (not-mem-nil m)
count_handles-pos h (k ∷ hs) m =
    Or.elim le_prop (mem-cons.0 m) (λ q. ground arith)
      (λ n. omega (arith, count_handles-pos h hs n))

moved :
    (handles : List ℕ) (a b : Slot) (c : LoadedChild) (h : ℕ)
    → Keeps handles a b
    → a ≡ some c
    → c.child ≡ h
    → Mem h handles
    → (d : LoadedChild) × (b ≡ some d) × (d.child ≡ h)
moved handles none b c h k q r m = absurd (cc)
moved handles (some a) none c h k q r m = absurd (ground (arith, count_handles-pos h handles m))
moved handles (some a) (some b) c h k q r m = (b, refl, cc)

pub set_slot-Accounted :
    (slots : Slots) (handles : List ℕ) (id : Text) (slot : Slot)
    → Keeps handles (slots id) slot
    → Accounted slots handles
    → Accounted (set_slot slots id slot) handles
unfolding set_slot
set_slot-Accounted slots handles id slot k acc =
    All-imp _ _
      (λ h (known : InSlot slots h × Mem h handles).
        let ((j, c, q, r), m) = known in
        elim (Bool-cases (text_eq id j)) [
          | inr e ↦ (j, c, rw e q, r)
          | inl e ↦
              let (d, q2, r2) =
                moved handles (slots id) slot c h k (ap slots ((text_eq_iff id j).0 e) ∙ q) r m in
              (j, d, rw e q2, r2)
        ])
      handles (All-both _ _ handles acc (All-Mem handles))

pub take_if_idle-Keeps :
    (handles : List ℕ) (also : LoadedChild → Bool) (a : Slot)
    → Keeps handles a (take_if_idle handles also a).0
unfolding take_if_idle busy strong_count
take_if_idle-Keeps handles also none = tt
take_if_idle-Keeps handles also (some a) =
    elim (Bool-cases (busy handles a.child || not (also a))) [
      | inl e ↦ rw (e, take_if_idle) refl
      | inr e ↦ rw (e, take_if_idle) (ground arith)
    ]

pub live_child-Keeps :
    (handles : List ℕ) (check : ℕ → Liveness) (now : ℕ) (a : Slot)
    → Keeps handles a (live_child handles check now a).slot
unfolding live_child exited strong_count
live_child-Keeps handles check now none = tt
live_child-Keeps handles check now (some a) = elim (Option-cases (exited handles check a)) [
  | inl e ↦ rw (e, live_child) refl
  | inr (status, e) ↦ rw (e, live_child) (ground arith)
]

pub take_if_exited-Keeps :
    (handles : List ℕ) (check : ℕ → Liveness) (a : Slot)
    → Keeps handles a (take_if_exited handles check a).0
unfolding take_if_exited exited strong_count
take_if_exited-Keeps handles check none = tt
take_if_exited-Keeps handles check (some a) = elim (Option-cases (exited handles check a)) [
  | inl e ↦ rw (e, take_if_exited) refl
  | inr (status, e) ↦ rw (e, take_if_exited) (ground arith)
]

pub touched-Keeps : (handles : List ℕ) (now : ℕ) (a : Slot) → Keeps handles a (touched now a)
unfolding touched
touched-Keeps handles now none = tt
touched-Keeps handles now (some a) = refl

-- A handle is handed out only of the child that stays in the slot.
pub handed-InSlot :
    (handles : List ℕ) (check : ℕ → Liveness) (now : ℕ) (a : Slot) (h : ℕ)
    → (live_child handles check now a).handed ≡ some h
    → (d : LoadedChild) × ((live_child handles check now a).slot ≡ some d) × (d.child ≡ h)
unfolding live_child
handed-InSlot handles check now none h e = absurd (cc)
handed-InSlot handles check now (some a) h e = elim (Option-cases (exited handles check a)) [
  | inl n ↦ rw (n, live_child) (_, refl, ground arith)
  | inr (status, n) ↦ absurd (ground arith)
]

pub All-drop_handle : (P : ℕ → Type 0) (c : ℕ) (hs : List ℕ) → All P hs → All P (drop_handle c hs)
unfolding drop_handle
All-drop_handle P c [] a = tt
All-drop_handle P c (k ∷ hs) a = elim (Bool-cases (k == c)) [
  | inl e ↦ rw e a.1
  | inr e ↦ rw e (a.0, All-drop_handle P c hs a.1)
]
