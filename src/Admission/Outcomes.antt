-- ===== src/Admission/Outcomes.antt =====
-- When `Budget::admit` answers that there is no room.
use mathlib.Core.List.{Mem, append-nil, mem-cons_self, mem-cons_of_mem}
use maestro_llamacpp.Common.{
  ℕ, ◌<◌, true, false, not, ◌&&◌, Option, none, some, List, [], ◌∷◌, ◌++◌, ◌≡◌, ◌≢◌, ◌⊎◌, inl, inr,
  sym, ◌∙◌, ap, subst, arith, All, All-imp, keep, any, any-false, sum_by-sort_by_key, Bool-cases,
}
use maestro_llamacpp.Common.Text.{Text, text_eq}
use maestro_llamacpp.Common.Text.Equality.{text_eq_iff}
use maestro_llamacpp.Catalog.{on_demand, is_on_demand}
use maestro_llamacpp.Admission.Subject.{Loaded, Wanted}
use maestro_llamacpp.Admission.Room.{nothing_freed, short}
use maestro_llamacpp.Admission.Admit.{
  Decision, fits, unload, blocked, refuse, admit, admit_in, decide, choose, room_of, candidates,
  is_candidate, frees_itself, already_loaded,
}
use maestro_llamacpp.Admission.Choice.{leave, choose-append-leave, short-choose}
use maestro_llamacpp.Admission.Exact.{InRange}
use maestro_llamacpp.Admission.Fits.{FitsWithout}
use maestro_llamacpp.Admission.Taken.{chosen_in, taken, short-choose_iff}

-- The decisions that deny the entry.
abbrev pub Denies : Decision → Type 0
Denies fits = ⊥
Denies (unload ids) = ⊥
Denies (blocked message) = Unit
Denies (refuse message) = Unit

abbrev pub OverLimit : Option ℕ → Wanted → Type 0
OverLimit none wanted = ⊥
OverLimit (some l) wanted = l < wanted.cost_mib

-- A denial: the wanted entry alone is over the limit, or all candidates are not enough.
admit-Denies :
    (limit : Option ℕ) (loaded : List Loaded) (wanted : Wanted) (free : Option ℕ)
    → Denies (admit limit loaded wanted free)
    → (already_loaded loaded wanted ≡ false)
      × (OverLimit limit wanted
          ⊎ (short
                (room_of limit loaded free)
                wanted
                (choose
                  (room_of limit loaded free)
                  wanted
                  (candidates loaded wanted)
                  nothing_freed).0
              ≢ none))
unfolding admit admit_in decide
admit-Denies none loaded wanted free h = ground arith
admit-Denies (some l) loaded wanted free h = ground arith

module _ (limit : Option ℕ) (loaded : List Loaded) (wanted : Wanted) (free : Option ℕ) where
  abbrev all_candidates : List Loaded
  all_candidates = candidates loaded wanted

  taken-all :
      leave (room_of limit loaded free) wanted all_candidates nothing_freed ≡ []
      → taken limit loaded wanted free ≡ all_candidates
  unfolding chosen_in
  taken-all e =
      sym (append-nil _)
      ∙ ap (λ (xs : List Loaded). taken limit loaded wanted free ++ xs) (sym e)
      ∙ choose-append-leave (room_of limit loaded free) wanted all_candidates nothing_freed

  not_enough :
      InRange loaded wanted free
      → short
          (room_of limit loaded free)
          wanted
          (choose (room_of limit loaded free) wanted all_candidates nothing_freed).0
        ≢ none
      → ¬ FitsWithout limit loaded wanted free all_candidates
  not_enough r h f =
      elim (short-choose (room_of limit loaded free) wanted all_candidates nothing_freed) [
        | inl e ↦ h e
        | inr e ↦ h (
            (short-choose_iff limit loaded wanted free r).1
              (subst (FitsWithout limit loaded wanted free) (sym (taken-all e)) f))
      ]

FitsWithout-candidates :
    (limit : Option ℕ) (loaded : List Loaded) (wanted : Wanted) (free : Option ℕ)
    → FitsWithout limit loaded wanted free (keep (is_candidate wanted) loaded)
    → FitsWithout limit loaded wanted free (candidates loaded wanted)
unfolding candidates
FitsWithout-candidates limit loaded wanted free f =
    let ks = keep (is_candidate wanted) loaded in
    record {
      ledger = rw (sum_by-sort_by_key (λ (h : Loaded). h.last_used) (λ h. h.cost_mib) ks) f.ledger;
      device =
          rw (sum_by-sort_by_key (λ (h : Loaded). h.last_used) (λ h. h.device_mib) ks) f.device;
    }

-- If `admit` blocks or refuses an entry, and no sum of its figures passes a 64-bit word, then the
-- entry is not loaded, and either its cost alone is over the limit, or it would not fit with every
-- candidate unloaded: on-demand, idle and another than itself.
pub admit-Denies_needed :
    (limit : Option ℕ) (loaded : List Loaded) (wanted : Wanted) (free : Option ℕ)
    → InRange loaded wanted free
    → Denies (admit limit loaded wanted free)
    → (already_loaded loaded wanted ≡ false)
      × (OverLimit limit wanted
          ⊎ (¬ FitsWithout limit loaded wanted free (keep (is_candidate wanted) loaded)))
unfolding candidates
admit-Denies_needed limit loaded wanted free r h =
    let (absent, why) = admit-Denies limit loaded wanted free h in
    (
      absent,
      elim why [
        | inl over ↦ inl over
        | inr stuck ↦ inr λ f.
            not_enough limit loaded wanted free r stuck
              (FitsWithout-candidates limit loaded wanted free f)
      ],
    )

-- A busy on-demand entry other than the wanted one.
abbrev pub Finishing : Wanted → Loaded → Type 0
Finishing wanted h = (h.residency ≡ on_demand) × (h.busy ≡ true) × (h.id ≢ wanted.id)

frees_itself-true :
    (loaded : List Loaded) (wanted : Wanted)
    → frees_itself loaded wanted ≡ true
    → (h : Loaded) × Mem h loaded × Finishing wanted h
unfolding frees_itself any
frees_itself-true [] wanted e = cc
frees_itself-true (h ∷ hs) wanted e =
    elim (Bool-cases (is_on_demand h.residency && h.busy && not (text_eq h.id wanted.id))) [
      | inl yes_h ↦ (
        h,
        mem-cons_self,
        (ground arith, ground arith, λ p. ground (arith, text_eq_iff h.id wanted.id)),
      )
      | inr no_h ↦
          let (k, m, f) = frees_itself-true hs wanted (ground arith) in (k, mem-cons_of_mem h m, f)
    ]

frees_itself-false :
    (loaded : List Loaded) (wanted : Wanted)
    → frees_itself loaded wanted ≡ false
    → All (λ h. ¬ Finishing wanted h) loaded
unfolding frees_itself
frees_itself-false loaded wanted e =
    All-imp _ _ (λ h q f. let other = f.2 in ground (arith, text_eq_iff h.id wanted.id)) loaded
      (any-false _ loaded e)

admit-frees_itself :
    (limit : Option ℕ) (loaded : List Loaded) (wanted : Wanted) (free : Option ℕ) (m : Text)
    → ((admit limit loaded wanted free ≡ blocked m) → (frees_itself loaded wanted ≡ true))
      × ((admit limit loaded wanted free ≡ refuse m)
          → OverLimit limit wanted ⊎ (frees_itself loaded wanted ≡ false))
unfolding admit admit_in decide
admit-frees_itself none loaded wanted free m = (λ h. ground arith, λ h. ground arith)
admit-frees_itself (some l) loaded wanted free m = (λ h. ground arith, λ h. ground arith)

-- `admit` blocks an entry only while another entry that is loaded is on-demand and busy. It refuses
-- one only if its cost alone is over the limit or no other entry that is loaded is on-demand and
-- busy.
pub admit-blocked_or_refuse :
    (limit : Option ℕ) (loaded : List Loaded) (wanted : Wanted) (free : Option ℕ) (m : Text)
    → ((admit limit loaded wanted free ≡ blocked m)
        → (h : Loaded) × Mem h loaded × Finishing wanted h)
      × ((admit limit loaded wanted free ≡ refuse m)
          → OverLimit limit wanted ⊎ All (λ h. ¬ Finishing wanted h) loaded)
admit-blocked_or_refuse limit loaded wanted free m =
    let (b, r) = admit-frees_itself limit loaded wanted free m in
    (
      λ e. frees_itself-true loaded wanted (b e),
      λ e. elim (r e) [
        | inl over ↦ inl over
        | inr none_busy ↦ inr (frees_itself-false loaded wanted none_busy)
      ],
    )
