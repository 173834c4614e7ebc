-- ===== src/Admission/Permanence.antt =====
-- A refusal of `Budget::admit` does not depend on the moment.
use maestro_llamacpp.Common.{
  ℕ, ◌+◌, ◌≤◌, Bool, true, false, not, ◌&&◌, Option, List, ◌≡◌, ◌≢◌, ◌⊎◌, inl, inr, refl, sym,
  subst, arith, All, All-imp, All-both, keep, any-false, sum_by, sum_by-keep-not, sum_by-keep_mono,
}
use maestro_llamacpp.Common.Text.{Text, text_eq}
use maestro_llamacpp.Common.Text.Equality.{text_eq_iff}
use maestro_llamacpp.Catalog.{on_demand, resident, is_on_demand, Residency}
use maestro_llamacpp.Admission.Subject.{Loaded, Wanted}
use maestro_llamacpp.Admission.Admit.{refuse, admit, is_candidate, already_loaded}
use maestro_llamacpp.Admission.Exact.{total_cost, total_device, InRange, IfSome, IfSome-mono}
use maestro_llamacpp.Admission.Fits.{FitsWithout}
use maestro_llamacpp.Admission.Outcomes.{
  OverLimit, Denies, Finishing, admit-Denies_needed, admit-blocked_or_refuse,
}

-- A later moment: the entries that pass `stays` are still loaded, the others have given back what
-- they held, and nothing else has changed.
pub record FitsLater (limit : Option ℕ) (loaded : List Loaded) (wanted : Wanted) (free : Option ℕ)
    (stays : Loaded → Bool) : Type 0 where
  pub ledger : IfSome limit (λ l. total_cost (keep stays loaded) + wanted.cost_mib ≤ l)
  pub device :
      IfSome free (λ d. wanted.device_mib ≤ d + total_device (keep (λ h. not (stays h)) loaded))

already_loaded-false :
    (loaded : List Loaded) (wanted : Wanted)
    → already_loaded loaded wanted ≡ false
    → All (λ h. text_eq h.id wanted.id ≡ false) loaded
unfolding already_loaded
already_loaded-false loaded wanted e = any-false _ loaded e

-- Where nobody is busy, whatever is no resident is a candidate.
leaves-is_candidate :
    (wanted : Wanted) (stays : Loaded → Bool) (h : Loaded)
    → (¬ Finishing wanted h)
      × ((h.residency ≡ resident → stays h ≡ true) × (text_eq h.id wanted.id ≡ false))
    → not (stays h) ≡ true
    → is_candidate wanted h ≡ true
unfolding is_candidate
leaves-is_candidate wanted stays h (idle, (pinned, other)) gone =
    let ne : h.id ≢ wanted.id = λ p. ground (arith, text_eq_iff h.id wanted.id) in
    rw other (go h.residency h.busy (stays h) (λ e. idle (e.0, e.1, ne)) pinned gone)
  where
    go :
        (r : Residency) (b s : Bool)
        → (¬ ((r ≡ on_demand) × (b ≡ true)))
        → (r ≡ resident → s ≡ true)
        → not s ≡ true
        → (is_on_demand r && not b && true) ≡ true
    go resident b true idle pinned gone = cc
    go resident b false idle pinned gone = cc (pinned refl)
    go on_demand true s idle pinned gone = absurd (idle (refl, refl))
    go on_demand false s idle pinned gone = refl

gone_are_candidates :
    (loaded : List Loaded) (wanted : Wanted) (stays : Loaded → Bool)
    → All (λ h. ¬ Finishing wanted h) loaded
    → All (λ h. h.residency ≡ resident → stays h ≡ true) loaded
    → All (λ h. text_eq h.id wanted.id ≡ false) loaded
    → All (λ h. not (stays h) ≡ true → is_candidate wanted h ≡ true) loaded
gone_are_candidates loaded wanted stays idle pinned others =
    All-imp _ _ (leaves-is_candidate wanted stays) loaded
      (All-both _ _ loaded idle (All-both _ _ loaded pinned others))

module _ (limit : Option ℕ) (loaded : List Loaded) (wanted : Wanted) (free : Option ℕ)
    (stays : Loaded → Bool)
    (gone : All (λ h. not (stays h) ≡ true → is_candidate wanted h ≡ true) loaded) where
  gone-le :
      (f : Loaded → ℕ)
      → sum_by f (keep (λ h. not (stays h)) loaded) ≤ sum_by f (keep (is_candidate wanted) loaded)
  gone-le f = sum_by-keep_mono f (λ h. not (stays h)) (is_candidate wanted) loaded gone

  FitsLater-FitsWithout :
      FitsLater limit loaded wanted free stays
      → FitsWithout limit loaded wanted free (keep (is_candidate wanted) loaded)
  FitsLater-FitsWithout f = record {
    ledger =
        IfSome-mono limit _ _
          (λ l q. omega (
            arith,
            gone-le (λ h. h.cost_mib),
            sum_by-keep-not (λ (h : Loaded). h.cost_mib) stays loaded,
            q,
          ))
          f.ledger;
    device = IfSome-mono free _ _ (λ d q. omega (arith, gone-le (λ h. h.device_mib), q)) f.device;
  }

-- If `admit` refuses an entry, and no sum of its figures passes a 64-bit word, then either its cost
-- alone is over the limit, or it does not fit at any later moment at which some of the loaded
-- entries are gone, every resident is still there, and nothing else has changed.
pub admit-refuse_permanent :
    (limit : Option ℕ) (loaded : List Loaded) (wanted : Wanted) (free : Option ℕ) (m : Text)
    → InRange loaded wanted free
    → admit limit loaded wanted free ≡ refuse m
    → OverLimit limit wanted
      ⊎ ((stays : Loaded → Bool)
          → All (λ h. h.residency ≡ resident → stays h ≡ true) loaded
          → ¬ FitsLater limit loaded wanted free stays)
admit-refuse_permanent limit loaded wanted free m r h =
    let (absent, why) = admit-Denies_needed limit loaded wanted free r (subst Denies (sym h) tt) in
    elim why [
      | inl over ↦ inl over
      | inr tight ↦ elim ((admit-blocked_or_refuse limit loaded wanted free m).1 h) [
        | inl over ↦ inl over
        | inr idle ↦ inr λ stays pinned later. tight (
            FitsLater-FitsWithout limit loaded wanted free stays
              (gone_are_candidates loaded wanted stays idle pinned
                (already_loaded-false loaded wanted absent))
              later)
      ]
    ]
