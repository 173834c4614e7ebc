-- ===== src/Admission/Exact.antt =====
-- The machine arithmetic of a decision is exact while the figures fit a 64-bit word.
use maestro_llamacpp.Common.{
  ℕ, ◌+◌, ◌<◌, Option, none, some, List, [], ◌∷◌, ◌≡◌, ◌∙◌, arith, unwrap_or, sum_by,
}
use maestro_llamacpp.Common.Word.{u64_mod, add_u64_exact}
use maestro_llamacpp.Admission.Subject.{Loaded, Wanted}
use maestro_llamacpp.Admission.Room.{Freed}
use maestro_llamacpp.Admission.Admit.{free_one}
use maestro_llamacpp.Admission.Choice.{freed_by}

-- The exact figures, which no word bounds.
abbrev pub total_cost : List Loaded → ℕ
total_cost = sum_by (λ h. h.cost_mib)

abbrev pub total_device : List Loaded → ℕ
total_device = sum_by (λ h. h.device_mib)

-- No sum of a decision wraps.
pub record InRange (loaded : List Loaded) (wanted : Wanted) (free : Option ℕ) : Type 0 where
  pub cost : total_cost loaded + wanted.cost_mib < u64_mod
  pub device : unwrap_or free 0 + total_device loaded < u64_mod

pub freed_by-cost :
    (freed : Freed) (cs : List Loaded)
    → freed.cost + total_cost cs < u64_mod
    → (freed_by freed cs).cost ≡ freed.cost + total_cost cs
unfolding sum_by free_one
freed_by-cost freed [] h = omega arith
freed_by-cost freed (c ∷ cs) h =
    let step = add_u64_exact freed.cost c.cost_mib (omega arith) in
    freed_by-cost (free_one freed c) cs (rw step (omega arith)) ∙ rw step (omega arith)

pub freed_by-device :
    (freed : Freed) (cs : List Loaded)
    → freed.device + total_device cs < u64_mod
    → (freed_by freed cs).device ≡ freed.device + total_device cs
unfolding sum_by free_one
freed_by-device freed [] h = omega arith
freed_by-device freed (c ∷ cs) h =
    let step = add_u64_exact freed.device c.device_mib (omega arith) in
    freed_by-device (free_one freed c) cs (rw step (omega arith)) ∙ rw step (omega arith)

-- A statement of an optional ceiling.
abbrev pub IfSome : Option ℕ → (ℕ → Type 0) → Type 0
IfSome none P = Unit
IfSome (some n) P = P n

pub IfSome-mono :
    (o : Option ℕ) (P Q : ℕ → Type 0) → ((n : ℕ) → P n → Q n) → IfSome o P → IfSome o Q
IfSome-mono none P Q f h = tt
IfSome-mono (some n) P Q f h = f n h
