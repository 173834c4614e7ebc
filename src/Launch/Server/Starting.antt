-- ===== src/Launch/Server/Starting.antt =====
-- src/launch/server.rs: that a start answers, and what its answer rests on.
use maestro_llamacpp.Common.{
  ℕ, ◌+◌, ◌*◌, ◌≤◌, ◌<◌, Bool, true, false, ◌||◌, Option, none, some, List, [], ◌∷◌, ◌≡◌, ◌≢◌, ◌⊎◌,
  inl, inr, refl, arith, length,
}
use maestro_llamacpp.Common.Text.{Text}
use maestro_llamacpp.Catalog.{Entry}
use maestro_llamacpp.Launch.{Failure}
use maestro_llamacpp.Launch.Server.{
  Had, had, lacking, Poll, poll_interval, Tried, ready, unspawned, exited_loading, overdue,
  budget_ms, has_answered, poll_until, Run, spawn, attempt_once, retried, start,
}

-- The polls come no sooner than one interval after another.
abbrev pub Polled : ℕ → List Poll → Type 0
Polled t [] = Unit
Polled t (poll ∷ polls) = (t ≤ poll.elapsed) × Polled (t + poll_interval) polls

-- There are polls enough to fill the entry's startup budget.
abbrev pub FillsBudget : Entry → Run → Type 0
FillsBudget e run =
    Polled 0 run.polls × (budget_ms e + poll_interval ≤ poll_interval * length run.polls)

poll_until-answers :
    (e : Entry) (process : ℕ) (ever : Bool) (t : ℕ) (polls : List Poll)
    → Polled t polls
    → budget_ms e + poll_interval ≤ t + poll_interval * length polls
    → 0 < length polls
    → poll_until e process ever polls ≢ none
unfolding poll_until
poll_until-answers e process ever t [] p late some_left = absurd (omega arith)
poll_until-answers e process ever t (poll ∷ []) p late some_left = ground arith
poll_until-answers e process ever t (poll ∷ next ∷ polls) p late some_left = ground (
  arith,
  poll_until-answers e process (ever || has_answered poll.health) (t + poll_interval) (next ∷ polls)
      p.1,
)

pub Had-cases :
    {A : Type 0} (h : Had A) → ((a : A) × (h ≡ had a)) ⊎ ((f : Failure) × (h ≡ lacking f))
Had-cases (had a) = inl (a, refl)
Had-cases (lacking f) = inr (f, refl)

attempt_once-answers :
    (binary : Text) (e : Entry) (path : Text) (run : Run)
    → FillsBudget e run
    → attempt_once binary e path run ≢ none
unfolding attempt_once
attempt_once-answers binary e path run (p, enough) =
    elim (Had-cases (spawn run.world binary e path)) [
      | inl (process, q) ↦
          rw (q, attempt_once)
            (poll_until-answers e process false 0 run.polls p (omega arith) (omega arith))
      | inr (failure, q) ↦ rw (q, attempt_once) (λ h. cc)
    ]

retried-answers :
    (first second : Option Tried) → first ≢ none → second ≢ none → retried first second ≢ none
retried-answers none second h k = absurd (h refl)
retried-answers (some (exited_loading f true)) none h k = absurd (k refl)
retried-answers (some (exited_loading f true)) (some t) h k = λ q. cc
retried-answers (some (exited_loading f false)) second h k = λ q. cc
retried-answers (some (ready process)) second h k = λ q. cc
retried-answers (some (unspawned f)) second h k = λ q. cc
retried-answers (some (overdue f)) second h k = λ q. cc

-- A start answers: it ends with a child or a failure, if the polls of each attempt come an
-- interval apart and there are enough of them to fill the entry's startup budget and one more.
pub start-answers :
    (binary : Text) (e : Entry) (path : Text) (first second : Run)
    → FillsBudget e first
    → FillsBudget e second
    → start binary e path first second ≢ none
unfolding start
start-answers binary e path first second h k =
    retried-answers (attempt_once binary e path first) (attempt_once binary e path second)
      (attempt_once-answers binary e path first h) (attempt_once-answers binary e path second k)
