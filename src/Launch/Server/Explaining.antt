-- ===== src/Launch/Server/Explaining.antt =====
-- src/launch/server.rs: what the answer of a start rests on.
use maestro_llamacpp.Common.{
  ℕ, ◌≤◌, ◌<◌, Bool, true, false, not, ◌||◌, Option, none, some, List, [], ◌∷◌, ◌++◌, leb, ◌≡◌, ◌≢◌,
  ◌⊎◌, inl, inr, refl, sym, ap, subst, arith, any, All, Bool-cases, Option-cases, leb→le,
}
use maestro_llamacpp.Common.Text.{Text}
use maestro_llamacpp.Catalog.{Entry}
use maestro_llamacpp.Launch.{Failure}
use maestro_llamacpp.Launch.Server.{
  Had, had, lacking, Poll, Tried, ready, unspawned, exited_loading, overdue, budget_ms,
  exit_failure, overdue_failure, is_ok, has_answered, poll_until, Run, spawn, attempt_once, as_had,
  retried, start,
}
use maestro_llamacpp.Launch.Server.Starting.{Had-cases}

-- A poll that decides nothing.
pub record IsPending (e : Entry) (poll : Poll) : Type 0 where
  pub alive : poll.exited ≡ none
  pub unanswered : is_ok poll.health ≡ false
  pub in_time : poll.elapsed < budget_ms e

-- What the poll that ends an attempt says, where a probe was answered before it or was not.
abbrev pub Ends : Entry → ℕ → Bool → Poll → Tried → Type 0
Ends e process ever poll (ready p) =
    (p ≡ process) × (poll.exited ≡ none) × (is_ok poll.health ≡ true)
Ends e process ever poll (unspawned f) = ⊥
Ends e process ever poll (exited_loading f lost) =
    (status : Text) × (poll.exited ≡ some status) × (f ≡ exit_failure e status) × (lost ≡ not ever)
Ends e process ever poll (overdue f) =
    (poll.exited ≡ none)
    × (is_ok poll.health ≡ false)
    × (budget_ms e ≤ poll.elapsed)
    × (f ≡ overdue_failure e)

-- The first poll that decides anything ends the attempt.
abbrev pub EndsFirst : Entry → ℕ → Bool → List Poll → Tried → Type 0
EndsFirst e process ever polls tried =
    (before : List Poll) × (poll : Poll) × (later : List Poll) × (polls ≡ before ++ poll ∷ later)
    × All (IsPending e) before
    × Ends e process (any (λ (q : Poll). has_answered q.health) before || ever) poll tried

some-eq : {A : Type 0} (a b : A) → some a ≡ some b → a ≡ b
some-eq a b h = cc

at_first :
    (e : Entry) (process : ℕ) (ever : Bool) (poll : Poll) (polls : List Poll) (t tried : Tried)
    → some t ≡ some tried
    → Ends e process ever poll t
    → EndsFirst e process ever (poll ∷ polls) tried
unfolding any
at_first e process ever poll polls t tried h ends =
    ([], poll, polls, refl, tt, subst (Ends e process ever poll) (some-eq t tried h) ends)

at_later :
    (e : Entry) (process : ℕ) (ever : Bool) (poll : Poll) (polls : List Poll) (tried : Tried)
    → IsPending e poll
    → EndsFirst e process (ever || has_answered poll.health) polls tried
    → EndsFirst e process ever (poll ∷ polls) tried
unfolding any
at_later e process ever poll polls tried pending (before, last, later, split, all, ends) =
    let answered = any (λ (q : Poll). has_answered q.health) before in
    let same : (answered || (ever || has_answered poll.health))
        ≡ ((has_answered poll.health || answered) || ever) =
      ground arith in
    (
      poll ∷ before,
      last,
      later,
      ap (λ ps. poll ∷ ps) split,
      (pending, all),
      subst (λ b. Ends e process b last tried) same ends,
    )

poll_until-EndsFirst :
    (e : Entry) (process : ℕ) (ever : Bool) (polls : List Poll) (tried : Tried)
    → poll_until e process ever polls ≡ some tried
    → EndsFirst e process ever polls tried
unfolding poll_until
poll_until-EndsFirst e process ever [] tried h = absurd (cc)
poll_until-EndsFirst e process ever (poll ∷ polls) tried h = elim (Option-cases poll.exited) [
  | inr (status, q) ↦
      at_first e process ever poll polls _ tried (rw (q, poll_until) at h) (status, q, refl, refl)
  | inl q ↦ elim (Bool-cases (is_ok poll.health)) [
    | inl ok ↦
        at_first e process ever poll polls _ tried (rw (q, ok, poll_until) at h) (refl, q, ok)
    | inr not_ok ↦ elim (Bool-cases (leb (budget_ms e) poll.elapsed)) [
      | inl late ↦
          at_first e process ever poll polls _ tried (rw (q, not_ok, late, poll_until) at h)
            (q, not_ok, leb→le _ _ late, refl)
      | inr early ↦
          at_later e process ever poll polls tried
            (record { alive = q; unanswered = not_ok; in_time = ground arith })
            (poll_until-EndsFirst e process (ever || has_answered poll.health) polls tried
              (rw (q, not_ok, early, poll_until) at h))
    ]
  ]
]

-- What an attempt's end rests on: its spawn, and the first of its polls that decides anything.
abbrev pub Explained : Text → Entry → Text → Run → Tried → Type 0
Explained binary e path run tried =
    ((f : Failure) × (spawn run.world binary e path ≡ lacking f) × (tried ≡ unspawned f))
    ⊎ ((process : ℕ) × (spawn run.world binary e path ≡ had process)
        × EndsFirst e process false run.polls tried)

attempt_once-Explained :
    (binary : Text) (e : Entry) (path : Text) (run : Run) (tried : Tried)
    → attempt_once binary e path run ≡ some tried
    → Explained binary e path run tried
unfolding attempt_once
attempt_once-Explained binary e path run tried h =
    elim (Had-cases (spawn run.world binary e path)) [
      | inl (process, q) ↦ inr (
        process,
        q,
        poll_until-EndsFirst e process false run.polls tried (rw (q, attempt_once) at h),
      )
      | inr (f, q) ↦ inl (f, q, sym (some-eq (unspawned f) tried (rw (q, attempt_once) at h)))
    ]

-- The attempts of a start: the second is made only when the first one's child exited before a
-- probe ever reached it, and then its end is the start's.
abbrev pub Attempts : Option Tried → Option Tried → Had ℕ → Type 0
Attempts first second result =
    ((t : Tried) × (first ≡ some t)
      × ((f : Failure) → t ≢ exited_loading f true)
      × (result ≡ as_had t))
    ⊎ ((f : Failure) × (u : Tried) × (first ≡ some (exited_loading f true))
        × (second ≡ some u)
        × (result ≡ as_had u))

retried-Attempts :
    (first second : Option Tried) (result : Had ℕ)
    → retried first second ≡ some result
    → Attempts first second result
retried-Attempts none second result h = absurd (cc)
retried-Attempts (some (exited_loading f true)) none result h = absurd (cc)
retried-Attempts (some (exited_loading f true)) (some u) result h =
    inr (f, u, refl, refl, sym (some-eq (as_had u) result h))
retried-Attempts (some (exited_loading f false)) second result h =
    inl (exited_loading f false, refl, (λ g q. cc), sym (some-eq (lacking f) result h))
retried-Attempts (some (ready process)) second result h =
    inl (ready process, refl, (λ g q. cc), sym (some-eq (had process) result h))
retried-Attempts (some (unspawned f)) second result h =
    inl (unspawned f, refl, (λ g q. cc), sym (some-eq (lacking f) result h))
retried-Attempts (some (overdue f)) second result h =
    inl (overdue f, refl, (λ g q. cc), sym (some-eq (lacking f) result h))

-- What the answer of a start rests on. Its end is that of one attempt: of the second only if the
-- first one's child exited before a probe ever reached it. An attempt ends at the first poll on
-- which the process has exited, or the health endpoint answers 200, or the startup budget is
-- over, looked at in this order; it is ready only in the second case.
pub start-Explained :
    (binary : Text) (e : Entry) (path : Text) (first second : Run) (result : Had ℕ)
    → start binary e path first second ≡ some result
    → ((t : Tried) × Explained binary e path first t
        × ((f : Failure) → t ≢ exited_loading f true)
        × (result ≡ as_had t))
      ⊎ ((f : Failure) × (u : Tried) × Explained binary e path first (exited_loading f true)
          × Explained binary e path second u
          × (result ≡ as_had u))
unfolding start
start-Explained binary e path first second result h =
    elim (retried-Attempts (attempt_once binary e path first) (attempt_once binary e path second)
      result h) [
        | inl (t, q, settled, r) ↦
            inl (t, attempt_once-Explained binary e path first t q, settled, r)
        | inr (f, u, q, s, r) ↦ inr (
          f,
          u,
          attempt_once-Explained binary e path first (exited_loading f true) q,
          attempt_once-Explained binary e path second u s,
          r,
        )
      ]
