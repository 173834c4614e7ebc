-- ===== src/Proxy/Refusal/Retry.antt =====
-- Which refusal a wait for room comes to.
use mathlib.Core.List.{Mem}
use maestro_llamacpp.Common.{ℕ, ◌+◌, ◌≤◌, Option, none, some, List, ◌≡◌, ◌⊎◌, inl, inr, refl}
use maestro_llamacpp.Catalog.{Entry}
use maestro_llamacpp.Queue.{Wait}
use maestro_llamacpp.Admission.Subject.{wanted_of}
use maestro_llamacpp.Admission.Admit.{refuse, admit}
use maestro_llamacpp.Proxy.Slots.MakeRoom.{
  Pass, failed, Failure, not_ready, unavailable, refused, contended, make_room,
}
use maestro_llamacpp.Proxy.Slots.MakeRoom.Answers.{Explains, make_room-Explains}
use maestro_llamacpp.Proxy.Refusal.{Refusal, of_failure, status, describe, retry_after_seconds}

-- What a client is told, and what it rests on.
abbrev pub TellsRetry : Option ℕ → Entry → ℕ → List Pass → Refusal → Type 0
TellsRetry limit e deadline passes r =
    (status r.cause ≡ 503)
    × (((retry_after_seconds r.cause ≡ some 1)
          × ((pass : Pass) × Mem pass passes × (deadline ≤ pass.now)))
        ⊎ ((retry_after_seconds r.cause ≡ none)
            × ((pass : Pass) × Mem pass passes
                × (admit limit pass.seen (wanted_of e) pass.device_free ≡ refuse r.message))))

tells :
    (limit : Option ℕ) (e : Entry) (deadline : ℕ) (passes : List Pass) (f : Failure)
    → Explains limit e deadline passes (failed f)
    → TellsRetry limit e deadline passes (of_failure f)
unfolding of_failure status describe retry_after_seconds
tells limit e deadline passes (not_ready m) h = absurd h
tells limit e deadline passes (unavailable m) h = absurd h
tells limit e deadline passes (refused m) h = (refl, inr (refl, h))
tells limit e deadline passes (contended m) h = (refl, inl (refl, h))

-- A client whose model finds no room is answered 503. Either it is told to come back after a
-- second, and a pass had ended when the wait was over; or it is not told so, and `admit` refused
-- the entry on a pass, in the words that the client reads.
pub make_room-TellsRetry :
    (limit : Option ℕ) (wait : Wait) (e : Entry) (start : ℕ) (passes : List Pass) (f : Failure)
    → make_room limit wait e start passes ≡ some (failed f)
    → TellsRetry limit e (start + wait.duration) passes (of_failure f)
make_room-TellsRetry limit wait e start passes f h =
    tells limit e (start + wait.duration) passes f
      (make_room-Explains limit wait e start passes (failed f) h)
