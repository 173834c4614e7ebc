-- ===== src/Proxy/Slots/MakeRoom/Finding.antt =====
-- That `make_room` finds the room which comes free in time: src/proxy/slots/room.rs.
use maestro_llamacpp.Common.{
  ℕ, ◌+◌, ◌<◌, Option, none, some, List, [], ◌∷◌, ◌++◌, ◌≡◌, ◌≢◌, ◌⊎◌, inl, inr, refl, arith, leb,
  All, false, Option-cases,
}
use maestro_llamacpp.Common.Text.{Text}
use maestro_llamacpp.Catalog.{Entry}
use maestro_llamacpp.Queue.{Wait}
use maestro_llamacpp.Admission.Subject.{wanted_of}
use maestro_llamacpp.Admission.Admit.{Decision, fits, unload, blocked, refuse, admit}
use maestro_llamacpp.Proxy.Slots.MakeRoom.{
  Pass, made, done, held_by, attempt, make_room, make_room_from, reached_first,
}

-- On this pass the entry fits, or all that have to go can go.
abbrev pub HasRoom : Option ℕ → Entry → Pass → Type 0
HasRoom limit e pass =
    (admit limit pass.seen (wanted_of e) pass.device_free ≡ fits)
    ⊎ ((ids : List Text) × (admit limit pass.seen (wanted_of e) pass.device_free ≡ unload ids)
        × (pass.blocker ≡ none))

-- This pass does not end the wait: it is over before the deadline, and nothing is refused for good.
pub record GoesOn (limit : Option ℕ) (e : Entry) (deadline : ℕ) (pass : Pass) : Type 0 where
  pub early : pass.now < deadline
  pub open_still :
      (message : Text) → admit limit pass.seen (wanted_of e) pass.device_free ≢ refuse message

attempt-HasRoom :
    (limit : Option ℕ) (e : Entry) (pass : Pass)
    → HasRoom limit e pass
    → attempt limit e pass ≡ done made
unfolding attempt
attempt-HasRoom limit e pass (inl h) = rw (h, attempt) refl
attempt-HasRoom limit e pass (inr (ids, h, free)) = rw (h, free, attempt) refl

-- The decisions, with the equation kept.
Decision-cases :
    (d : Decision)
    → (d ≡ fits)
      ⊎ (((ids : List Text) × (d ≡ unload ids))
          ⊎ (((m : Text) × (d ≡ blocked m)) ⊎ ((m : Text) × (d ≡ refuse m))))
Decision-cases fits = inl refl
Decision-cases (unload ids) = inr (inl (ids, refl))
Decision-cases (blocked m) = inr (inr (inl (m, refl)))
Decision-cases (refuse m) = inr (inr (inr (m, refl)))

attempt-GoesOn :
    (limit : Option ℕ) (e : Entry) (deadline : ℕ) (pass : Pass)
    → GoesOn limit e deadline pass
    → (attempt limit e pass ≡ done made) ⊎ ((held : Text) × (attempt limit e pass ≡ held_by held))
unfolding attempt
attempt-GoesOn limit e deadline pass h =
    elim (Decision-cases (admit limit pass.seen (wanted_of e) pass.device_free)) [
      | inl q ↦ rw (q, attempt) (inl refl)
      | inr (inl (ids, q)) ↦ elim (Option-cases pass.blocker) [
        | inl free ↦ rw (q, free, attempt) (inl refl)
        | inr (blocker, b) ↦ rw (q, b, attempt) (inr (reached_first e blocker, refl))
      ]
      | inr (inr (inl (m, q))) ↦ rw (q, attempt) (inr (m, refl))
      | inr (inr (inr (m, q))) ↦ absurd (h.open_still m q)
    ]

make_room_from-made :
    (limit : Option ℕ) (wait : Wait) (e : Entry) (deadline : ℕ) (before : List Pass) (pass : Pass)
    (later : List Pass)
    → All (GoesOn limit e deadline) before
    → HasRoom limit e pass
    → make_room_from limit wait e deadline (before ++ pass ∷ later) ≡ some made
unfolding make_room_from
make_room_from-made limit wait e deadline [] pass later h room =
    rw (attempt-HasRoom limit e pass room, make_room_from) refl
make_room_from-made limit wait e deadline (first ∷ before) pass later h room =
    elim (attempt-GoesOn limit e deadline first h.0) [
      | inl fits_now ↦ rw (fits_now, make_room_from) refl
      | inr (held, q) ↦
          let early : leb deadline first.now ≡ false = ground (arith, h.0.early) in
          rw (q, make_room_from)
            (rw early (make_room_from-made limit wait e deadline before pass later h.1 room))
    ]

-- Room that comes free in time is found: if on some pass the entry fits, or all that have to go
-- can go, and every pass before it ended before the wait was over without a refusal, then
-- `make_room` says that there is room.
pub make_room-made :
    (limit : Option ℕ) (wait : Wait) (e : Entry) (start : ℕ) (before : List Pass) (pass : Pass)
    (later : List Pass)
    → All (GoesOn limit e (start + wait.duration)) before
    → HasRoom limit e pass
    → make_room limit wait e start (before ++ pass ∷ later) ≡ some made
unfolding make_room
make_room-made limit wait e start before pass later h room =
    make_room_from-made limit wait e (start + wait.duration) before pass later h room
