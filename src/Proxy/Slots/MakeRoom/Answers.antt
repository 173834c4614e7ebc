-- ===== src/Proxy/Slots/MakeRoom/Answers.antt =====
-- What `make_room` answers, and that it answers.
use mathlib.Core.List.{Mem, mem-cons_self, mem-cons_of_mem}
use maestro_llamacpp.Common.{
  ℕ, ◌+◌, ◌*◌, ◌≤◌, ◌<◌, Option, none, some, List, [], ◌∷◌, ◌≡◌, ◌≢◌, ◌⊎◌, inl, inr, refl, subst,
  arith, leb, leb→le, length, Bool-cases,
}
use maestro_llamacpp.Common.Text.{Text}
use maestro_llamacpp.Catalog.{Entry}
use maestro_llamacpp.Queue.{Wait}
use maestro_llamacpp.Admission.Subject.{wanted_of}
use maestro_llamacpp.Admission.Admit.{fits, unload, refuse, admit}
use maestro_llamacpp.Proxy.Slots.MakeRoom.{
  Pass, Outcome, made, failed, not_ready, unavailable, refused, contended, Attempt, done, held_by,
  attempt, make_room, make_room_from, sweep, contended_message,
}

-- The passes end no sooner than one sleep after another.
abbrev pub Paced : ℕ → List Pass → Type 0
Paced t [] = Unit
Paced t (pass ∷ passes) = (t ≤ pass.now) × Paced (t + sweep) passes

make_room_from-answers :
    (limit : Option ℕ) (wait : Wait) (e : Entry) (deadline t : ℕ) (passes : List Pass)
    → Paced t passes
    → deadline + sweep ≤ t + sweep * length passes
    → 0 < length passes
    → make_room_from limit wait e deadline passes ≢ none
unfolding make_room_from
make_room_from-answers limit wait e deadline t [] p late some_left = absurd (omega arith)
make_room_from-answers limit wait e deadline t (pass ∷ []) p late some_left = ground arith
make_room_from-answers limit wait e deadline t (pass ∷ next ∷ passes) p late some_left =
    ground (arith, make_room_from-answers limit wait e deadline (t + sweep) (next ∷ passes) p.1)

-- What each answer rests on.
abbrev pub Explains : Option ℕ → Entry → ℕ → List Pass → Outcome → Type 0
Explains limit e deadline passes made =
    (pass : Pass) × Mem pass passes
    × ((admit limit pass.seen (wanted_of e) pass.device_free ≡ fits)
        ⊎ ((ids : List Text) × (admit limit pass.seen (wanted_of e) pass.device_free ≡ unload ids)
            × (pass.blocker ≡ none)))
Explains limit e deadline passes (failed (refused m)) =
    (pass : Pass) × Mem pass passes
    × (admit limit pass.seen (wanted_of e) pass.device_free ≡ refuse m)
Explains limit e deadline passes (failed (contended m)) =
    (pass : Pass) × Mem pass passes × (deadline ≤ pass.now)
Explains limit e deadline passes (failed (not_ready m)) = ⊥
Explains limit e deadline passes (failed (unavailable m)) = ⊥

Explains-cons :
    (limit : Option ℕ) (e : Entry) (deadline : ℕ) (pass : Pass) (passes : List Pass) (o : Outcome)
    → Explains limit e deadline passes o
    → Explains limit e deadline (pass ∷ passes) o
Explains-cons limit e deadline pass passes made (q, m, why) = (q, mem-cons_of_mem pass m, why)
Explains-cons limit e deadline pass passes (failed (refused m)) (q, mem, why) =
    (q, mem-cons_of_mem pass mem, why)
Explains-cons limit e deadline pass passes (failed (contended m)) (q, mem, why) =
    (q, mem-cons_of_mem pass mem, why)
Explains-cons limit e deadline pass passes (failed (not_ready m)) h = h
Explains-cons limit e deadline pass passes (failed (unavailable m)) h = h

attempt-Explains :
    (limit : Option ℕ) (e : Entry) (deadline : ℕ) (pass : Pass) (passes : List Pass) (o : Outcome)
    → attempt limit e pass ≡ done o
    → Explains limit e deadline (pass ∷ passes) o
unfolding attempt
attempt-Explains limit e deadline pass passes made h = (pass, mem-cons_self, ground arith)
attempt-Explains limit e deadline pass passes (failed (refused m)) h =
    (pass, mem-cons_self, ground arith)
attempt-Explains limit e deadline pass passes (failed (contended m)) h = ground arith
attempt-Explains limit e deadline pass passes (failed (not_ready m)) h = ground arith
attempt-Explains limit e deadline pass passes (failed (unavailable m)) h = ground arith

Attempt-cases :
    (a : Attempt) → ((o : Outcome) × (a ≡ done o)) ⊎ ((held : Text) × (a ≡ held_by held))
Attempt-cases (done o) = inl (o, refl)
Attempt-cases (held_by held) = inr (held, refl)

make_room_from-Explains :
    (limit : Option ℕ) (wait : Wait) (e : Entry) (deadline : ℕ) (passes : List Pass) (o : Outcome)
    → make_room_from limit wait e deadline passes ≡ some o
    → Explains limit e deadline passes o
unfolding make_room_from
make_room_from-Explains limit wait e deadline [] o h = cc
make_room_from-Explains limit wait e deadline (pass ∷ passes) o h =
    elim (Attempt-cases (attempt limit e pass)) [
      | inl (room, eq) ↦ attempt-Explains limit e deadline pass passes o (ground arith)
      | inr (held, eq) ↦ elim (Bool-cases (leb deadline pass.now)) [
        | inl late ↦
            subst (Explains limit e deadline (pass ∷ passes))
              {x = failed (contended (contended_message e held wait.duration))} (ground arith)
              (pass, mem-cons_self, leb→le _ _ late)
        | inr early ↦
            Explains-cons limit e deadline pass passes o
              (make_room_from-Explains limit wait e deadline passes o (ground arith))
      ]
    ]

-- The wait ends: if the passes end no sooner than one sleep after another, and there are enough of
-- them to fill the wait and one more, `make_room` answers.
pub make_room-answers :
    (limit : Option ℕ) (wait : Wait) (e : Entry) (start : ℕ) (passes : List Pass)
    → Paced start passes
    → wait.duration + sweep ≤ sweep * length passes
    → make_room limit wait e start passes ≢ none
unfolding make_room
make_room-answers limit wait e start passes p enough =
    make_room_from-answers limit wait e (start + wait.duration) start passes p (omega arith)
      (omega arith)

-- What an answer of `make_room` rests on. It says that there is room only after a pass on which
-- `admit` found that the entry fits, or named entries to unload and none of them stopped the
-- unloading. It refuses only what `admit` refused on a pass, in its words. It gives the entry up
-- as contended only after a pass that ended when the wait was over. It fails in no other way.
pub make_room-Explains :
    (limit : Option ℕ) (wait : Wait) (e : Entry) (start : ℕ) (passes : List Pass) (o : Outcome)
    → make_room limit wait e start passes ≡ some o
    → Explains limit e (start + wait.duration) passes o
unfolding make_room
make_room-Explains limit wait e start passes o h =
    make_room_from-Explains limit wait e (start + wait.duration) passes o h
