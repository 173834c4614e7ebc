-- ===== src/Admission/Choice.antt =====
-- The loop of `Budget::admit` over the candidates: what it takes, and when it stops.
use maestro_llamacpp.Common.{
  ℕ, false, Option, none, List, [], ◌∷◌, ◌++◌, map, ◌≡◌, ◌≢◌, ◌⊎◌, inr, refl, arith, is_none,
  if◌then◌else◌,
}
use maestro_llamacpp.Common.Text.{Text}
use maestro_llamacpp.Admission.Subject.{Loaded, Wanted}
use maestro_llamacpp.Admission.Room.{Room, Freed, nothing_freed, short}
use maestro_llamacpp.Admission.Admit.{
  unload, admit, admit_in, choose, decide, candidates, free_one, room_of, already_loaded,
}

abbrev pub freed_by : Freed → List Loaded → Freed
freed_by freed [] = freed
freed_by freed (c ∷ cs) = freed_by (free_one freed c) cs

module _ (room : Room) (wanted : Wanted) where
  -- What the loop frees is what the candidates that it takes free.
  pub choose-freed_by :
      (cs : List Loaded) (freed : Freed)
      → (choose room wanted cs freed).0 ≡ freed_by freed (choose room wanted cs freed).1
  unfolding choose
  choose-freed_by [] freed = refl
  choose-freed_by (c ∷ cs) freed = ground (arith, choose-freed_by cs (free_one freed c))

  -- The candidates that the loop leaves.
  pub leave : List Loaded → Freed → List Loaded
  leave [] freed = []
  leave (c ∷ cs) freed =
      let rest = leave cs (free_one freed c) in
      if is_none (short room wanted freed) then c ∷ cs else rest

  -- It takes a front of the candidates.
  pub choose-append-leave :
      (cs : List Loaded) (freed : Freed) → (choose room wanted cs freed).1 ++ leave cs freed ≡ cs
  unfolding choose leave
  choose-append-leave [] freed = refl
  choose-append-leave (c ∷ cs) freed = ground (arith, choose-append-leave cs (free_one freed c))

  -- It leaves one only where nothing is short any more.
  pub short-choose :
      (cs : List Loaded) (freed : Freed)
      → (short room wanted (choose room wanted cs freed).0 ≡ none) ⊎ (leave cs freed ≡ [])
  unfolding choose leave
  short-choose [] freed = inr refl
  short-choose (c ∷ cs) freed = ground (arith, short-choose cs (free_one freed c))

  -- Before each one that it takes, something was short.
  pub choose_minimal :
      (cs : List Loaded) (freed : Freed) (front : List Loaded) (c : Loaded) (back : List Loaded)
      → (choose room wanted cs freed).1 ≡ front ++ c ∷ back
      → short room wanted (freed_by freed front) ≢ none
  unfolding choose
  choose_minimal [] freed [] c back e = λ h. cc
  choose_minimal [] freed (d ∷ front) c back e = λ h. cc
  choose_minimal (x ∷ cs) freed [] c back e = ground arith
  choose_minimal (x ∷ cs) freed (d ∷ front) c back e =
      ground (arith, choose_minimal cs (free_one freed x) front c back)

pub record Unloads (limit : Option ℕ) (loaded : List Loaded) (wanted : Wanted) (free : Option ℕ)
    (ids : List Text) : Type 0 where
  pub absent : already_loaded loaded wanted ≡ false
  pub needed : short (room_of limit loaded free) wanted nothing_freed ≢ none
  pub enough :
      short
        (room_of limit loaded free)
        wanted
        (choose (room_of limit loaded free) wanted (candidates loaded wanted) nothing_freed).0
      ≡ none
  pub taken :
      ids
      ≡ map
          (λ (h : Loaded). h.id)
          (choose (room_of limit loaded free) wanted (candidates loaded wanted) nothing_freed).1

-- Every unloading decision comes from the loop over the candidates.
pub admit-Unloads :
    (limit : Option ℕ) (loaded : List Loaded) (wanted : Wanted) (free : Option ℕ) (ids : List Text)
    → admit limit loaded wanted free ≡ unload ids
    → Unloads limit loaded wanted free ids
unfolding admit admit_in decide
admit-Unloads limit loaded wanted free ids h = ground arith
