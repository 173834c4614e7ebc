-- ===== src/Proxy/Interleaving.antt =====
-- How requests, the reaper and a stop interleave over the slots: src/proxy/slots/mod.rs and the
-- modules beside it. Each step holds one slot's lock. A request that starts a child holds the
-- admission lock through its phases; the steps of all others may stand between its own.
pub mod Costs
pub mod Shrinking
pub mod Invariant
pub mod Deciding
pub mod Ledger
pub mod Accounting
pub mod InUse
use mathlib.Core.List.{Mem}
use maestro_llamacpp.Common.{
  ℕ, suc, Bool, true, false, Option, none, some, List, [], ◌∷◌, ◌++◌, ◌==◌, ◌≡◌, ◌≢◌, if◌then◌else◌,
}
use maestro_llamacpp.Common.Text.{Text}
use maestro_llamacpp.Catalog.{Entry}
use maestro_llamacpp.Memory.{Measurement}
use maestro_llamacpp.Admission.Subject.{Loaded, Wanted, wanted_of}
use maestro_llamacpp.Admission.Admit.{Decision, fits, unload, blocked, refuse, admit}
use maestro_llamacpp.Proxy.Child.{
  LoadedChild, Slot, Liveness, Found, live_child, Take, taken, busy_child, empty, take_if_idle,
  take_if_exited, touched,
}
use maestro_llamacpp.Proxy.Slots.{Slots, no_slots, set_slot, seen_one}

-- Where the holder of the admission lock stands.
pub data Phase : Type 0 where
  unheld : Phase
  -- the entry, what the snapshot has seen, and the entries that it has still to look at
  viewing : Entry → List Loaded → List Entry → Phase
  unloading : Entry → List Text → Phase
  starting : Entry → Phase

pub record State : Type 0 where
  pub slots : Slots
  -- the handles alive outside the slots, each by its child
  pub handles : List ℕ
  pub next_child : ℕ
  pub phase : Phase
  pub stopped : Bool

abbrev pub initial : State
initial = record { slots = no_slots; handles = []; next_child = 0; phase = unheld; stopped = false }

abbrev pub hand_out : Option ℕ → List ℕ → List ℕ
hand_out none hs = hs
hand_out (some c) hs = c ∷ hs

unfoldable pub drop_handle : ℕ → List ℕ → List ℕ
drop_handle c [] = []
drop_handle c (h ∷ hs) = if h == c then hs else h ∷ drop_handle c hs

-- `Slots::running`: the slot is looked at, and a live child is handed out.
unfoldable pub run_slot : State → Text → (ℕ → Liveness) → ℕ → State
run_slot s id check now =
    let found = live_child s.handles check now (s.slots id) in
    record s { slots = set_slot s.slots id found.slot; handles = hand_out found.handed s.handles }

abbrev pub put_slot : State → Text → Slot → State
put_slot s id slot = record s { slots = set_slot s.slots id slot }

abbrev pub in_phase : State → Phase → State
in_phase s phase = record s { phase = phase }

-- Where a decision sends the holder: a refusal ends it, a blocked one looks again.
unfoldable pub after_decision : List Entry → Entry → Decision → Phase
after_decision entries e fits = starting e
after_decision entries e (unload ids) = unloading e ids
after_decision entries e (blocked message) = viewing e [] entries
after_decision entries e (refuse message) = unheld

unfoldable pub after_take : List Entry → Entry → List Text → Take → Phase
after_take entries e ids (taken child) = unloading e ids
after_take entries e ids busy_child = viewing e [] entries
after_take entries e ids empty = unloading e ids

-- `Slots::start` and the end of `Slots::admit`: the child's handle and the slot's come together.
unfoldable pub started : (ℕ → Measurement) → State → Entry → ℕ → State
started measure_of s e now = record {
  slots =
      set_slot s.slots e.id (
        some
          (record { child = s.next_child; last_used = now; measured = measure_of s.next_child }));
  handles = s.next_child ∷ s.handles;
  next_child = suc s.next_child;
  phase = unheld;
  stopped = s.stopped;
}

-- The limit, the catalog's entries, and what the machine measures of each child.
module _ (limit : Option ℕ) (entries : List Entry) (measure_of : ℕ → Measurement) where
  pub data Step (s t : State) : Type 0 where
    -- the fast path of any request
    serves : (id : Text) (check : ℕ → Liveness) (now : ℕ) → t ≡ run_slot s id check now → Step s t
    -- a reader is done with its child, and says so
    finishes : (child : ℕ) → t ≡ record s { handles = drop_handle child s.handles } → Step s t
    touches : (id : Text) (now : ℕ) → t ≡ put_slot s id (touched now (s.slots id)) → Step s t
    -- one slot of a sweep
    reaps :
        (id : Text) (check : ℕ → Liveness)
        → t ≡ put_slot s id (take_if_exited s.handles check (s.slots id)).0
        → Step s t
    expires :
        (id : Text) (also : LoadedChild → Bool)
        → t ≡ put_slot s id (take_if_idle s.handles also (s.slots id)).0
        → Step s t
    -- one slot of `Router::stop`
    stops : (id : Text) → t ≡ record (put_slot s id none) { stopped = true } → Step s t
    -- the slow path, from the lock to its release
    begins :
        (e : Entry) (check : ℕ → Liveness) (now : ℕ)
        → Mem e entries
        → s.phase ≡ unheld
        → (live_child s.handles check now (s.slots e.id)).handed ≡ none
        → t ≡ in_phase (run_slot s e.id check now) (viewing e [] entries)
        → Step s t
    views :
        (e : Entry) (seen : List Loaded) (x : Entry) (rest : List Entry)
        → s.phase ≡ viewing e seen (x ∷ rest)
        → t ≡ in_phase s (viewing e (seen ++ seen_one (s.slots x.id) s.handles x) rest)
        → Step s t
    decides :
        (e : Entry) (seen : List Loaded) (free : Option ℕ)
        → s.phase ≡ viewing e seen []
        → t ≡ in_phase s (after_decision entries e (admit limit seen (wanted_of e) free))
        → Step s t
    unloads :
        (e : Entry) (id : Text) (ids : List Text)
        → s.phase ≡ unloading e (id ∷ ids)
        → (let found = take_if_idle s.handles (λ held. true) (s.slots id) in
            t ≡ in_phase (put_slot s id found.0) (after_take entries e ids found.1))
        → Step s t
    unloaded : (e : Entry) → s.phase ≡ unloading e [] → t ≡ in_phase s (starting e) → Step s t
    starts :
        (e : Entry) (now : ℕ) → s.phase ≡ starting e → t ≡ started measure_of s e now → Step s t
    -- the wait is over, the start fails, or the model's file is not there
    gives_up : t ≡ in_phase s unheld → Step s t

  pub data Reach : State → Type 0 where
    here : Reach initial
    next : {s t : State} → Reach s → Step s t → Reach t
