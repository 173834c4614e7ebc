-- ===== src/Proxy/Tests.antt =====
-- One entry is started, served and put aside for another: a run of the interleavings.
use mathlib.Core.List.{Mem, mem-cons_self, mem-cons_of_mem}
use maestro_llamacpp.Common.{
  ℕ, ◌+◌, ◌≤◌, true, Option, none, some, List, [], ◌∷◌, ◌++◌, ◌≡◌, ◌≢◌, refl, inr, arith, any, keep,
  filter_map, sort_by_key,
}
use maestro_llamacpp.Common.Text.{Text, codes, text_eq}
use maestro_llamacpp.Common.Word.{add_u64, sum_u64}
use maestro_llamacpp.Catalog.{Entry, on_demand, get_flag}
use maestro_llamacpp.Memory.{Measurement, largest_mib}
use maestro_llamacpp.Queue.{Wait}
use maestro_llamacpp.Admission.Subject.{Loaded, loaded_of, wanted_of, device_need_mib}
use maestro_llamacpp.Admission.Room.{short, ledger_fits, device_fits}
use maestro_llamacpp.Admission.Admit.{
  admit, admit_in, decide, choose, candidates, free_one, already_loaded, is_candidate,
}
use maestro_llamacpp.Admission.Exact.{total_cost, IfSome}
use maestro_llamacpp.Proxy.Child.{
  Liveness, running, live_child, exited, busy, strong_count, count_handles, take_if_idle,
}
use maestro_llamacpp.Proxy.Slots.{set_slot, seen_one, held, snapshot}
use maestro_llamacpp.Proxy.Slots.MakeRoom.{
  failed, Failure, contended, contended_message, reached_first, Pass, made, attempt, make_room,
  make_room_from,
}
use maestro_llamacpp.Proxy.Slots.MakeRoom.Answers.{make_room-answers, make_room-Explains, Explains}
use maestro_llamacpp.Proxy.Interleaving.{
  State, unheld, viewing, starting, initial, run_slot, put_slot, in_phase, after_decision,
  after_take, started, drop_handle, begins, views, decides, unloads, unloaded, starts, finishes,
  Reach, here, next,
}
use maestro_llamacpp.Proxy.Interleaving.Accounting.{Accounted}
use maestro_llamacpp.Proxy.Interleaving.InUse.{Reach-Accounted}
use maestro_llamacpp.Proxy.Refusal.{of_failure}
use maestro_llamacpp.Proxy.Refusal.Retry.{TellsRetry, make_room-TellsRetry}
use maestro_llamacpp.Proxy.Slots.MakeRoom.Finding.{make_room-made}
use maestro_llamacpp.Proxy.Pool.{PoolStep}
use maestro_llamacpp.Proxy.Pool.Refine.{pool_of, Step-PoolStep}
use maestro_llamacpp.Proxy.Interleaving.Ledger.{starting-within_limit}

abbrev an_entry : Text → ℕ → Entry
an_entry id mib = record {
  id = id;
  path = record { text = codes "m.gguf" };
  draft_path = none;
  projector_path = none;
  context_size = 4096;
  residency = on_demand;
  memory_estimate_mib = mib;
  reasoning_format = none;
  reasoning_effort = none;
  startup_timeout_seconds = 60;
  runtime = none;
  flags = [];
}

abbrev entry_a : Entry
entry_a = an_entry (b'a' ∷ []) 3000

abbrev entry_b : Entry
entry_b = an_entry (b'b' ∷ []) 2500

abbrev two_entries : List Entry
two_entries = entry_a ∷ entry_b ∷ []

abbrev weighs : ℕ → Measurement
weighs child = record { resident_mib = some 3100; device_mib = some 2900 }

abbrev alive : ℕ → Liveness
alive child = running

abbrev begun : State → Entry → State
begun s e = in_phase (run_slot s e.id alive 5) (viewing e [] two_entries)

-- After the snapshot of both slots.
abbrev seen_both : State → List Loaded
seen_both s =
    ([] ++ seen_one (s.slots entry_a.id) s.handles entry_a)
    ++ seen_one (s.slots entry_b.id) s.handles entry_b

abbrev state_decided : State → Entry → State
state_decided s e =
    in_phase s (after_decision two_entries e (admit (some 4000) (seen_both s) (wanted_of e) none))

-- The first entry is loaded, and its reader is done.
abbrev s_a : State
s_a = started weighs (state_decided (begun initial entry_a) entry_a) entry_a 7

abbrev s_free : State
s_free = record s_a { handles = drop_handle 0 s_a.handles }

-- The second needs its room.
abbrev s_b : State
s_b = state_decided (begun s_free entry_b) entry_b

abbrev s_taken : State
s_taken =
    let found = take_if_idle s_b.handles (λ held. true) (s_b.slots entry_a.id) in
    in_phase (put_slot s_b entry_a.id found.0) (after_take two_entries entry_b [] found.1)

abbrev s_starting : State
s_starting = in_phase s_taken (starting entry_b)

abbrev Runs : State → Type 0
Runs = Reach (some 4000) two_entries weighs

-- The three phases from the lock to the decision, for either entry.
decided_at :
    (s : State) (e : Entry)
    → Mem e two_entries
    → s.phase ≡ unheld
    → (live_child s.handles alive 5 (s.slots e.id)).handed ≡ none
    → Runs s
    → Runs (state_decided (begun s e) e)
decided_at s e m p h r =
    next
      (next
        (next (next r (begins e alive 5 m p h refl)) (views e [] entry_a (entry_b ∷ []) refl refl))
        (views e _ entry_b [] refl refl))
      (decides e (seen_both (begun s e)) none refl refl)

Runs-a : Runs s_a
unfolding run_slot started after_decision live_child set_slot text_eq loaded_of wanted_of
    device_need_mib any get_flag admit admit_in already_loaded decide short ledger_fits device_fits
    add_u64 sum_u64
Runs-a = next (decided_at initial entry_a mem-cons_self refl refl here) (starts entry_a 7 refl refl)

Runs-starting_b : Runs s_starting
unfolding run_slot started after_decision after_take live_child take_if_idle exited busy
    strong_count count_handles drop_handle set_slot text_eq loaded_of wanted_of device_need_mib any
    get_flag admit admit_in already_loaded decide choose candidates free_one is_candidate keep
    sort_by_key short ledger_fits device_fits add_u64 sum_u64 largest_mib
Runs-starting_b =
    next
      (next
        (decided_at s_free entry_b (mem-cons_of_mem entry_a mem-cons_self) refl refl
          (next Runs-a (finishes 0 refl)))
        (unloads entry_b entry_a.id [] refl refl))
      (unloaded entry_b refl refl)

starting-within_limit_example :
    (s_starting.slots entry_b.id ≡ none)
    × IfSome (some 4000) (λ l.
      total_cost (held s_starting.slots s_starting.handles two_entries)
        + entry_b.memory_estimate_mib
      ≤ l)
starting-within_limit_example =
    starting-within_limit (some 4000) two_entries weighs (omega arith)
      (omega arith, (omega arith, tt)) (λ c. (omega arith, omega arith)) s_starting entry_b
      Runs-starting_b refl

-- A room that is held on one pass and free on the next.
abbrev a_pass : ℕ → Option Text → Pass
a_pass now blocker = record {
  device_free = none;
  seen = held s_free.slots s_free.handles two_entries;
  blocker = blocker;
  now = now;
}

abbrev two_passes : List Pass
two_passes = a_pass 0 (some (b'a' ∷ [])) ∷ a_pass 250 none ∷ []

abbrev a_wait : Wait
a_wait = record { duration = 250 }

makes_room : make_room (some 4000) a_wait entry_b 0 two_passes ≡ some made
unfolding make_room make_room_from attempt run_slot started after_decision after_take live_child
    take_if_idle exited busy strong_count count_handles drop_handle set_slot text_eq loaded_of
    wanted_of device_need_mib any get_flag admit admit_in already_loaded decide choose candidates
    free_one is_candidate keep sort_by_key short ledger_fits device_fits add_u64 sum_u64 largest_mib
    held snapshot filter_map
makes_room = refl

make_room-answers_example : make_room (some 4000) a_wait entry_b 0 two_passes ≢ none
make_room-answers_example =
    make_room-answers (some 4000) a_wait entry_b 0 two_passes (omega arith, (omega arith, tt))
      (omega arith)

make_room-Explains_example : Explains (some 4000) entry_b 250 two_passes made
make_room-Explains_example =
    make_room-Explains (some 4000) a_wait entry_b 0 two_passes made makes_room

-- While the first child's reader is still there.
Reach-Accounted_example : Accounted s_a.slots s_a.handles
unfolding started run_slot
Reach-Accounted_example = Reach-Accounted (some 4000) two_entries weighs s_a Runs-a refl

-- The room is held on the only pass, and the wait is over then.
abbrev gave_up : Failure
gave_up = contended (contended_message entry_b (reached_first entry_b (b'a' ∷ [])) 250)

gives_up_b :
    make_room (some 4000) a_wait entry_b 0 (a_pass 250 (some (b'a' ∷ [])) ∷ [])
    ≡ some (failed gave_up)
unfolding make_room make_room_from attempt run_slot started after_decision after_take live_child
    take_if_idle exited busy strong_count count_handles drop_handle set_slot text_eq loaded_of
    wanted_of device_need_mib any get_flag admit admit_in already_loaded decide choose candidates
    free_one is_candidate keep sort_by_key short ledger_fits device_fits add_u64 sum_u64 largest_mib
    held snapshot filter_map
gives_up_b = refl

make_room-TellsRetry_example :
    TellsRetry (some 4000) entry_b 250 (a_pass 250 (some (b'a' ∷ [])) ∷ []) (of_failure gave_up)
make_room-TellsRetry_example =
    make_room-TellsRetry (some 4000) a_wait entry_b 0 (a_pass 250 (some (b'a' ∷ [])) ∷ []) gave_up
      gives_up_b

-- On the first pass another request holds the room, and the second finds it.
make_room-made_example : make_room (some 4000) a_wait entry_b 0 two_passes ≡ some made
unfolding started after_decision after_take live_child take_if_idle exited busy strong_count
    count_handles drop_handle set_slot text_eq loaded_of wanted_of device_need_mib any get_flag
    admit admit_in already_loaded decide choose candidates free_one is_candidate keep sort_by_key
    short ledger_fits device_fits add_u64 sum_u64 largest_mib held snapshot filter_map run_slot
make_room-made_example =
    make_room-made (some 4000) a_wait entry_b 0 (a_pass 0 (some (b'a' ∷ [])) ∷ []) (a_pass 250 none)
      [] (record { early = omega arith; open_still = λ m h. cc }, tt)
      (inr (entry_a.id ∷ [], refl, refl))

-- The second entry is started as a step of the pool.
abbrev s_both : State
s_both = started weighs s_starting entry_b 9

Step-PoolStep_example : PoolStep (pool_of s_starting) (pool_of s_both)
Step-PoolStep_example =
    Step-PoolStep (some 4000) two_entries weighs s_starting s_both Runs-starting_b
      (starts entry_b 9 refl refl)
