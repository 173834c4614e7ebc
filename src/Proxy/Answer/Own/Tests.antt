-- ===== src/Proxy/Answer/Own/Tests.antt =====
-- Two entries that generate, one of them loaded, and one that embeds.
use maestro_llamacpp.Common.{
  ℕ, Bool, Option, true, false, none, some, List, [], ◌∷◌, map, any, keep, filter_map, ◌≡◌, refl,
}
use maestro_llamacpp.Common.Text.{Text, codes, text_eq, lowercase, trim}
use maestro_llamacpp.Memory.{largest_mib}
use maestro_llamacpp.Catalog.{Entry, Flags, on_demand, get_flag}
use maestro_llamacpp.Catalog.Capability.{generates}
use maestro_llamacpp.Catalog.Estimate.Served.{says_no}
use maestro_llamacpp.Proxy.Slots.{Slots, set_slot, no_slots, snapshot, loaded_ids, memory}
use maestro_llamacpp.Proxy.Answer.Own.{Offer, collected, offer, catalogue}
use maestro_llamacpp.Proxy.Answer.Own.Offered.{described, catalogue-described}

abbrev offered_entry : Text → Flags → Entry
offered_entry id flags = record {
  id = id;
  path = record { text = codes "m.gguf" };
  draft_path = none;
  projector_path = none;
  context_size = 4096;
  residency = on_demand;
  memory_estimate_mib = 3000;
  reasoning_format = none;
  reasoning_effort = none;
  startup_timeout_seconds = 1;
  runtime = none;
  flags = flags;
}

abbrev three_entries : List Entry
three_entries =
    offered_entry (codes "a") []
    ∷ offered_entry (codes "b") []
    ∷ offered_entry (codes "e") ((codes "embeddings", codes "true") ∷ [])
    ∷ []

abbrev b_loaded : Slots
b_loaded = set_slot no_slots (codes "b") (
    some (record {
      child = 1;
      last_used = 0;
      measured = record { resident_mib = some 2900; device_mib = some 3100 };
    }))

abbrev shown : Offer → Text × Bool × Option ℕ
shown o = (o.id, o.loaded, o.held_mib)

catalogue_of_three :
    map shown (catalogue b_loaded b_loaded three_entries)
    ≡ (codes "a", false, none) ∷ (codes "b", true, some 3100) ∷ []
unfolding catalogue offer collected keep any generates filter_map loaded_ids memory snapshot
    set_slot largest_mib codes text_eq get_flag says_no lowercase trim
catalogue_of_three = refl

catalogue-described_example :
    catalogue b_loaded no_slots three_entries
    ≡ map (described b_loaded no_slots) (keep generates three_entries)
catalogue-described_example = catalogue-described b_loaded no_slots three_entries
