-- ===== src/Idle/Expired.antt =====
-- Whom the idle window expires.
use mathlib.Core.List.{Mem}
use mathlib.Core.List.Perm
use maestro_llamacpp.Common.{
  ℕ, ◌+◌, ◌≤◌, ◌<◌, true, false, List, map, ◌≡◌, arith, All, All-imp, All-keep, All-keep_of_All,
  All-both, All-Mem, All-at, All-sort_by_key, mem-keep, keep, IsSortedBy, sort_by_key-IsSortedBy,
  sort_by_key-perm,
}
use native.Mathlib.Bridge.{le_prop}
use maestro_llamacpp.Catalog.{on_demand}
use maestro_llamacpp.Admission.Subject.{Loaded}
use maestro_llamacpp.Idle.{IdleWindow, new_window, expired, expired_entries, is_expired}

-- An entry that has gone idle: on-demand, with nobody reading, and unused for the window.
pub record IsIdle (window now : ℕ) (h : Loaded) : Type 0 where
  pub evictable : h.residency ≡ on_demand
  pub unread : h.busy ≡ false
  pub unused : h.last_used + window ≤ now

pub is_expired_iff :
    (window now : ℕ) (h : Loaded)
    → h.last_used ≤ now
    → ((is_expired window now h ≡ true) → IsIdle window now h)
      × (IsIdle window now h → is_expired window now h ≡ true)
unfolding is_expired
is_expired_iff window now h past = (λ e. ground arith, λ i. ground arith)

pub record Expires (w : IdleWindow) (window now : ℕ) (loaded es : List Loaded) : Type 0 where
  pub named : expired w loaded now ≡ map (λ (h : Loaded). h.id) es
  pub loaded_still : All (λ h. Mem h loaded) es
  pub idle : All (IsIdle window now) es
  pub all_idle : (h : Loaded) → Mem h loaded → IsIdle window now h → Mem h es
  pub coldest_first : IsSortedBy (λ (h : Loaded). h.last_used) es

-- With a window that is not zero, and at a moment that no entry's last use is after, the sweep
-- names the loaded entries that are on-demand, idle and unused for at least the window, all of
-- them and no others, in the order of last use.
pub expired_exact :
    (window now : ℕ) (loaded : List Loaded)
    → 0 < window
    → All (λ h. h.last_used ≤ now) loaded
    → (es : List Loaded) × Expires (new_window window) window now loaded es
unfolding expired new_window expired_entries
expired_exact window now loaded pos past =
    let ks = keep (is_expired window now) loaded in
    (
      expired_entries window loaded now,
      record {
        named = ground arith;
        loaded_still =
            All-sort_by_key _ _ ks
              (All-keep_of_All (λ h. Mem h loaded) (is_expired window now) loaded (All-Mem loaded));
        idle = All-sort_by_key _ _ ks (
            All-imp _ _
              (λ h (e : (is_expired window now h ≡ true) × (h.last_used ≤ now)).
                (is_expired_iff window now h e.1).0 e.0)
              ks
              (All-both _ _ ks (All-keep (is_expired window now) loaded)
                (All-keep_of_All _ (is_expired window now) loaded past)));
        all_idle = λ h m i. (Perm.mem_iff (sort_by_key-perm _ ks)).1 (
            mem-keep (is_expired window now) loaded m
              ((is_expired_iff window now h (All-at _ (λ k. le_prop) loaded past m)).1 i));
        coldest_first = sort_by_key-IsSortedBy _ ks;
      },
    )
