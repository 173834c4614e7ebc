-- ===== src/Idle.antt =====
-- src/idle.rs: how long an on-demand model may sit unused.
pub mod Expired
mod Tests
use maestro_llamacpp.Common.{
  ℕ, ◌-◌, ◌*◌, ◌/◌, Bool, true, not, ◌&&◌, Option, none, some, List, [], ◌∷◌, ◌++◌, map, ◌==◌, leb,
  keep, sort_by_key, if◌then◌else◌,
}
use maestro_llamacpp.Common.Text.{Text, codes, trim, parse_unsigned}
use maestro_llamacpp.Catalog.{is_on_demand}
use maestro_llamacpp.Admission.Subject.{Loaded}
use maestro_llamacpp.Admission.Budget.{Configured, configured, unavailable}

-- The window in milliseconds; none means never.
pub record IdleWindow : Type 0 where
  pub duration : Option ℕ

unfoldable pub new_window : ℕ → IdleWindow
new_window window =
    if window == 0 then record { duration = none } else record { duration = some window }

unfoldable pub window_seconds : IdleWindow → Option ℕ
window_seconds w = elim w.duration [ none ↦ none | some duration ↦ some (duration / 1000) ]

-- `now.duration_since(last_used)` is zero where `last_used` is the later.
unfoldable pub is_expired : ℕ → ℕ → Loaded → Bool
is_expired window now h = is_on_demand h.residency && not h.busy && leb window (now - h.last_used)

unfoldable pub expired_entries : ℕ → List Loaded → ℕ → List Loaded
expired_entries window loaded now =
    sort_by_key (λ h. h.last_used) (keep (is_expired window now) loaded)

unfoldable pub expired : IdleWindow → List Loaded → ℕ → List Text
expired w loaded now = elim w.duration [
  | none ↦ []
  | some window ↦ map (λ (h : Loaded). h.id) (expired_entries window loaded now)
]

window_complaint : Text → Text
window_complaint text =
    codes "MAESTRO_IDLE_UNLOAD_SECONDS carries '"
    ++ text
    ++ codes
        "', which is not a whole number of seconds; unset it for no idle window, or give it a whole number"

unfoldable pub configured_window : Option Text → Configured IdleWindow
unfolding window_complaint
configured_window none = configured (record { duration = none })
configured_window (some []) = configured (record { duration = none })
configured_window (some (c ∷ text)) = elim (parse_unsigned 64 (trim (c ∷ text))) [
  | none ↦ unavailable (window_complaint (c ∷ text))
  | some seconds ↦ configured (new_window (seconds * 1000))
]
