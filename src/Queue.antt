-- ===== src/Queue.antt =====
-- src/queue.rs: how long a request waits for room.
use maestro_llamacpp.Common.{ℕ, Bool, not, Option, none, some, [], ◌∷◌, ◌++◌, ◌==◌, ◌*◌}
use maestro_llamacpp.Common.Text.{Text, codes, trim, parse_unsigned}
use maestro_llamacpp.Admission.Budget.{Configured, configured, unavailable}

-- A duration in milliseconds.
pub record Wait : Type 0 where
  pub duration : ℕ

abbrev pub default_wait : ℕ
default_wait = 60 * 1000

wait_complaint : Text → Text
wait_complaint text =
    codes "MAESTRO_ADMISSION_WAIT_SECONDS carries '"
    ++ text
    ++ codes
        "', which is not a whole number of seconds; unset it for the default of 60, or set 0 to refuse rather than wait"

unfoldable pub configured_wait : Option Text → Configured Wait
unfolding wait_complaint
configured_wait none = configured (record { duration = default_wait })
configured_wait (some []) = configured (record { duration = default_wait })
configured_wait (some (c ∷ text)) = elim (parse_unsigned 64 (trim (c ∷ text))) [
  | none ↦ unavailable (wait_complaint (c ∷ text))
  | some seconds ↦ configured (record { duration = seconds * 1000 })
]

unfoldable pub waits : Wait → Bool
waits w = not (w.duration == 0)
