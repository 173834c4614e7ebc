-- ===== src/Bench/Report.antt =====
-- src/bench/report.rs: the date that a comment carries, from the days since 1970.
mod Calendar
mod Leap
mod Tests
use maestro_llamacpp.Common.{
  ℕ, zero, suc, ◌+◌, ◌-◌, ◌*◌, ◌/◌, ◌%◌, ◌<◌, ◌≤◌, Bool, true, false, not, ◌&&◌, ◌||◌, Option, none,
  some, List, [], ◌∷◌, ◌==◌, ◌≡◌, refl, ltb, arith, Bool-cases, inl, inr, if◌then◌else◌,
}
use maestro_llamacpp.Common.Options.{◌>>=◌}

unfoldable pub leap : ℕ → Bool
leap year = (year % 4 == 0 && not (year % 100 == 0)) || year % 400 == 0

unfoldable pub year_length : ℕ → ℕ
year_length year = if leap year then 366 else 365

-- The loop over the years: each turn takes 365 days at least.
unfoldable pub year_loop : ℕ → ℕ → ℕ → ℕ × ℕ
year_loop zero year remaining = (year, remaining)
year_loop (suc turns) year remaining = elim (ltb remaining (year_length year)) [
  | true ↦ (year, remaining)
  | false ↦ year_loop turns (suc year) (remaining - year_length year)
]

unfoldable pub month_lengths : ℕ → List ℕ
month_lengths year =
    31 ∷ (if leap year then 29 else 28) ∷ 31 ∷ 30 ∷ 31 ∷ 30 ∷ 31 ∷ 31 ∷ 30 ∷ 31 ∷ 30 ∷ 31 ∷ []

-- The loop over the months; an index past the last one panics.
unfoldable pub month_loop : ℕ → List ℕ → ℕ → Option (ℕ × ℕ)
month_loop month [] remaining = none
month_loop month (l ∷ lengths) remaining = elim (ltb remaining l) [
  | true ↦ some (month, remaining)
  | false ↦ month_loop (suc month) lengths (remaining - l)
]

pub record Date : Type 0 where
  pub year : ℕ
  pub month : ℕ
  pub day : ℕ

unfoldable pub date_of : ℕ → Option Date
date_of seconds =
    let days = seconds / 86400 in
    let (year, left) = year_loop (suc (days / 365)) 1970 days in
    month_loop 0 (month_lengths year) left >>= λ (month, remaining).
    some (record { year = year; month = month + 1; day = remaining + 1 })
