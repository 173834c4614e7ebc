-- ===== src/Bench/Report/Leap.antt =====
-- src/bench/report.rs: what a leap year adds.
use maestro_llamacpp.Common.{if◌then◌else◌, ℕ, ◌+◌, ◌/◌, ◌%◌, ◌≡◌, ◌==◌, arith}
use maestro_llamacpp.Bench.Report.{leap, year_length}

quarter : (n : ℕ) → (n + 2) / 4 ≡ (n + 1) / 4 + (if (1970 + n) % 4 == 0 then 1 else 0)
quarter n = grind arith

hundredth : (n : ℕ) → (n + 70) / 100 ≡ (n + 69) / 100 + (if (1970 + n) % 100 == 0 then 1 else 0)
hundredth n = grind arith

four_hundredth :
    (n : ℕ) → (n + 370) / 400 ≡ (n + 369) / 400 + (if (1970 + n) % 400 == 0 then 1 else 0)
four_hundredth n = grind arith

pub leap_turn :
    (n : ℕ)
    → year_length (1970 + n) + (n + 70) / 100 + (n + 1) / 4 + (n + 369) / 400
      ≡ 365 + (n + 69) / 100 + (n + 2) / 4 + (n + 370) / 400
unfolding year_length leap
leap_turn n = rw (quarter n, hundredth n, four_hundredth n) (grind arith)
