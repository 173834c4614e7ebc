-- ===== src/Bench/Report/Calendar.antt =====
-- src/bench/report.rs: the two loops of a date against the count of days that a date stands for.
use maestro_llamacpp.Common.{
  ℕ, zero, suc, ◌+◌, ◌-◌, ◌*◌, ◌/◌, ◌<◌, ◌≤◌, some, List, [], ◌∷◌, ◌≡◌, refl, ltb, arith,
  Bool-cases, inl, inr, ◌∙◌, ap, subst, sum_by,
}
use maestro_llamacpp.Bench.Report.Leap.{leap_turn}
use maestro_llamacpp.Bench.Report.{
  leap, year_length, year_loop, month_lengths, month_loop, Date, date_of,
}

-- The days of so many years from 1970.
unfoldable pub days_of_years : ℕ → ℕ
days_of_years zero = 0
days_of_years (suc n) = days_of_years n + year_length (1970 + n)

-- The days of the first so many months.
unfoldable pub days_of_months : ℕ → List ℕ → ℕ
days_of_months zero lengths = 0
days_of_months (suc k) [] = 0
days_of_months (suc k) (l ∷ lengths) = l + days_of_months k lengths

unfoldable pub length_of_month : ℕ → List ℕ → ℕ
length_of_month k [] = 0
length_of_month zero (l ∷ lengths) = l
length_of_month (suc k) (l ∷ lengths) = length_of_month k lengths

year_length_bounds : (year : ℕ) → (365 ≤ year_length year) × (year_length year ≤ 366)
unfolding year_length
year_length_bounds year = elim (Bool-cases (leap year)) [
  | inl e ↦ rw e (omega arith, omega arith)
  | inr e ↦ rw e (omega arith, omega arith)
]

abbrev Turned : ℕ → ℕ × ℕ → Type 0
Turned days (year, left) =
    (n : ℕ) × (year ≡ 1970 + n) × (days_of_years n + left ≡ days) × (left < year_length year)

-- Enough turns end in the year that holds the day.
year_loop_lem :
    (turns n left : ℕ)
    → left < 365 * turns
    → Turned (days_of_years n + left) (year_loop turns (1970 + n) left)
unfolding year_loop days_of_years
year_loop_lem zero n left h = absurd (omega arith)
year_loop_lem (suc turns) n left h =
    let (low, high) = year_length_bounds (1970 + n) in
    elim (Bool-cases (ltb left (year_length (1970 + n)))) [
      | inl e ↦ rw (e, year_loop) (n, refl, refl, grind arith)
      | inr e ↦
          let late : year_length (1970 + n) ≤ left = grind arith in
          let rest = year_loop_lem turns (suc n) (left - year_length (1970 + n)) (omega arith) in
          let same : days_of_years (suc n) + (left - year_length (1970 + n))
              ≡ days_of_years n + left =
            omega arith in
          let next : 1970 + suc n ≡ suc (1970 + n) = omega arith in
          let left_over = left - year_length (1970 + n) in
          rw (e, year_loop)
            (subst (λ days. Turned days (year_loop turns (suc (1970 + n)) left_over)) same
              (subst
                (λ year.
                  Turned (days_of_years (suc n) + left_over) (year_loop turns year left_over))
                next rest))
    ]

-- A day among the months is found in one of them.
month_loop_lem :
    (month : ℕ) (lengths : List ℕ) (left : ℕ)
    → left < sum_by (λ l. l) lengths
    → (k : ℕ) × (d : ℕ) × (month_loop month lengths left ≡ some (month + k, d))
      × (days_of_months k lengths + d ≡ left)
      × (d < length_of_month k lengths)
unfolding month_loop days_of_months length_of_month sum_by
month_loop_lem month [] left h = absurd (omega arith)
month_loop_lem month (l ∷ lengths) left h = elim (Bool-cases (ltb left l)) [
  | inl e ↦ (
    0,
    left,
    rw (e, month_loop) (ap (λ m. some (m, left)) (omega arith)),
    omega arith,
    grind arith,
  )
  | inr e ↦
      let late : l ≤ left = grind arith in
      let (k, d, found, day, short) = month_loop_lem (suc month) lengths (left - l) (omega arith) in
      (
        suc k,
        d,
        rw (e, month_loop) (found ∙ ap (λ m. some (m, d)) (omega arith)),
        omega arith,
        short,
      )
]

month_lengths_sum : (year : ℕ) → sum_by (λ l. l) (month_lengths year) ≡ year_length year
unfolding month_lengths year_length sum_by
month_lengths_sum year = elim (Bool-cases (leap year)) [ inl e ↦ rw e refl | inr e ↦ rw e refl ]

length_of_month_found : (k d year : ℕ) → d < length_of_month k (month_lengths year) → k < 12
unfolding length_of_month month_lengths
length_of_month_found k d year h = grind arith

-- The days from the first of January 1970 to a date, by the leap days of the Gregorian calendar:
-- the years since 1969 by four, less those since 1901 by a hundred, and those since 1601 by four hundred.
unfoldable pub days_to : Date → ℕ
days_to date =
    (365 * (date.year - 1970)
      + (date.year - 1969) / 4
      + (date.year - 1601) / 400
      - (date.year - 1901) / 100)
    + days_of_months (date.month - 1) (month_lengths date.year)
    + (date.day - 1)

pub record IsDate (date : Date) : Type 0 where
  pub epoch : 1970 ≤ date.year
  pub first_month : 1 ≤ date.month
  pub last_month : date.month ≤ 12
  pub first_day : 1 ≤ date.day
  pub last_day : date.day ≤ length_of_month (date.month - 1) (month_lengths date.year)

-- The leap days by the rule of the calendar: one in four years, none in a hundred, one in four
-- hundred.
days_of_years-leaps :
    (n : ℕ) → days_of_years n + (n + 69) / 100 ≡ 365 * n + (n + 1) / 4 + (n + 369) / 400
unfolding days_of_years
days_of_years-leaps zero = refl
days_of_years-leaps (suc n) =
    let before = days_of_years-leaps n in let turn = leap_turn n in omega arith

-- The date of a day that the two loops have found.
found_day :
    (days year left k d n : ℕ)
    → year ≡ 1970 + n
    → days_of_years n + left ≡ days
    → days_of_months k (month_lengths year) + d ≡ left
    → d < length_of_month k (month_lengths year)
    → IsDate (record { year = year; month = k + 1; day = d + 1 })
      × (days_to (record { year = year; month = k + 1; day = d + 1 }) ≡ days)
unfolding days_to
found_day days year left k d n in_year counted day fits =
    let last = length_of_month_found k d year fits in
    let back : (k + 1) - 1 ≡ k = omega arith in
    let leaps = days_of_years-leaps n in
    (
      record {
        epoch = omega arith;
        first_month = omega arith;
        last_month = omega arith;
        first_day = omega arith;
        last_day = rw back (omega arith);
      },
      rw back (omega arith),
    )

-- Every instant has a date: neither loop runs out, no month's index is out of range, the date is
-- one of the calendar, and the days from 1970 to it are the days that have passed.
pub date_of-IsDate :
    (seconds : ℕ)
    → (date : Date) × (date_of seconds ≡ some date) × IsDate date × (days_to date ≡ seconds / 86400)
unfolding date_of days_of_years
date_of-IsDate seconds =
    let days = seconds / 86400 in
    let reached = year_loop (suc (days / 365)) 1970 days in
    let (n, in_year, counted, short) = year_loop_lem (suc (days / 365)) 0 days (omega arith) in
    let (k, d, found, day, fits) =
      month_loop_lem 0 (month_lengths reached.0) reached.1
        (rw (month_lengths_sum reached.0) short) in
    let start : 0 + k ≡ k = omega arith in
    let found_there : month_loop 0 (month_lengths reached.0) reached.1 ≡ some (k, d) =
      found ∙ ap (λ m. some (m, d)) start in
    let (valid, same) =
      found_day days reached.0 reached.1 k d n in_year (counted ∙ omega arith) day fits in
    (record { year = reached.0; month = k + 1; day = d + 1 }, rw found_there refl, valid, same)
