-- ===== src/Bench/Report/Tests.antt =====
-- A day in a leap year.
use maestro_llamacpp.Common.{◌/◌, some, ◌≡◌, refl}
use maestro_llamacpp.Bench.Report.{
  Date, leap, year_length, year_loop, month_lengths, month_loop, date_of,
}
use maestro_llamacpp.Bench.Report.Calendar.{IsDate, days_to, date_of-IsDate}

abbrev leap_day : Date
leap_day = record { year = 2024; month = 2; day = 29 }

date_of-leap_day : date_of 1709210096 ≡ some leap_day
unfolding date_of leap year_length year_loop month_lengths month_loop
date_of-leap_day = refl

date_of-IsDate_example :
    (date : Date) × (date_of 1709210096 ≡ some date)
    × IsDate date
    × (days_to date ≡ 1709210096 / 86400)
date_of-IsDate_example = date_of-IsDate 1709210096
