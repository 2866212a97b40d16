-- ===== src/Windows/Calendar.antt =====
-- The Gregorian calendar that the package `time` works with, from the year 1 on: what
-- schedule/schedule.go uses of it. A day is a date, and midnight of each day exists.
use kive.Prelude.{
  ℕ, zero, suc, ◌+◌, ◌-◌, ◌*◌, ◌/◌, ◌%◌, Bool, not, ◌&&◌, ◌||◌, ◌==◌, leb, if◌then◌else◌, nat_key,
}

pub record Date : Type 0 where
  pub year : ℕ
  pub month : ℕ
  pub day : ℕ

unfoldable pub is_leap : ℕ → Bool
is_leap year = year % 4 == 0 && (not (year % 100 == 0) || year % 400 == 0)

unfoldable pub month_length : ℕ → ℕ → ℕ
unfolding is_leap
month_length year month =
    if month == 2
    then (if is_leap year then 29 else 28)
    else if month == 4 || month == 6 || month == 9 || month == 11
    then 30
    else 31

unfoldable pub days_before_month : ℕ → ℕ → ℕ
days_before_month year zero = 0
days_before_month year (suc zero) = 0
days_before_month year (suc (suc m)) = days_before_month year (suc m) + month_length year (suc m)

-- The days before the first of the month, where the 1st of January of the year 1 is day 1.
unfoldable pub days_before : ℕ → ℕ → ℕ
days_before year month =
    let y = year - 1 in 365 * y + y / 4 - y / 100 + y / 400 + days_before_month year month

-- `time.Weekday`: Sunday is 0. (The 1st of January of the year 1 was a Monday.)
unfoldable pub weekday : Date → ℕ
weekday d = (days_before d.year d.month + d.day) % 7

-- `AddDate(0, 0, -1)`
unfoldable pub previous_day : Date → Date
previous_day d =
    if leb d.day 1
    then (if leb d.month 1
        then record { year = d.year - 1; month = 12; day = 31 }
        else record { year = d.year; month = d.month - 1; day = month_length d.year (d.month - 1) })
    else record d { day = d.day - 1 }
