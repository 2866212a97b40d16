-- ===== src/Windows/Samples.antt =====
-- Runs of windows.
use kive.Prelude.{
  ℕ, ◌+◌, ◌-◌, ◌*◌, ◌≤◌, ◌<◌, ◌≡◌, refl, true, some, [], ◌∷◌, arith, codes, ◌↔◌, ◌⊎◌, list_discrete,
  ℕ_discrete, trim_space, split,
}
use kive.Prelude.Decimals.{unsigned_value, digits_value}
use kive.Windows.{
  Window, hhmm_to_minutes, parse_hhmm, parse_parts, atoi_up_to, date_matches_window,
  window_allows_instant, nth_weekday_of_month, week_number,
}
use kive.Windows.Calendar.{Date, previous_day, weekday, month_length}
use kive.Windows.Normal.{normalize_window}
use kive.Windows.Valid.{OnChecked, Valid, normalize_window-Valid}
use kive.Windows.Overnight.{window_allows_instant_iff}
use kive.Windows.Weekdays.{nth_weekday_of_month_lem, last_weekday_of_month_lem, date}

-- Fridays from 22:00 to 04:30.
abbrev night : Window
night = record {
  recurrence = codes "weekly";
  days = codes "fri" ∷ [];
  monthly_by = [];
  week = [];
  weekday_name = [];
  monthdays = [];
  months = [];
  start = codes "22:00";
  close = codes "04:30";
}

abbrev saturday : Date
saturday = date 2025 11 29

starts : hhmm_to_minutes night.start ≡ some 1320
unfolding hhmm_to_minutes parse_hhmm parse_parts atoi_up_to trim_space split ℕ_discrete
    unsigned_value digits_value
starts = refl

ends : hhmm_to_minutes night.close ≡ some 270
unfolding hhmm_to_minutes parse_hhmm parse_parts atoi_up_to trim_space split ℕ_discrete
    unsigned_value digits_value
ends = refl

window_allows_instant_iff_example : (window_allows_instant night saturday 60 ≡ true) ↔ (
    ((date_matches_window night saturday ≡ true) × (1320 ≤ 60) × (60 ≤ 1710))
    ⊎ ((date_matches_window night (previous_day saturday) ≡ true) × (1320 ≤ 1500) × (1500 ≤ 1710)))
window_allows_instant_iff_example =
    window_allows_instant_iff night saturday 1320 270 60 starts ends (omega arith)

normalize_window-Valid_example : OnChecked Valid (normalize_window night)
normalize_window-Valid_example = normalize_window-Valid night

second : week_number (codes "second") ≡ some 2
unfolding list_discrete
second = refl

-- The second Tuesday of November 2025.
nth_weekday_of_month_lem_example :
    (d : ℕ) × (nth_weekday_of_month 2025 11 (codes "second") 2 ≡ some d)
    × (weekday (date 2025 11 d) ≡ 2)
    × (7 * (2 - 1) < d)
    × (d ≤ 7 * 2)
nth_weekday_of_month_lem_example =
    nth_weekday_of_month_lem 2025 11 2 2 (codes "second") (omega arith) second

last_weekday_of_month_lem_example :
    (d : ℕ) × (nth_weekday_of_month 2025 11 (codes "last") 5 ≡ some d)
    × (weekday (date 2025 11 d) ≡ 5)
    × (d ≤ month_length 2025 11)
    × (month_length 2025 11 < d + 7)
last_weekday_of_month_lem_example = last_weekday_of_month_lem 2025 11 5 (omega arith)
