-- ===== src/Windows.antt =====
-- schedule/schedule.go: the windows in which an action is allowed. A month or a day of the month is
-- an `int`; a negative one behaves as 0, which every test here refuses alike. A loaded time zone
-- turns an instant into a local date and minute.
pub mod Calendar
pub mod Normal
pub mod Valid
pub mod Overnight
pub mod Weekdays
mod Samples
use kive.Prelude.{
  ℕ, zero, suc, ◌+◌, ◌-◌, ◌*◌, Bool, true, false, not, ◌&&◌, ◌||◌, Option, none, some, List, [],
  ◌∷◌, ◌++◌, Text, codes, ◌==◌, ltb, leb, if◌then◌else◌, has, insert, trim_space, split, text_key,
  nat_key,
}
use kive.Prelude.Decimals.{unsigned_value}
use kive.Windows.Calendar.{Date, weekday, month_length, previous_day}

pub record Monthday : Type 0 where
  pub last : Bool
  pub day : ℕ

-- `close` is the field `End`.
pub record Window : Type 0 where
  pub recurrence : Text
  pub days : List Text
  pub monthly_by : Text
  pub week : Text
  pub weekday_name : Text
  pub monthdays : List Monthday
  pub months : List ℕ
  pub start : Text
  pub close : Text

unfoldable pub weekday_text : ℕ → Text
weekday_text d =
    if d == 1
    then codes "mon"
    else if d == 2
    then codes "tue"
    else if d == 3
    then codes "wed"
    else if d == 4
    then codes "thu"
    else if d == 5
    then codes "fri"
    else if d == 6
    then codes "sat"
    else if d == 0
    then codes "sun"
    else []

-- `strings.ToLower`, of the characters whose lower case is an ASCII letter.
abbrev lower_char : ℕ → ℕ
lower_char c =
    if leb b'A' c && leb c b'Z'
    then c + 32
    else if c == 0x212a
    then b'k'
    else if c == 0x130
    then b'i'
    else c

abbrev to_lower : Text → Text
to_lower [] = []
to_lower (c ∷ s) = lower_char c ∷ to_lower s

abbrev pub normal_word : Text → Text
normal_word s = to_lower (trim_space s)

unfoldable pub parse_weekday_name : Text → Option ℕ
parse_weekday_name s =
    let word = normal_word s in
    if word == codes "mon"
    then some 1
    else if word == codes "tue"
    then some 2
    else if word == codes "wed"
    then some 3
    else if word == codes "thu"
    then some 4
    else if word == codes "fri"
    then some 5
    else if word == codes "sat"
    then some 6
    else if word == codes "sun"
    then some 0
    else none

-- `strconv.Atoi` and the test that the number is from 0 to `limit`.
unfoldable pub atoi_up_to : ℕ → Text → Option ℕ
atoi_up_to limit [] = none
atoi_up_to limit (c ∷ s) =
    elim (if c == b'+' || c == b'-' then unsigned_value s else unsigned_value (c ∷ s)) [
      | none ↦ none
      | some n ↦ if (c == b'-' && not (n == 0)) || ltb limit n then none else some n
    ]

unfoldable pub parse_parts : List Text → Option (ℕ × ℕ)
unfolding atoi_up_to
parse_parts (hours ∷ minutes ∷ []) = elim (atoi_up_to 23 hours) [
  | none ↦ none
  | some h ↦ elim (atoi_up_to 59 minutes) [ none ↦ none | some m ↦ some (h, m) ]
]
parse_parts (hours ∷ minutes ∷ seconds ∷ []) = elim (atoi_up_to 23 hours) [
  | none ↦ none
  | some h ↦ elim (atoi_up_to 59 minutes) [ none ↦ none | some m ↦ some (h, m) ]
]
parse_parts parts = none

unfoldable pub parse_hhmm : Text → Option (ℕ × ℕ)
unfolding parse_parts
parse_hhmm s = parse_parts (split b':' (trim_space s))

unfoldable pub hhmm_to_minutes : Text → Option ℕ
unfolding parse_hhmm
hhmm_to_minutes s = elim (parse_hhmm s) [ none ↦ none | some (h, m) ↦ some (h * 60 + m) ]

unfoldable pub month_allowed : List ℕ → ℕ → Bool
month_allowed [] month = true
month_allowed (m ∷ months) month = has month (m ∷ months)

-- The walk back from the last day of the month; the fuel counts the days.
unfoldable pub last_weekday_loop : ℕ → ℕ → ℕ → ℕ → Option ℕ
last_weekday_loop year month wd zero = none
last_weekday_loop year month wd (suc d) =
    let rest = last_weekday_loop year month wd d in
    if weekday (record { year = year; month = month; day = suc d }) == wd
    then some (suc d)
    else rest

-- `for day := 1; day <= 31; day++`, with the occurrences that are still to come.
unfoldable pub nth_weekday_loop : ℕ → ℕ → ℕ → ℕ → ℕ → ℕ → Option ℕ
nth_weekday_loop year month wd zero day left = none
nth_weekday_loop year month wd (suc f) day left =
    let skip = nth_weekday_loop year month wd f (suc day) left in
    let count = nth_weekday_loop year month wd f (suc day) (left - 1) in
    if ltb (month_length year month) day
    then none
    else if weekday (record { year = year; month = month; day = day }) == wd
    then (if left == 1 then some day else count)
    else skip

abbrev week_number : Text → Option ℕ
week_number week =
    if week == codes "first"
    then some 1
    else if week == codes "second"
    then some 2
    else if week == codes "third"
    then some 3
    else if week == codes "fourth"
    then some 4
    else none

-- The day of the month.
unfoldable pub nth_weekday_of_month : ℕ → ℕ → Text → ℕ → Option ℕ
unfolding last_weekday_loop nth_weekday_loop
nth_weekday_of_month year month week wd =
    if week == codes "last"
    then last_weekday_loop year month wd (month_length year month)
    else elim (week_number week) [ none ↦ none | some n ↦ nth_weekday_loop year month wd 31 1 n ]

unfoldable pub monthday_matches : List Monthday → ℕ → ℕ → Bool
monthday_matches [] last_day day = false
monthday_matches (md ∷ mds) last_day day =
    let rest = monthday_matches mds last_day day in
    if md.last
    then (if day == last_day then true else rest)
    else if ltb last_day md.day
    then rest
    else if day == md.day
    then true
    else rest

unfoldable pub occurrence_matches : Window → Date → Bool
occurrence_matches w d = elim (parse_weekday_name w.weekday_name) [
  | none ↦ false
  | some wd ↦ elim (nth_weekday_of_month d.year d.month w.week wd) [
    | none ↦ false
    | some day ↦ day == d.day
  ]
]

unfoldable pub date_matches_window : Window → Date → Bool
unfolding month_allowed monthday_matches occurrence_matches
date_matches_window w d =
    if not (month_allowed w.months d.month)
    then false
    else if w.recurrence == codes "daily"
    then true
    else if w.recurrence == codes "weekly"
    then has (weekday_text (weekday d)) w.days
    else if w.recurrence == codes "monthly" || w.recurrence == codes "yearly"
    then (if w.monthly_by == codes "day"
        then monthday_matches w.monthdays (month_length d.year d.month) d.day
        else if w.monthly_by == codes "weekday"
        then occurrence_matches w d
        else false)
    else false

unfoldable pub time_in_window_minutes : ℕ → ℕ → ℕ → Bool
time_in_window_minutes start_min end_min now_min =
    if leb end_min start_min
    then leb start_min now_min || leb now_min end_min
    else leb start_min now_min && leb now_min end_min

-- The local date, and the minute of it.
unfoldable pub window_allows_instant : Window → Date → ℕ → Bool
unfolding time_in_window_minutes
window_allows_instant w day now_min = elim (hhmm_to_minutes w.start) [
  | none ↦ false
  | some start_min ↦ elim (hhmm_to_minutes w.close) [
    | none ↦ false
    | some end_min ↦
        if leb end_min start_min
        then (if date_matches_window w day && leb start_min now_min
            then true
            else if date_matches_window w (previous_day day) && leb now_min end_min
            then true
            else false)
        else date_matches_window w day && time_in_window_minutes start_min end_min now_min
  ]
]

any_allows : List Window → Date → ℕ → Bool
any_allows [] day now_min = false
any_allows (w ∷ ws) day now_min =
    let rest = any_allows ws day now_min in
    if window_allows_instant w day now_min then true else rest

-- `Allows` for a schedule whose time zone is known; `none` is a nil schedule.
unfoldable pub allows : Option (List Window) → Date → ℕ → Bool
unfolding any_allows
allows none day now_min = true
allows (some []) day now_min = true
allows (some (w ∷ ws)) day now_min = any_allows (w ∷ ws) day now_min
