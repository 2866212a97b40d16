-- ===== src/Windows/Normal.antt =====
-- schedule/schedule.go: the validation of a window.
use kive.Prelude.{
  ℕ, Bool, true, false, not, ◌&&◌, ◌||◌, Option, none, some, List, [], ◌∷◌, ◌++◌, Text, codes, ◌==◌,
  ltb, if◌then◌else◌, has, nat_key, text_key,
}
use kive.Windows.{Window, Monthday, normal_word, parse_weekday_name, hhmm_to_minutes}

pub data WindowError : Type 0 where
  bad_recurrence bad_start bad_end bad_day bad_months days_required monthly_by_required :
      WindowError
  monthdays_required bad_monthday bad_week bad_weekday bad_monthly_by months_required : WindowError

pub data Checked (A : Type 0) : Type 0 where
  checked : A → Checked A
  invalid : WindowError → Checked A

-- The loop over the days; `seen` is what `normDays` holds.
unfoldable pub normalize_days : List Text → List Text → Checked (List Text)
normalize_days [] seen = checked seen
normalize_days (day ∷ days) seen =
    let d = normal_word day in
    let skip = normalize_days days seen in
    let add = normalize_days days (seen ++ d ∷ []) in
    if d == [] then skip else elim (parse_weekday_name d) [
      | none ↦ invalid bad_day
      | some wd ↦ if has d seen then skip else add
    ]

unfoldable pub normalize_months : List ℕ → List ℕ → Checked (List ℕ)
normalize_months [] seen = checked seen
normalize_months (m ∷ months) seen =
    let skip = normalize_months months seen in
    let add = normalize_months months (seen ++ m ∷ []) in
    if ltb m 1 || ltb 12 m then invalid bad_months else if has m seen then skip else add

abbrev pub is_recurrence : Text → Bool
is_recurrence r =
    r == codes "daily" || r == codes "weekly" || r == codes "monthly" || r == codes "yearly"

abbrev pub is_week : Text → Bool
is_week w =
    w == codes "first"
    || w == codes "second"
    || w == codes "third"
    || w == codes "fourth"
    || w == codes "last"

abbrev pub monthdays_valid : List Monthday → Bool
monthdays_valid [] = true
monthdays_valid (md ∷ mds) = (md.last || not (ltb md.day 1 || ltb 31 md.day)) && monthdays_valid mds

abbrev pub is_nil : {A : Type 0} → List A → Bool
is_nil [] = true
is_nil (x ∷ xs) = false

-- What follows the months, for a monthly or a yearly window.
unfoldable pub check_monthly : Window → Option WindowError
check_monthly w =
    if w.monthly_by == []
    then some monthly_by_required
    else elim (if w.monthly_by == codes "day"
        then (if is_nil w.monthdays
            then some monthdays_required
            else if monthdays_valid w.monthdays
            then none
            else some bad_monthday)
        else if w.monthly_by == codes "weekday"
        then (if not (is_week w.week)
            then some bad_week
            else elim (parse_weekday_name w.weekday_name) [
              | none ↦ some bad_weekday
              | some wd ↦ none
            ])
        else some bad_monthly_by) [
          | some e ↦ some e
          | none ↦
              if w.recurrence == codes "yearly" && is_nil w.months
              then some months_required
              else none
        ]

unfoldable pub check_recurrence : Window → Option WindowError
unfolding check_monthly
check_recurrence w =
    if w.recurrence == codes "daily"
    then none
    else if w.recurrence == codes "weekly"
    then (if is_nil w.days then some days_required else none)
    else check_monthly w

abbrev pub normal_recurrence : Text → Text
normal_recurrence s = if normal_word s == [] then codes "weekly" else normal_word s

abbrev pub finish_window : Window → Checked Window
finish_window w = elim (check_recurrence w) [ none ↦ checked w | some e ↦ invalid e ]

abbrev pub with_days : Window → Text → List Text → Checked (List ℕ) → Checked Window
with_days w recurrence days (invalid e) = invalid e
with_days w recurrence days (checked months) = finish_window (record w {
  recurrence = recurrence;
  days = days;
  monthly_by = normal_word w.monthly_by;
  week = normal_word w.week;
  weekday_name = normal_word w.weekday_name;
  months = months;
})

abbrev pub with_times : Window → Text → Checked (List Text) → Checked Window
with_times w recurrence (invalid e) = invalid e
with_times w recurrence (checked days) = with_days w recurrence days (normalize_months w.months [])

unfoldable pub normalize_window : Window → Checked Window
unfolding check_recurrence
normalize_window w =
    let recurrence = normal_recurrence w.recurrence in
    if not (is_recurrence recurrence)
    then invalid bad_recurrence
    else elim (hhmm_to_minutes w.start) [
      | none ↦ invalid bad_start
      | some s ↦ elim (hhmm_to_minutes w.close) [
        | none ↦ invalid bad_end
        | some e ↦ with_times w recurrence (normalize_days w.days [])
      ]
    ]
