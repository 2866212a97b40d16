-- ===== src/Windows/Weekdays.antt =====
-- schedule/schedule.go: `nthWeekdayOfMonth`.
use kive.Prelude.{
  ℕ, zero, suc, ◌+◌, ◌-◌, ◌*◌, ◌%◌, ◌≤◌, ◌<◌, ◌≡◌, ◌≢◌, refl, false, Option, none, some, arith,
  Text, codes, ◌==◌, nat_key, text_key, list_discrete, inl, inr, Bool-cases, ==_iff, sym, ap, ◌∙◌,
}
use kive.Windows.{last_weekday_loop, nth_weekday_loop, nth_weekday_of_month, week_number}
use kive.Windows.Calendar.{Date, weekday, month_length, days_before}

month_length_range :
    (year month : ℕ) → (28 ≤ month_length year month) × (month_length year month ≤ 31)
unfolding month_length
month_length_range year month = ground arith

abbrev pub date : ℕ → ℕ → ℕ → Date
date year month day = record { year = year; month = month; day = day }

weekday_lem :
    (year month day : ℕ) → weekday (date year month day) ≡ (days_before year month + day) % 7
unfolding weekday
weekday_lem year month day = refl

-- `k` steps back from day `d` to the weekday.
last_weekday_loop_lem :
    (year month wd d k : ℕ)
    → wd < 7
    → k < 7
    → k < d
    → (days_before year month + d) % 7 ≡ (wd + k) % 7
    → last_weekday_loop year month wd d ≡ some (d - k)
unfolding last_weekday_loop
last_weekday_loop_lem year month wd zero k w s l e = absurd (omega arith)
last_weekday_loop_lem year month wd (suc d) zero w s l e =
    ground (arith, weekday_lem year month (suc d))
last_weekday_loop_lem year month wd (suc d) (suc k) w s l e = ground (
  arith,
  weekday_lem year month (suc d),
  last_weekday_loop_lem year month wd d k w (omega arith) (omega arith) (omega arith),
)

-- `k` days on to the weekday, and a week more for each occurrence after it.
nth_weekday_loop_lem :
    (year month wd f day left k : ℕ)
    → k < 7
    → k + 7 * left < f
    → day + k + 7 * left ≤ month_length year month
    → (days_before year month + day + k) % 7 ≡ wd
    → nth_weekday_loop year month wd f day (suc left) ≡ some (day + k + 7 * left)
unfolding nth_weekday_loop
nth_weekday_loop_lem year month wd zero day left k s l len e = absurd (omega arith)
nth_weekday_loop_lem year month wd (suc f) day zero zero s l len e =
    ground (arith, weekday_lem year month day)
nth_weekday_loop_lem year month wd (suc f) day (suc left) zero s l len e =
    let next =
      nth_weekday_loop_lem year month wd f (suc day) left 6 (omega arith) (omega arith)
        (omega arith) (omega arith) in
    ground (arith, weekday_lem year month day, next)
nth_weekday_loop_lem year month wd (suc f) day left (suc k) s l len e =
    let next =
      nth_weekday_loop_lem year month wd f (suc day) left k (omega arith) (omega arith)
        (omega arith) (omega arith) in
    ground (arith, weekday_lem year month day, next)

last_has_no_number : week_number (codes "last") ≡ none
unfolding list_discrete
last_has_no_number = refl

none_no_number : (n : ℕ) → (◌≢◌ {A = Option ℕ} none (some n))
none_no_number n = ground arith

not_last : (week : Text) (n : ℕ) → week_number week ≡ some n → (week == codes "last") ≡ false
not_last week n e = elim (Bool-cases (week == codes "last")) [
  | inr other ↦ other
  | inl same ↦
      let is_last : week ≡ codes "last" = (==_iff week (codes "last")).0 same in
      absurd (none_no_number n (sym (ap week_number is_last ∙ last_has_no_number) ∙ e))
]

week_number_range : (week : Text) (n : ℕ) → week_number week ≡ some n → (1 ≤ n) × (n ≤ 4)
week_number_range week n e = ground arith

nth_weekday_of_month_loop :
    (year month wd n : ℕ) (week : Text)
    → week_number week ≡ some n
    → nth_weekday_of_month year month week wd ≡ nth_weekday_loop year month wd 31 1 (suc (n - 1))
unfolding nth_weekday_of_month
nth_weekday_of_month_loop year month wd n week e =
    let other = not_last week n e in
    let positive = week_number_range week n e in
    let same : suc (n - 1) ≡ n = omega arith in rw (other, e, same) refl

-- The first to fourth occurrence of a weekday in a month lies in the first to fourth seven days of
-- the month.
pub nth_weekday_of_month_lem :
    (year month wd n : ℕ) (week : Text)
    → wd < 7
    → week_number week ≡ some n
    → (d : ℕ) × (nth_weekday_of_month year month week wd ≡ some d)
      × (weekday (date year month d) ≡ wd)
      × (7 * (n - 1) < d)
      × (d ≤ 7 * n)
nth_weekday_of_month_lem year month wd n week w e =
    let positive = week_number_range week n e in
    let long = month_length_range year month in
    let k = (wd + 7 * (days_before year month + 1) - (days_before year month + 1)) % 7 in
    let d = 1 + k + 7 * (n - 1) in
    (
      d,
      nth_weekday_of_month_loop year month wd n week e
          ∙ nth_weekday_loop_lem year month wd 31 1 (n - 1) k (omega arith) (omega arith)
              (omega arith) (omega arith),
      weekday_lem year month d ∙ omega arith,
      omega arith,
      omega arith,
    )

-- The last occurrence of a weekday in a month lies in its last seven days.
pub last_weekday_of_month_lem :
    (year month wd : ℕ)
    → wd < 7
    → (d : ℕ) × (nth_weekday_of_month year month (codes "last") wd ≡ some d)
      × (weekday (date year month d) ≡ wd)
      × (d ≤ month_length year month)
      × (month_length year month < d + 7)
unfolding nth_weekday_of_month list_discrete
last_weekday_of_month_lem year month wd w =
    let len = month_length year month in
    let k = (days_before year month + len + 7 - wd) % 7 in
    let long = month_length_range year month in
    (
      len - k,
      last_weekday_loop_lem year month wd len k w (omega arith) (omega arith) (omega arith),
      weekday_lem year month (len - k) ∙ omega arith,
      omega arith,
      omega arith,
    )
