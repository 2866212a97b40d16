-- ===== src/Windows/Valid.antt =====
-- schedule/schedule.go: what a validated window is.
use kive.Prelude.{
  ℕ, ◌≤◌, ◌≡◌, ◌≢◌, refl, true, false, ◌||◌, Option, none, some, List, [], ◌∷◌, ◌++◌, arith, Text,
  codes, ◌==◌, ltb, has, Unique, has-append, append-Unique, nat_key, text_key, ◌⊎◌, inl, inr,
  Option-cases, Bool-cases,
}
use kive.Windows.{Window, Monthday, normal_word, parse_weekday_name, hhmm_to_minutes}
use kive.Windows.Normal.{
  WindowError, Checked, checked, invalid, normalize_days, normalize_months, is_recurrence,
  monthdays_valid, is_week, check_recurrence, check_monthly, normal_recurrence, finish_window,
  with_days, with_times, normalize_window,
}

-- Weekday names, each once.
abbrev pub DaysValid : List Text → Type 0
DaysValid days =
    Unique days × ((d : Text) → has d days ≡ true → (wd : ℕ) × (parse_weekday_name d ≡ some wd))

-- Months from 1 to 12, each once.
abbrev pub MonthsValid : List ℕ → Type 0
MonthsValid months = Unique months × ((m : ℕ) → has m months ≡ true → (1 ≤ m) × (m ≤ 12))

abbrev pub OnChecked : {A : Type 0} → (A → Type 0) → Checked A → Type 0
OnChecked P (checked a) = P a
OnChecked P (invalid e) = Unit

add-DaysValid :
    (d : Text) (wd : ℕ) (seen : List Text)
    → parse_weekday_name d ≡ some wd
    → has d seen ≡ false
    → DaysValid seen
    → DaysValid (seen ++ d ∷ [])
unfolding has
add-DaysValid d wd seen e new (u, names) = (
  append-Unique d seen new u,
  λ x h. elim (Bool-cases (has x seen)) [
    | inl old ↦ names x old
    | inr other ↦ (wd, ground (arith, has-append x seen (d ∷ [])))
  ],
)

no_days-DaysValid : DaysValid []
unfolding has
no_days-DaysValid = (tt, λ d h. absurd (ground arith))

no_months-MonthsValid : MonthsValid []
unfolding has
no_months-MonthsValid = (tt, λ m h. absurd (ground arith))

normalize_days-DaysValid :
    (days seen : List Text) → DaysValid seen → OnChecked DaysValid (normalize_days days seen)
unfolding normalize_days
normalize_days-DaysValid [] seen v = v
normalize_days-DaysValid (day ∷ days) seen v =
    let d = normal_word day in
    let skip = normalize_days-DaysValid days seen v in
    elim (Bool-cases (d == [])) [
      | inl blank ↦ rw blank skip
      | inr filled ↦ elim (Option-cases (parse_weekday_name d)) [
        | inl e ↦ rw (filled, e) tt
        | inr (wd, e) ↦ elim (Bool-cases (has d seen)) [
          | inl old ↦ rw (filled, e, old) skip
          | inr new ↦
              rw (filled, e, new)
                (normalize_days-DaysValid days (seen ++ d ∷ []) (add-DaysValid d wd seen e new v))
        ]
      ]
    ]

add-MonthsValid :
    (m : ℕ) (seen : List ℕ)
    → (ltb m 1 || ltb 12 m) ≡ false
    → has m seen ≡ false
    → MonthsValid seen
    → MonthsValid (seen ++ m ∷ [])
unfolding has
add-MonthsValid m seen inside new (u, range) =
    (append-Unique m seen new u, λ x h. ground (arith, has-append x seen (m ∷ []), range x))

normalize_months-MonthsValid :
    (months seen : List ℕ) → MonthsValid seen → OnChecked MonthsValid (normalize_months months seen)
unfolding normalize_months
normalize_months-MonthsValid [] seen v = v
normalize_months-MonthsValid (m ∷ months) seen v = elim (Bool-cases (ltb m 1 || ltb 12 m)) [
  | inl outside ↦ rw outside tt
  | inr inside ↦ elim (Bool-cases (has m seen)) [
    | inl old ↦ rw (inside, old) (normalize_months-MonthsValid months seen v)
    | inr new ↦
        rw (inside, new)
          (normalize_months-MonthsValid months (seen ++ m ∷ [])
            (add-MonthsValid m seen inside new v))
  ]
]

-- Each day of the month is the last one or lies from 1 to 31.
abbrev pub MonthdaysValid : List Monthday → Type 0
MonthdaysValid [] = Unit
MonthdaysValid (md ∷ mds) = ((md.last ≡ true) ⊎ ((1 ≤ md.day) × (md.day ≤ 31))) × MonthdaysValid mds

abbrev pub WeekValid : Text → Type 0
WeekValid w =
    (w ≡ codes "first")
    ⊎ ((w ≡ codes "second") ⊎ ((w ≡ codes "third") ⊎ ((w ≡ codes "fourth") ⊎ (w ≡ codes "last"))))

-- The fields that a recurrence asks for are there, and have values that it takes.
abbrev pub Complete : Window → Type 0
Complete w =
    ((w.recurrence ≡ codes "daily")
      ⊎ ((w.recurrence ≡ codes "weekly") × (w.days ≢ []))
      ⊎ ((w.recurrence ≢ codes "weekly")
          × (((w.monthly_by ≡ codes "day") × (w.monthdays ≢ []) × MonthdaysValid w.monthdays)
              ⊎ ((w.monthly_by ≡ codes "weekday")
                  × WeekValid w.week
                  × ((wd : ℕ) × (parse_weekday_name w.weekday_name ≡ some wd))))))
    × ((w.recurrence ≢ codes "yearly") ⊎ (w.months ≢ []))

-- The recurrence is known, the start and the end are times of the day, the days are weekdays and the
-- months months, each once, and the fields that the recurrence asks for are there, the days of a month
-- each the last or from 1 to 31, the week one of the five and the weekday a weekday.
abbrev pub Valid : Window → Type 0
Valid w =
    (is_recurrence w.recurrence ≡ true)
    × ((s : ℕ) × (hhmm_to_minutes w.start ≡ some s))
    × ((e : ℕ) × (hhmm_to_minutes w.close ≡ some e))
    × DaysValid w.days
    × MonthsValid w.months
    × Complete w

-- The four recurrences are different texts.
daily_is_not_yearly : codes "daily" ≢ codes "yearly"
daily_is_not_yearly = ground arith

weekly_is_not_yearly : codes "weekly" ≢ codes "yearly"
weekly_is_not_yearly = ground arith

monthdays_valid_lem : (mds : List Monthday) → monthdays_valid mds ≡ true → MonthdaysValid mds
monthdays_valid_lem [] h = tt
monthdays_valid_lem (md ∷ mds) h = (ground arith, monthdays_valid_lem mds (ground arith))

is_week_lem : (w : Text) → is_week w ≡ true → WeekValid w
is_week_lem w h = ground arith

check_monthly-Complete :
    (w : Window) → w.recurrence ≢ codes "weekly" → check_monthly w ≡ none → Complete w
unfolding check_monthly
check_monthly-Complete w other e =
    ground (arith, monthdays_valid_lem w.monthdays, is_week_lem w.week)

check_recurrence-Complete : (w : Window) → check_recurrence w ≡ none → Complete w
unfolding check_recurrence
check_recurrence-Complete w e =
    ground (arith, check_monthly-Complete w, daily_is_not_yearly, weekly_is_not_yearly)

on_reason :
    (P : Window → Type 0) (w : Window) (o : Option WindowError)
    → ((o ≡ none) → P w)
    → OnChecked P (elim o [ none ↦ checked w | some e ↦ invalid e ])
on_reason P w none h = h refl
on_reason P w (some e) h = tt

finish_window-Valid :
    (w : Window)
    → is_recurrence w.recurrence ≡ true
    → ((s : ℕ) × (hhmm_to_minutes w.start ≡ some s))
    → ((e : ℕ) × (hhmm_to_minutes w.close ≡ some e))
    → DaysValid w.days
    → MonthsValid w.months
    → OnChecked Valid (finish_window w)
finish_window-Valid w r s e days months =
    on_reason Valid w (check_recurrence w)
      (λ fine. (r, s, e, days, months, check_recurrence-Complete w fine))

with_days-Valid :
    (w : Window) (recurrence : Text) (days : List Text) (months : Checked (List ℕ))
    → is_recurrence recurrence ≡ true
    → ((s : ℕ) × (hhmm_to_minutes w.start ≡ some s))
    → ((e : ℕ) × (hhmm_to_minutes w.close ≡ some e))
    → DaysValid days
    → OnChecked MonthsValid months
    → OnChecked Valid (with_days w recurrence days months)
with_days-Valid w recurrence days (invalid x) r s e v mv = tt
with_days-Valid w recurrence days (checked months) r s e v mv =
    finish_window-Valid
      (record w {
        recurrence = recurrence;
        days = days;
        monthly_by = normal_word w.monthly_by;
        week = normal_word w.week;
        weekday_name = normal_word w.weekday_name;
        months = months;
      })
      r s e v mv

with_times-Valid :
    (w : Window) (recurrence : Text) (days : Checked (List Text))
    → is_recurrence recurrence ≡ true
    → ((s : ℕ) × (hhmm_to_minutes w.start ≡ some s))
    → ((e : ℕ) × (hhmm_to_minutes w.close ≡ some e))
    → OnChecked DaysValid days
    → OnChecked Valid (with_times w recurrence days)
with_times-Valid w recurrence (invalid x) r s e v = tt
with_times-Valid w recurrence (checked days) r s e v =
    with_days-Valid w recurrence days (normalize_months w.months []) r s e v
      (normalize_months-MonthsValid w.months [] no_months-MonthsValid)

-- A window that passes the validation has a known recurrence, a start and an end that are times of the
-- day, days that are weekdays and months from 1 to 12, each once, and what its recurrence asks for:
-- days for a weekly one, for a monthly or yearly one days of the month, each the last or from 1 to 31,
-- or one of the five weeks and a weekday, and months for a yearly one.
pub normalize_window-Valid : (w : Window) → OnChecked Valid (normalize_window w)
unfolding normalize_window
normalize_window-Valid w = elim (Bool-cases (is_recurrence (normal_recurrence w.recurrence))) [
  | inr unknown ↦ rw unknown tt
  | inl known ↦ elim (Option-cases (hhmm_to_minutes w.start)) [
    | inl e ↦ rw (known, e) tt
    | inr (s, es) ↦ elim (Option-cases (hhmm_to_minutes w.close)) [
      | inl e ↦ rw (known, es, e) tt
      | inr (e, ee) ↦
          rw (known, es, ee)
            (with_times-Valid w (normal_recurrence w.recurrence) (normalize_days w.days []) known
              (s, es) (e, ee) (normalize_days-DaysValid w.days [] no_days-DaysValid))
    ]
  ]
]
