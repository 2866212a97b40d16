-- ===== src/Windows/Overnight.antt =====
-- schedule/schedule.go: the instants of a window that may run past midnight.
use kive.Prelude.{
  ℕ, ◌+◌, ◌*◌, ◌≤◌, ◌<◌, ◌≡◌, refl, true, Option, none, some, List, [], ◌∷◌, arith, Text, leb,
  if◌then◌else◌, trim_space, split, nat_key, text_key, ◌↔◌, ◌⊎◌,
}
use kive.Windows.{
  Window, atoi_up_to, parse_parts, parse_hhmm, hhmm_to_minutes, date_matches_window,
  time_in_window_minutes, window_allows_instant,
}
use kive.Windows.Calendar.{Date, previous_day}

atoi_up_to_bound : (limit : ℕ) (s : Text) (n : ℕ) → atoi_up_to limit s ≡ some n → n ≤ limit
unfolding atoi_up_to
atoi_up_to_bound limit [] n e = ground arith
atoi_up_to_bound limit (c ∷ s) n e = ground arith

parse_parts_bound :
    (parts : List Text) (h m : ℕ) → parse_parts parts ≡ some (h, m) → (h ≤ 23) × (m ≤ 59)
unfolding parse_parts
parse_parts_bound [] h m e = ground arith
parse_parts_bound (a ∷ []) h m e = ground arith
parse_parts_bound (a ∷ b ∷ []) h m e =
    ground (arith, atoi_up_to_bound 23 a h, atoi_up_to_bound 59 b m)
parse_parts_bound (a ∷ b ∷ c ∷ []) h m e =
    ground (arith, atoi_up_to_bound 23 a h, atoi_up_to_bound 59 b m)
parse_parts_bound (a ∷ b ∷ c ∷ d ∷ parts) h m e = ground arith

minutes_bound :
    (o : Option (ℕ × ℕ)) (n : ℕ)
    → ((h m : ℕ) → o ≡ some (h, m) → (h ≤ 23) × (m ≤ 59))
    → elim o [ none ↦ none | some (h, m) ↦ some (h * 60 + m) ] ≡ some n
    → n < 1440
minutes_bound none n b e = ground arith
minutes_bound (some (h, m)) n b e = ground (arith, b h m refl)

pub hhmm_to_minutes_bound : (s : Text) (n : ℕ) → hhmm_to_minutes s ≡ some n → n < 1440
unfolding hhmm_to_minutes parse_hhmm
hhmm_to_minutes_bound s n e =
    minutes_bound (parse_parts (split b':' (trim_space s))) n
      (parse_parts_bound (split b':' (trim_space s))) e

-- A window allows a minute of a day exactly when the window that opens on this day, or the one that
-- opened the day before, holds it: it is open from its start to its end, which is on the next day
-- when it is not after the start.
pub window_allows_instant_iff :
    (w : Window) (day : Date) (start_min end_min now_min : ℕ)
    → hhmm_to_minutes w.start ≡ some start_min
    → hhmm_to_minutes w.close ≡ some end_min
    → now_min < 1440
    → let until : ℕ = if leb end_min start_min then end_min + 1440 else end_min in
      (window_allows_instant w day now_min ≡ true) ↔ (
        ((date_matches_window w day ≡ true) × (start_min ≤ now_min) × (now_min ≤ until))
        ⊎ ((date_matches_window w (previous_day day) ≡ true)
            × (start_min ≤ now_min + 1440)
            × (now_min + 1440 ≤ until)))
unfolding window_allows_instant time_in_window_minutes
window_allows_instant_iff w day start_min end_min now_min s e now =
    ground
      (arith, hhmm_to_minutes_bound w.start start_min s, hhmm_to_minutes_bound w.close end_min e)
