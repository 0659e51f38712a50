-- ===== src/Scheduler/Examples.antt =====
-- The schedulers' theorems at concrete inputs, and runs of them.
use beautypos.Prelude.{
  ℕ, ◌+◌, ◌≤◌, ◌≡◌, refl, ◌↔◌, true, false, List, [], ◌∷◌, none, some, any, arith,
}
use beautypos.Calendar.{Date}
use beautypos.Scheduler.Clock.{is_due, is_first_weekday_of_month}
use beautypos.Scheduler.FirstWeekday.{FirstWeekday, is_first_weekday_of_month-FirstWeekday}
use beautypos.Scheduler.Lock.{returned, raised, interleave}
use beautypos.Scheduler.Runs.{Minute, daily_turns}
use beautypos.Scheduler.Once.{runs_started, runs_started-daily_turns}
use beautypos.Scheduler.Exclusion.{granted, holds, has_returned, waiting, interleave-Exclusive}

-- Monday, June 3, 2024, after a weekend.
abbrev third_of_june : Date
third_of_june = record { year = 2024; month = 6; day = 3 }

is_first_weekday_of_month-FirstWeekday_example :
    (is_first_weekday_of_month third_of_june ≡ true) ↔ FirstWeekday third_of_june
is_first_weekday_of_month-FirstWeekday_example =
    is_first_weekday_of_month-FirstWeekday third_of_june (omega arith)

june_third : is_first_weekday_of_month third_of_june ≡ true
unfolding is_first_weekday_of_month
june_third = refl

june_fourth : is_first_weekday_of_month (record third_of_june { day = 4 }) ≡ false
unfolding is_first_weekday_of_month
june_fourth = refl

-- Three processes: two see no row, one inserts it and the other's insert fails, the third updates
-- first.
abbrev race : List ℕ
race = 0 ∷ 1 ∷ 0 ∷ 1 ∷ 2 ∷ 2 ∷ 0 ∷ []

interleave-Exclusive_example :
    (let s = interleave 20240603 (record { row = none; phases = waiting 3 }) race in
      (granted s.phases + holds 20240603 none ≤ 1)
      × (any has_returned s.phases ≡ true → granted s.phases + holds 20240603 none ≡ 1))
interleave-Exclusive_example = interleave-Exclusive 20240603 3 none race (omega arith)

race_ends :
    (interleave 20240603 (record { row = none; phases = waiting 3 }) race).phases
    ≡ returned false ∷ raised ∷ returned true ∷ []
unfolding interleave
race_ends = refl

-- 14:00, 14:01 and 14:02 with the settings unread.
abbrev minutes : List Minute
minutes =
    (record { settings = none; enabled = true; now = 50400 })
    ∷ (record { settings = none; enabled = true; now = 50460 })
    ∷ (record { settings = none; enabled = true; now = 50520 })
    ∷ []

runs_started-daily_turns_example :
    runs_started (daily_turns 20240603 none (some (some 20240602)) minutes)
      + holds 20240603 (some (some 20240602))
    ≤ 1
runs_started-daily_turns_example =
    runs_started-daily_turns 20240603 none (some (some 20240602)) minutes (omega arith)

starts_once : runs_started (daily_turns 20240603 none (some (some 20240602)) minutes) ≡ 1
unfolding daily_turns is_due
starts_once = refl
