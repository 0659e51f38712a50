-- ===== src/Scheduler/FirstWeekday.antt =====
-- Which day is the first weekday of its month (app/services/ad_dispatch_scheduler.py).
use beautypos.Prelude.{ℕ, ◌+◌, ◌-◌, ◌*◌, ◌%◌, ◌≤◌, ◌<◌, ◌≡◌, ◌↔◌, true, ◌==◌, arith, if◌then◌else◌}
use beautypos.Calendar.{Date, toordinal, weekday}
use beautypos.Scheduler.Clock.{skip_weekend, is_first_weekday_of_month, next_run_at}

-- A workday with none before it in its month.
pub record FirstWeekday (d : Date) : Type 0 where
  pub workday : weekday d < 5
  pub before : (k : ℕ) → 1 ≤ k → k < d.day → 5 ≤ weekday (record d { day = k })

-- The weekday moves on by one a day.
weekday-day :
    (d : Date) (k : ℕ)
    → 1 ≤ k
    → weekday (record d { day = k }) ≡ (weekday (record d { day = 1 }) + k - 1) % 7
unfolding weekday toordinal
weekday-day d k h = omega arith

weekday_bound : (d : Date) → weekday d < 7
unfolding weekday
weekday_bound d = omega arith

-- The first weekday is the third if the month begins on a Saturday, the second if on a Sunday.
day-skip_weekend :
    (d : Date)
    → (skip_weekend 2 (record d { day = 1 })).day ≡ (
        if weekday (record d { day = 1 }) == 5
        then 3
        else if weekday (record d { day = 1 }) == 6
        then 2
        else 1)
unfolding skip_weekend
day-skip_weekend d = ground (
  arith,
  weekday-day d 2 (omega arith),
  weekday-day d 3 (omega arith),
  weekday_bound (record d { day = 1 }),
)

-- A day is taken for the first weekday of its month exactly if it is a workday and no day before it
-- in the month is one.
pub is_first_weekday_of_month-FirstWeekday :
    (d : Date) → 1 ≤ d.day → (is_first_weekday_of_month d ≡ true) ↔ FirstWeekday d
unfolding is_first_weekday_of_month
is_first_weekday_of_month-FirstWeekday d h = (
  (λ e. record {
    workday =
        ground (
          arith,
          e,
          day-skip_weekend d,
          weekday-day d d.day h,
          weekday_bound (record d { day = 1 }),
        );
    before = λ k low high.
        ground
          (arith, e, day-skip_weekend d, weekday-day d k low, weekday_bound (record d { day = 1 }));
  }),
  (λ f. ground (
    arith,
    day-skip_weekend d,
    f.workday,
    f.before 1 (omega arith),
    f.before 2 (omega arith),
    f.before 3 (omega arith),
    weekday-day d 2 (omega arith),
    weekday-day d 3 (omega arith),
    weekday-day d d.day h,
    weekday_bound (record d { day = 1 }),
  )),
)

-- The next run lies after now, within a day of it, at the given minute of the day.
next_run_at-Next :
    (now hour minute : ℕ)
    → hour < 24
    → minute < 60
    → (now < next_run_at now hour minute)
      × (next_run_at now hour minute ≤ now + 86400)
      × (next_run_at now hour minute % 86400 ≡ hour * 3600 + minute * 60)
unfolding next_run_at
next_run_at-Next now hour minute h k = ground arith
