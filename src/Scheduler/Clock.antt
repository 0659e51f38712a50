-- ===== src/Scheduler/Clock.antt =====
-- When the runs are due (app/services/ad_dispatch_scheduler.py). An instant counts seconds of Korean
-- time, a weekday is 0 on Monday.
use beautypos.Prelude.{
  ℕ, zero, suc, ◌+◌, ◌-◌, ◌*◌, ◌/◌, ◌%◌, Bool, ◌&&◌, ltb, leb, ◌==◌, if◌then◌else◌,
}
use beautypos.Calendar.{Date, weekday}

-- `now.replace(hour=hour, minute=minute, second=0)`, and the next day if that has passed
unfoldable pub next_run_at : ℕ → ℕ → ℕ → ℕ
next_run_at now hour minute =
    let target = now - now % 86400 + hour * 3600 + minute * 60 in
    if leb target now then target + 86400 else target

-- `while first.weekday() >= 5: first += timedelta(days=1)`, on fuel
unfoldable pub skip_weekend : ℕ → Date → Date
unfolding weekday
skip_weekend zero first = first
skip_weekend (suc fuel) first =
    let rest = skip_weekend fuel (record first { day = suc first.day }) in
    if leb 5 (weekday first) then rest else first

-- From the first of a month at most two days are skipped.
unfoldable pub is_first_weekday_of_month : Date → Bool
unfolding skip_weekend
is_first_weekday_of_month d =
    let first = skip_weekend 2 (record d { day = 1 }) in d.day == first.day

-- `now.hour == hour and minute <= now.minute < minute + 5`
unfoldable pub is_due : ℕ → ℕ → ℕ → Bool
is_due now hour minute =
    let now_hour = now / 3600 % 24 in
    let now_minute = now / 60 % 60 in
    now_hour == hour && leb minute now_minute && ltb now_minute (minute + 5)
