-- ===== src/Dispatch/BlogDates.antt =====
-- When a blog campaign starts and how long it runs (`_next_blog_weekday` and `_blog_work_days` of
-- app/services/ad_dispatch.py, and `date + timedelta`).
use beautypos.Prelude.{ℕ, zero, suc, ◌+◌, ◌-◌, ltb, leb, if◌then◌else◌, max}
use beautypos.Calendar.{Date, days_in_month, toordinal, weekday}
use beautypos.Plan.Summary.{month_end}

-- `d + timedelta(days=1)`
unfoldable pub next_day : Date → Date
next_day d =
    if ltb d.day (days_in_month d.year d.month)
    then record d { day = suc d.day }
    else if ltb d.month 12
    then record d { month = suc d.month; day = 1 }
    else record { year = suc d.year; month = 1; day = 1 }

unfoldable pub add_days : ℕ → Date → Date
unfolding next_day
add_days zero d = d
add_days (suc n) d = add_days n (next_day d)

-- `while d.weekday() >= 5: d += timedelta(days=1)`, in at most as many rounds
unfoldable pub skip_weekend : ℕ → Date → Date
unfolding next_day
skip_weekend zero d = d
skip_weekend (suc n) d =
    let rest = skip_weekend n (next_day d) in if leb 5 (weekday d) then rest else d

-- Two rounds are enough: a weekend has two days.
unfoldable pub next_blog_weekday : Date → ℕ → Date
unfolding add_days skip_weekend next_day
next_blog_weekday d now_kst_hour =
    if leb 5 (weekday d)
    then add_days (7 - weekday d) d
    else if leb 16 now_kst_hour
    then skip_weekend 2 (next_day d)
    else d

unfoldable pub blog_work_days : Date → ℕ
unfolding month_end
blog_work_days start = max 1 (toordinal (month_end start) - toordinal start + 1)
