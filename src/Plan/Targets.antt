-- ===== src/Plan/Targets.antt =====
-- Monthly targets spread over the days of a month (app/services/plan_service.py).
pub mod Spread
use beautypos.Prelude.{ℕ, ◌+◌, ◌-◌, ◌*◌, ◌/◌, ◌%◌, max, Bool, ltb, ◌==◌, if◌then◌else◌}
use beautypos.Prelude.Int.{ℤ, pos_part}
use beautypos.Calendar.{Date, days_in_month}

-- `max(0, int(monthly_target or 0))`
abbrev pub non_negative : ℤ → ℕ
non_negative m = pos_part m

unfoldable pub daily_target_for_date : ℤ → Date → ℕ
daily_target_for_date monthly_target d =
    let monthly = non_negative monthly_target in
    let days = days_in_month d.year d.month in
    let previous = (d.day - 1) * monthly / days in
    let current = d.day * monthly / days in current - previous

unfoldable pub expected_target_through_date : ℤ → Date → ℕ
expected_target_through_date monthly_target d =
    let monthly = non_negative monthly_target in
    let days = days_in_month d.year d.month in d.day * monthly / days

-- Python's `round(a / b)`: to the nearest whole number, a half to the even one.
unfoldable pub round_div : ℕ → ℕ → ℕ
round_div a b =
    let q = a / b in
    let r = a % b in
    if ltb (r + r) b then q else if ltb b (r + r) then q + 1 else if q % 2 == 0 then q else q + 1

-- The sentence that the administrator reads, by its form and the numbers in it.
pub data Description : Type 0 where
  no_target : Description
  one_every : ℕ → Description
  between : ℕ → ℕ → Description
  exactly : ℕ → Description

unfoldable pub daily_target_description : ℤ → Date → Description
unfolding round_div
daily_target_description monthly_target d =
    let monthly = non_negative monthly_target in
    let days = days_in_month d.year d.month in
    let low = monthly / days in
    let remainder = monthly % days in
    let high = low + (if remainder == 0 then 0 else 1) in
    if monthly == 0
    then no_target
    else if ltb monthly days
    then one_every (max 1 (round_div days monthly))
    else if high == low
    then exactly low
    else between low high
