-- ===== src/Calendar.antt =====
-- The parts of Python's `calendar` and `datetime.date` that the services compute with
-- (app/utils/kst.py, app/services/plan_service.py, app/services/ad_dispatch_scheduler.py).
use beautypos.Prelude.{
  ℕ, zero, suc, ◌+◌, ◌-◌, ◌*◌, ◌/◌, ◌%◌, Bool, ◌&&◌, ◌||◌, not, ◌==◌, if◌then◌else◌,
}

pub record Date : Type 0 where
  pub year : ℕ
  pub month : ℕ
  pub day : ℕ

unfoldable pub is_leap : ℕ → Bool
is_leap y = y % 4 == 0 && (not (y % 100 == 0) || y % 400 == 0)

-- `monthrange(year, month)[1]`
unfoldable pub days_in_month : ℕ → ℕ → ℕ
unfolding is_leap
days_in_month y m =
    if m == 2
    then if is_leap y then 29 else 28
    else if m == 4 || m == 6 || m == 9 || m == 11
    then 30
    else 31

-- The days before January 1 of a year from 1 on, as `date.toordinal` counts them.
unfoldable pub days_before_year : ℕ → ℕ
days_before_year y = let n = y - 1 in n * 365 + n / 4 - n / 100 + n / 400

unfoldable pub days_before_month : ℕ → ℕ → ℕ
unfolding days_in_month
days_before_month y zero = 0
days_before_month y (suc zero) = 0
days_before_month y (suc (suc m)) = days_before_month y (suc m) + days_in_month y (suc m)

-- `date.toordinal`, which is 1 on January 1 of the year 1, a Monday
unfoldable pub toordinal : Date → ℕ
unfolding days_before_year days_before_month
toordinal d = days_before_year d.year + days_before_month d.year d.month + d.day

unfoldable pub weekday : Date → ℕ
unfolding toordinal
weekday d = (toordinal d + 6) % 7
