-- ===== src/Plan/Examples.antt =====
-- The theorems on the plans at concrete inputs, and the example of the source.
use beautypos.Prelude.{ℕ, ◌≤◌, ◌≡◌, refl, List, [], ◌∷◌, map, none, some, arith}
use beautypos.Prelude.Int.{ℤ, pos}
use beautypos.Calendar.{Date, days_in_month}
use beautypos.Plan.Targets.{daily_target_for_date, daily_target_description, round_div, one_every}
use beautypos.Plan.Targets.Spread.{
  daily_sum, daily_sum-month, Describes, daily_target_description-Describes,
}
use beautypos.Plan.Rows.{
  AdType, blog_review, place_traffic, shorts, Plan, Assignment, Override, insert_desc, later,
  is_for, get_current_plan, effective_monthly_target, set_override,
}
use beautypos.Plan.Summary.{Execution, plan_by_merchant, summary_item}
use beautypos.Plan.Latest.{plan_by_merchant-current}
use beautypos.Plan.Overrides.{IsUnique, Sets, set_override-Sets}
use beautypos.Plan.Effective.{Standing, summary_item-Standing}

-- Ten in a month of thirty days: one on the days 3, 6, 9, and so on.
abbrev june : ℕ → Date
june d = record { year = 2026; month = 6; day = d }

june_17 : 17 ≤ days_in_month 2026 6
unfolding days_in_month
june_17 = omega arith

ten_in_june :
    map (λ d. daily_target_for_date (pos 10) (june d)) (1 ∷ 2 ∷ 3 ∷ 4 ∷ 6 ∷ 30 ∷ [])
    ≡ 0 ∷ 0 ∷ 1 ∷ 0 ∷ 1 ∷ 1 ∷ []
unfolding daily_target_for_date days_in_month
ten_in_june = refl

described_as_every_three_days : daily_target_description (pos 10) (june 1) ≡ one_every 3
unfolding daily_target_description days_in_month round_div
described_as_every_three_days = refl

daily_sum-month_example : daily_sum (pos 10) 2026 6 (days_in_month 2026 6) ≡ 10
daily_sum-month_example = daily_sum-month (pos 10) 2026 6

daily_target_description-Describes_example :
    Describes
      (daily_target_description (pos 100) (june 5))
      100
      (days_in_month 2026 6)
      (daily_target_for_date (pos 100) (june 5))
daily_target_description-Describes_example = daily_target_description-Describes (pos 100) 2026 6 4

abbrev targets : ℕ → AdType → ℤ
targets n shorts = pos 0
targets n t = pos n

abbrev basic : Plan
basic = record { id = 1; code = 0x62 ∷ []; name = 0x62 ∷ []; monthly = targets 10 }

abbrev premium : Plan
premium = record { id = 3; code = 0x70 ∷ []; name = 0x70 ∷ []; monthly = targets 60 }

abbrev assign : ℕ → ℕ → ℕ → Plan → Assignment
assign id m at plan = record {
  id = id;
  merchant_id = m;
  plan = plan;
  assigned_at = at;
  assigned_by = none;
}

-- Merchant 7 moved to the premium plan at the time 50, merchant 8 stayed.
abbrev assignments : List Assignment
assignments = assign 1 7 10 basic ∷ assign 2 8 20 basic ∷ assign 3 7 50 premium ∷ []

plan_by_merchant-current_example :
    plan_by_merchant (8 ∷ 7 ∷ []) assignments 7 ≡ get_current_plan assignments 7
plan_by_merchant-current_example =
    plan_by_merchant-current (8 ∷ 7 ∷ []) assignments 7
      (((λ e. omega arith), ((λ e. omega arith), tt)), (((λ e. omega arith), tt), (tt, tt))) refl

moved_to_premium : get_current_plan assignments 7 ≡ some premium
unfolding get_current_plan insert_desc later
moved_to_premium = refl

abbrev overrides : List Override
overrides =
    (record { merchant_id = 7; ad_type = blog_review; monthly_override = some (pos 4) })
    ∷ (record { merchant_id = 7; ad_type = place_traffic; monthly_override = none })
    ∷ []

overrides-IsUnique : IsUnique overrides
unfolding is_for
overrides-IsUnique = (refl, (refl, tt))

set_override-Sets_example : Sets overrides 7 place_traffic (some (pos 90))
set_override-Sets_example =
    set_override-Sets overrides 7 place_traffic (some (pos 90)) overrides-IsUnique

set_to_90 :
    effective_monthly_target
      (set_override overrides 7 place_traffic (some (pos 90)))
      7
      place_traffic
      (some basic)
    ≡ pos 90
unfolding effective_monthly_target set_override is_for
set_to_90 = refl

abbrev executions : List Execution
executions =
    (record {
      merchant_id = 7;
      ad_type = blog_review;
      executed_count = pos 1;
      execution_date = june 3;
    })
    ∷ (record {
      merchant_id = 7;
      ad_type = blog_review;
      executed_count = pos 4;
      execution_date = june 17;
    })
    ∷ []

summary_item-Standing_example :
    Standing
      (june 17)
      executions
      overrides
      (some basic)
      7
      blog_review
      (summary_item (june 17) executions overrides (some basic) 7 blog_review)
summary_item-Standing_example =
    summary_item-Standing (june 17) executions overrides (some basic) 7 blog_review june_17
      overrides-IsUnique
