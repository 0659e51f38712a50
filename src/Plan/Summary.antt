-- ===== src/Plan/Summary.antt =====
-- The summary of targets and executions (`build_summary` of app/services/plan_service.py). The
-- rounded daily average, a float for display, is left out.
use beautypos.Prelude.{
  ℕ, Bool, true, false, ◌&&◌, ◌||◌, ltb, leb, ◌==◌, if◌then◌else◌, List, [], ◌∷◌, map, Option, none,
  some, where_, any,
}
use beautypos.Prelude.Int.{ℤ, pos, ◌+ℤ◌, ◌-ℤ◌, ltb_ℤ, pos_part}
use beautypos.Text.{Text}
use beautypos.Calendar.{Date, days_in_month}
use beautypos.Plan.Targets.{
  daily_target_for_date, expected_target_through_date, daily_target_description, Description,
}
use beautypos.Plan.Rows.{
  AdType, ad_execution_types, number, Plan, Assignment, Override, later, is_for, plan_target,
}

-- `AdExecution`
pub record Execution : Type 0 where
  pub merchant_id : ℕ
  pub ad_type : AdType
  pub executed_count : ℤ
  pub execution_date : Date

abbrev pub date_le : Date → Date → Bool
date_le a b =
    ltb a.year b.year
    || (a.year == b.year && (ltb a.month b.month || (a.month == b.month && leb a.day b.day)))

abbrev pub date_eq : Date → Date → Bool
date_eq a b = a.year == b.year && a.month == b.month && a.day == b.day

-- `month_bounds`
unfoldable pub month_start : Date → Date
month_start d = record d { day = 1 }

unfoldable pub month_end : Date → Date
month_end d = record d { day = days_in_month d.year d.month }

-- The sum of a group of `group_by(merchant_id, ad_type)`, and 0 for a group with no row
unfoldable pub executed : (Execution → Bool) → ℕ → AdType → List Execution → ℤ
executed in_range m ad_type [] = pos 0
executed in_range m ad_type (e ∷ es) =
    let rest = executed in_range m ad_type es in
    if in_range e && e.merchant_id == m && number e.ad_type == number ad_type
    then e.executed_count +ℤ rest
    else rest

unfoldable pub today_executed : Date → ℕ → AdType → List Execution → ℤ
unfolding executed
today_executed target = executed (λ e. date_eq e.execution_date target)

unfoldable pub month_total : Date → ℕ → AdType → List Execution → ℤ
unfolding executed month_start month_end
month_total target = executed (λ e.
    date_le (month_start target) e.execution_date && date_le e.execution_date (month_end target))

-- `.order_by(assigned_at.asc(), id.asc())`
unfoldable pub insert_asc : Assignment → List Assignment → List Assignment
insert_asc a [] = a ∷ []
insert_asc a (b ∷ bs) = let rest = insert_asc a bs in if later a b then b ∷ rest else a ∷ b ∷ bs

unfoldable pub by_earliest : List Assignment → List Assignment
by_earliest [] = []
by_earliest (a ∷ rest) = insert_asc a (by_earliest rest)

-- `{mp.merchant_id: mp.plan for mp in …}.get(m)`: the last row of a key wins.
unfoldable pub last_of : ℕ → List Assignment → Option Assignment
last_of m [] = none
last_of m (a ∷ rest) =
    let found = last_of m rest in
    elim found [ some b ↦ some b | none ↦ if a.merchant_id == m then some a else none ]

unfoldable pub plan_by_merchant : List ℕ → List Assignment → ℕ → Option Plan
unfolding by_earliest last_of
plan_by_merchant merchant_ids rows m =
    elim (last_of m (by_earliest (where_ (λ a. any (λ i. i == a.merchant_id) merchant_ids) rows))) [
      | none ↦ none
      | some a ↦ some a.plan
    ]

-- `override_map.get(m, {}).get(ad_type)`: the last row that has a number wins.
unfoldable pub override_map_get : List Override → ℕ → AdType → Option ℤ
unfolding is_for
override_map_get [] m ad_type = none
override_map_get (r ∷ rs) m ad_type =
    let found = override_map_get rs m ad_type in
    elim found [ some v ↦ some v | none ↦ if is_for m ad_type r then r.monthly_override else none ]

-- `max(0, x)`
abbrev pub at_least_0 : ℤ → ℤ
at_least_0 x = pos (pos_part x)

pub record Item : Type 0 where
  pub ad_type : AdType
  pub daily_target : ℕ
  pub daily_description : Description
  pub expected_to_date : ℕ
  pub monthly_target : ℤ
  pub today_executed : ℤ
  pub month_total : ℤ
  pub daily_remaining : ℤ
  pub pace_remaining : ℤ
  pub monthly_remaining : ℤ
  pub is_behind : Bool
  pub is_over : Bool

abbrev pub or_plan : Option ℤ → ℤ → ℤ
or_plan none target = target
or_plan (some v) target = v

unfoldable pub summary_item :
    Date → List Execution → List Override → Option Plan → ℕ → AdType → Item
unfolding today_executed month_total override_map_get
summary_item target executions overrides plan m ad_type =
    let plan_monthly = plan_target plan ad_type in
    let monthly_target = or_plan (override_map_get overrides m ad_type) plan_monthly in
    let daily_target = daily_target_for_date monthly_target target in
    let expected_to_date = expected_target_through_date monthly_target target in
    let today = today_executed target m ad_type executions in
    let total = month_total target m ad_type executions in
    let monthly_remaining = monthly_target -ℤ total in
    let pace_remaining = at_least_0 (pos expected_to_date -ℤ total) in
    record {
      ad_type = ad_type;
      daily_target = daily_target;
      daily_description = daily_target_description monthly_target target;
      expected_to_date = expected_to_date;
      monthly_target = monthly_target;
      today_executed = today;
      month_total = total;
      daily_remaining = at_least_0 (pos daily_target -ℤ today);
      pace_remaining = pace_remaining;
      monthly_remaining = monthly_remaining;
      is_behind = ltb_ℤ (pos 0) pace_remaining;
      is_over = ltb_ℤ monthly_remaining (pos 0);
    }

-- A `Merchant`, as far as the summary reads it
pub record Merchant : Type 0 where
  pub id : ℕ
  pub name : Text

pub record MerchantSummary : Type 0 where
  pub merchant_id : ℕ
  pub merchant_name : Text
  pub plan : Option Plan
  pub has_override : Bool
  pub items : List Item

abbrev has_number : ℕ → Override → Bool
has_number m r = r.merchant_id == m && (elim r.monthly_override [ none ↦ false | some v ↦ true ])

unfoldable pub build_summary :
    Date → List Merchant → List Execution → List Assignment → List Override → List MerchantSummary
unfolding plan_by_merchant summary_item
build_summary target merchants executions assignments overrides =
    map
      (λ m.
        let plan = plan_by_merchant (map (λ x. x.id) merchants) assignments m.id in
        (record {
          merchant_id = m.id;
          merchant_name = m.name;
          plan = plan;
          has_override = any (has_number m.id) overrides;
          items = map (summary_item target executions overrides plan m.id) ad_execution_types;
        }))
      merchants
