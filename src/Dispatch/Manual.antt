-- ===== src/Dispatch/Manual.antt =====
-- Orders that a person places with the provider by hand (`supply_unit_price`, `build_manual_queue`,
-- `complete_manual` and `revert_manual` of app/services/ad_dispatch.py).
use beautypos.Prelude.{
  ℕ, ◌+◌, ◌*◌, ◌-◌, Bool, true, false, ◌&&◌, not, ltb, ◌==◌, if◌then◌else◌, List, [], ◌∷◌, map,
  Option, none, some, max, length, where_, sum,
}
use beautypos.Prelude.Int.{ℤ, pos, ◌-ℤ◌}
use beautypos.Text.{Text, codes}
use beautypos.Calendar.{Date}
use beautypos.Plan.Rows.{
  AdType, blog_review, number, Plan, get_current_plan, effective_monthly_target,
}
use beautypos.Plan.Targets.{
  daily_target_for_date, expected_target_through_date, daily_target_description, Description,
}
use beautypos.Plan.Summary.{date_le, month_start, month_end}
use beautypos.Keyword.Store.{Keyword}
use beautypos.Keyword.Rotation.{usable_keywords, pick_for_date}
use beautypos.Dispatch.State.{
  Row, Key, manual, Status, manual_done, SkipReason, no_plan, zero_target, no_price,
  build_idempotency_key, find_key,
}
use beautypos.Dispatch.Config.{Setting, Merchant, type_code, chosen_merchants}

pub record Supply : Type 0 where
  pub price : ℕ
  pub is_ambiguous : Bool

-- `MEDIA_TYPE_BY_AD_TYPE`
abbrev pub media_type : AdType → Option Text
media_type blog_review = some (codes "cloblog")
media_type _ = none

-- `max(values)` of values that are not empty
abbrev pub greatest : ℕ → List ℕ → ℕ
greatest n [] = n
greatest n (k ∷ ks) = max n (greatest k ks)

abbrev pub supply_of : List ℕ → Option Supply
supply_of [] = none
supply_of (n ∷ ns) = some (record { price = greatest n ns; is_ambiguous = ltb 1 (length (n ∷ ns)) })

-- The prices of a medium that the provider does not list are the empty list.
unfoldable pub supply_unit_price : Option (Text → List ℕ) → AdType → Option Supply
supply_unit_price none t = none
supply_unit_price (some by_media) t = elim (media_type t) [
  | none ↦ none
  | some media ↦ supply_of (by_media media)
]

-- Of `MANUAL_AD_TYPES`, which has the one type
abbrev pub is_manual_type : AdType → Bool
is_manual_type t = number t == number blog_review

unfoldable pub manual_row_key : ℕ → AdType → Date → Key
manual_row_key m t day = record { base = build_idempotency_key manual m t day none; action = none }

abbrev pub is_manual_done : Status → Bool
is_manual_done manual_done = true
is_manual_done _ = false

unfoldable pub manual_month_done : List Row → ℕ → AdType → Date → ℕ
manual_month_done [] m t day = 0
manual_month_done (r ∷ rs) m t day =
    let counted =
      r.merchant_id == m
      && (number r.ad_type == number t
          && (date_le (month_start day) r.execution_date
              && (date_le r.execution_date (month_end day)
                  && (is_manual_done r.status && not r.is_dry_run)))) in
    (if counted then r.requested_count else 0) + manual_month_done rs m t day

-- The target of a month, and 0 without a plan
unfoldable pub monthly_or_0 : Setting → ℕ → AdType → ℤ
monthly_or_0 s m t = elim (get_current_plan s.assignments m) [
  | none ↦ pos 0
  | some plan ↦ effective_monthly_target s.overrides m t (some plan)
]

unfoldable pub manual_target : Setting → ℕ → AdType → Date → ℕ
unfolding monthly_or_0
manual_target s m t day = daily_target_for_date (monthly_or_0 s m t) day

pub data QueueState : Type 0 where
  todo completed : QueueState
  nothing_to_do : SkipReason → QueueState

pub record QueueItem : Type 0 where
  pub merchant_id : ℕ
  pub ad_type : AdType
  pub monthly_target : ℤ
  pub month_expected : ℕ
  pub month_done : ℕ
  pub daily_description : Description
  pub target : ℕ
  pub unit_price : ℕ
  pub est_cost : ℕ
  pub supply : Option Supply
  pub required_points : Option ℕ
  pub margin : Option ℤ
  pub keywords : List Text
  pub state : QueueState
  pub dispatch_id : Option ℕ
  pub done_count : ℕ

abbrev pub row_done : Option Row → Bool
row_done none = false
row_done (some r) = is_manual_done r.status

abbrev pub row_id : Option Row → Option ℕ
row_id none = none
row_id (some r) = some r.id

abbrev pub row_count : Option Row → ℕ
row_count none = 0
row_count (some r) = if is_manual_done r.status then r.requested_count else 0

abbrev pub points_for : Option Supply → ℕ → Option ℕ
points_for none n = none
points_for (some supply) n = some (supply.price * n)

-- `(unit_price - supply["price"]) * target`, which is negative if the supply costs more
abbrev pub margin_for : Option Supply → ℕ → ℕ → Option ℤ
margin_for none price n = none
margin_for (some supply) price n = some (pos (price * n) -ℤ pos (supply.price * n))

unfoldable pub queue_state : Option Plan → ℕ → ℕ → Option Row → QueueState
queue_state none target price row = nothing_to_do no_plan
queue_state (some plan) target price row =
    if target == 0
    then nothing_to_do zero_target
    else if price == 0
    then nothing_to_do no_price
    else if row_done row
    then completed
    else todo

abbrev pub is_todo : QueueState → Bool
is_todo todo = true
is_todo _ = false

abbrev pub is_completed : QueueState → Bool
is_completed completed = true
is_completed _ = false

-- The keywords to place the order with, where there is one to place
unfoldable pub queue_keywords : Setting → ℕ → AdType → Date → QueueState → List Text
queue_keywords s m t day todo =
    map (λ (k : Keyword). k.keyword)
      (pick_for_date (usable_keywords s.keywords m (type_code t)) day 2)
queue_keywords s m t day _ = []

unfoldable pub queue_item :
    Setting → List Row → Date → Option (Text → List ℕ) → AdType → Merchant → QueueItem
unfolding supply_unit_price find_key manual_row_key manual_month_done monthly_or_0 queue_state
    queue_keywords
queue_item s rows day by_media t m =
    let plan = get_current_plan s.assignments m.id in
    let price = s.unit_price t in
    let supply = supply_unit_price by_media t in
    let monthly = monthly_or_0 s m.id t in
    let target = daily_target_for_date monthly day in
    let row = find_key (manual_row_key m.id t day) rows in
    let state = queue_state plan target price row in
    record {
      merchant_id = m.id;
      ad_type = t;
      monthly_target = monthly;
      month_expected = expected_target_through_date monthly day;
      month_done = manual_month_done rows m.id t day;
      daily_description = daily_target_description monthly day;
      target = target;
      unit_price = price;
      est_cost = price * target;
      supply = supply;
      required_points = points_for supply target;
      margin = margin_for supply price target;
      keywords = queue_keywords s m.id t day state;
      state = state;
      dispatch_id = row_id row;
      done_count = row_count row;
    }

pub record Queue : Type 0 where
  pub items : List QueueItem
  pub todo_count : ℕ
  pub todo_total : ℕ
  pub todo_cost : ℕ
  pub done_count : ℕ
  pub done_total : ℕ
  pub required_points : Option ℕ
  pub unpriced_count : ℕ

abbrev pub is_priced : QueueItem → Bool
is_priced i = elim i.required_points [ none ↦ false | some n ↦ true ]

abbrev pub points_of : QueueItem → ℕ
points_of i = elim i.required_points [ none ↦ 0 | some n ↦ n ]

abbrev pub some_total : List QueueItem → Option ℕ
some_total [] = none
some_total (i ∷ items) = some (sum (map points_of (i ∷ items)))

unfoldable pub build_manual_queue :
    Setting → List Row → Date → Option ℕ → Option (Text → List ℕ) → Queue
unfolding queue_item
build_manual_queue s rows day only by_media =
    let items = map (queue_item s rows day by_media blog_review) (chosen_merchants s only) in
    let todo_items = where_ (λ (i : QueueItem). is_todo i.state) items in
    let done_items = where_ (λ (i : QueueItem). is_completed i.state) items in
    let priced = where_ is_priced todo_items in
    record {
      items = items;
      todo_count = length todo_items;
      todo_total = sum (map (λ (i : QueueItem). i.target) todo_items);
      todo_cost = sum (map (λ (i : QueueItem). i.est_cost) todo_items);
      done_count = length done_items;
      done_total = sum (map (λ (i : QueueItem). i.done_count) done_items);
      required_points = some_total priced;
      unpriced_count = length todo_items - length priced;
    }
