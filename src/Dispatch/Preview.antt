-- ===== src/Dispatch/Preview.antt =====
-- What goes out on a day, before anything is sent (`build_plan` of app/services/ad_dispatch.py).
use beautypos.Prelude.{
  ℕ, ◌+◌, ◌*◌, ◌/◌, ◌%◌, Bool, true, false, ◌&&◌, not, ◌==◌, if◌then◌else◌, List, [], ◌∷◌, ◌++◌,
  map, Option, none, some, any, length, Result, ok, err, ◌>>=◌, ◌>>◌, raise_if,
}
use beautypos.Prelude.Int.{ℤ}
use beautypos.Text.{Text, text_eq, or_empty}
use beautypos.Calendar.{Date}
use beautypos.Plan.Rows.{AdType, place_traffic, number, get_current_plan, effective_monthly_target}
use beautypos.Plan.Summary.{date_eq}
use beautypos.Plan.Targets.{daily_target_for_date}
use beautypos.Keyword.Store.{Keyword}
use beautypos.Keyword.Rotation.{usable_keywords, pick_for_date}
use beautypos.Dispatch.State.{
  Row, Source, auto, SkipReason, no_keyword, no_plan, zero_target, already_done, integration_off,
  no_price, no_config, no_place_code, invalid_config, counts_as_executed, Message,
  place_code_not_numeric,
}
use beautypos.Dispatch.Config.{
  Setting, Merchant, AdConfig, type_code, visit, visit_actions, is_manual_mode, config_error,
  find_config, has_place_code,
}

-- The part of a configuration that an order is built from
pub record Mission : Type 0 where
  pub mission_category : Option Text
  pub mission_action : Option Text
  pub keyword_mode : Text
  pub auto_count : Option ℤ

-- `entry["action"]` with the reason to skip
pub data Verdict : Type 0 where
  dispatch : Verdict
  skip : SkipReason → Verdict

-- An entry of the plan; orders and retries make entries of their own, with a source.
pub record Item : Type 0 where
  pub merchant_id : ℕ
  pub place_code : Option Text
  pub ad_type : AdType
  pub source : Source
  pub ad_order_id : Option ℕ
  pub target : ℕ
  pub keywords : List Text
  pub mission : Option Mission
  pub unit_price : ℕ
  pub est_cost : ℕ
  pub verdict : Verdict
  pub validation_error : Option Message
  pub mission_action_override : Option Text

abbrev pub is_auto : Source → Bool
is_auto auto = true
is_auto _ = false

abbrev pub is_for_day : ℕ → AdType → Date → Row → Bool
is_for_day m t day r =
    r.merchant_id == m && (number r.ad_type == number t && date_eq r.execution_date day)

abbrev pub was_executed : ℕ → AdType → Date → Row → Bool
was_executed m t day r = is_auto r.source && (is_for_day m t day r && counts_as_executed r)

unfoldable pub already_executed : List Row → ℕ → AdType → Date → Bool
already_executed rows m t day = any (was_executed m t day) rows

abbrev pub blank_entry : Setting → Merchant → AdType → Item
blank_entry s m t = record {
  merchant_id = m.id;
  place_code = m.place_code;
  ad_type = t;
  source = auto;
  ad_order_id = none;
  target = 0;
  keywords = [];
  mission = none;
  unit_price = s.unit_price t;
  est_cost = 0;
  verdict = dispatch;
  validation_error = none;
  mission_action_override = none;
}

abbrev pub skipped_for : SkipReason → Item → Item
skipped_for reason e = record e { verdict = skip reason }

-- A merchant passes all checks, or is skipped with the entry filled in so far.
abbrev pub some_or_skip {ℓ} : {A : Type ℓ} → Option A → Item → Result Item A
some_or_skip (some a) e = ok a
some_or_skip none e = err e

abbrev pub skip_invalid : Option Message → Item → Result Item (Unit {0})
skip_invalid none e = ok tt
skip_invalid (some message) e =
    err (record e { verdict = skip invalid_config; validation_error = some message })

abbrev pub is_empty_list : List Text → Bool
is_empty_list [] = true
is_empty_list (x ∷ xs) = false

abbrev pub mission_of : AdConfig → Mission
mission_of c = record {
  mission_category = c.mission_category;
  mission_action = c.mission_action;
  keyword_mode = c.keyword_mode;
  auto_count = c.auto_count;
}

-- `KEYWORDS_PER_DISPATCH` keywords of the day, which only the mode MANUAL picks
unfoldable pub day_keywords : Setting → ℕ → AdType → Date → Text → List Text
day_keywords s m t day mode =
    if is_manual_mode mode
    then map (λ (k : Keyword). k.keyword)
        (pick_for_date (usable_keywords s.keywords m (type_code t)) day 2)
    else []

-- The checks from the placeCode on
checks_after_config : Setting → Date → Merchant → AdConfig → Item → Result Item Item
unfolding day_keywords
checks_after_config s day m c e =
    let words = day_keywords s m.id e.ad_type day c.keyword_mode in
    let worded = record e { keywords = words } in
    do
      raise_if (not (has_place_code s.is_digit m.place_code)) (record e {
        verdict = skip no_place_code;
        validation_error = some place_code_not_numeric;
      })
      raise_if (is_manual_mode c.keyword_mode && is_empty_list words)
          (skipped_for no_keyword worded)
      raise_if (e.unit_price == 0) (skipped_for no_price worded)
      raise_if (not s.integration_enabled) (skipped_for integration_off worded)
      ok (record worded { est_cost = e.unit_price * e.target; verdict = dispatch })

unfoldable pub check_merchant : Setting → List Row → Date → AdType → Merchant → Result Item Item
unfolding already_executed checks_after_config
check_merchant s rows day t m =
    let entry = blank_entry s m t in
    do
      plan ← some_or_skip (get_current_plan s.assignments m.id) (skipped_for no_plan entry)
      let target =
          daily_target_for_date (effective_monthly_target s.overrides m.id t (some plan)) day
      let aimed = record entry { target = target }
      raise_if (target == 0) (skipped_for zero_target aimed)
      raise_if (already_executed rows m.id t day) (skipped_for already_done aimed)
      c ← some_or_skip (find_config s.configs m.id t) (skipped_for no_config aimed)
      let configured = record aimed { mission = some (mission_of c) }
      skip_invalid (config_error c) configured
      checks_after_config s day m c configured

abbrev pub with_action : Text → Option Mission → Option Mission
with_action action none = none
with_action action (some c) = some (record c { mission_action = some action })

abbrev pub action_entry : Item → Text → ℕ → Item
action_entry e action target = record e {
  target = target;
  est_cost = e.unit_price * target;
  mission_action_override = some action;
  mission = with_action action e.mission;
}

-- The first action takes the remainder; an action without a target is left out.
unfoldable pub split_entries : Item → ℕ → ℕ → List Text → List Item
split_entries e base extra [] = []
split_entries e base extra (action ∷ actions) =
    let rest = split_entries e base 0 actions in
    if base + extra == 0 then rest else action_entry e action (base + extra) ∷ rest

-- The target over the eight actions, in the order of the day
unfoldable pub split_visit : Setting → Date → Item → List Item
unfolding split_entries
split_visit s day e =
    let actions = s.shuffle day visit_actions in
    split_entries e (e.target / length actions) (e.target % length actions) actions

abbrev pub category_of : Option Mission → Text
category_of none = []
category_of (some c) = or_empty c.mission_category

unfoldable pub entries_of : Setting → Date → Result Item Item → List Item
unfolding split_visit
entries_of s day (err e) = e ∷ []
entries_of s day (ok e) =
    let parts = split_visit s day e in
    if text_eq (category_of e.mission) visit then parts else e ∷ []

-- `DISPATCHABLE_AD_TYPES` has the one type.
unfoldable pub merchant_items : Setting → List Row → Date → Merchant → List Item
unfolding check_merchant entries_of
merchant_items s rows day m = entries_of s day (check_merchant s rows day place_traffic m)

unfoldable pub items_of : Setting → List Row → Date → List Merchant → List Item
unfolding merchant_items
items_of s rows day [] = []
items_of s rows day (m ∷ ms) = merchant_items s rows day m ++ items_of s rows day ms
