-- ===== src/Dispatch/Config.antt =====
-- What a day's plan reads: the merchants, their advertising settings and the prices
-- (app/models/merchant_ad_config.py, and `_config_error` of app/services/ad_dispatch.py).
use beautypos.Prelude.{
  ℕ, suc, Bool, true, false, ◌&&◌, ◌||◌, not, ◌==◌, if◌then◌else◌, List, [], ◌∷◌, Option, none,
  some, any, first, where_,
}
use beautypos.Prelude.Int.{ℤ, pos, eqb_ℤ}
use beautypos.Text.{Text, text_eq, codes, or_empty, is_empty}
use beautypos.Calendar.{Date}
use beautypos.Plan.Rows.{
  AdType, blog_review, receipt_review, place_traffic, place_save, shorts, number, Assignment,
  Override,
}
use beautypos.Keyword.Store.{Table}
use beautypos.Dispatch.State.{Message, bad_mission, bad_keyword_mode, bad_auto_count}

-- A `MerchantAdConfig`; the columns for blogs follow the first five.
pub record AdConfig : Type 0 where
  pub merchant_id : ℕ
  pub ad_type : AdType
  pub mission_category : Option Text
  pub mission_action : Option Text
  pub keyword_mode : Text
  pub auto_count : Option ℤ
  pub blog_place_url : Option Text
  pub blog_place_name : Option Text
  pub blog_main_keyword : Option Text
  pub blog_work_keywords : Option (List Text)
  pub blog_tags : Option (List Text)
  pub blog_post_type : Option Text
  pub blog_store_address : Option Text
  pub blog_store_phone : Option Text
  pub blog_extra_link : Option Text

pub record Merchant : Type 0 where
  pub id : ℕ
  pub name : Text
  pub is_active : Bool
  pub place_code : Option Text

-- The tables and settings of the program that the engine only reads. The merchants are in the order
-- of their names; `is_digit` tells the characters that `str.isdigit` takes for digits, `to_int` is
-- Python's `int` of a text, with nothing where it raises, and `shuffle` is the order that the random
-- numbers seeded with a date give.
pub record Setting : Type 0 where
  pub merchants : List Merchant
  pub assignments : List Assignment
  pub overrides : List Override
  pub keywords : Table
  pub configs : List AdConfig
  pub unit_price : AdType → ℕ
  pub integration_enabled : Bool
  pub dry_run_enabled : Bool
  pub is_digit : ℕ → Bool
  pub to_int : Text → Option ℤ
  pub shuffle : Date → List Text → List Text

abbrev pub type_code : AdType → Text
type_code blog_review = codes "blog_review"
type_code receipt_review = codes "receipt_review"
type_code place_traffic = codes "place_traffic"
type_code place_save = codes "place_save"
type_code shorts = codes "shorts"

abbrev pub visit : Text
visit = codes "VISIT"

abbrev pub visit_actions : List Text
visit_actions =
    codes "WRITE_REVIEW"
    ∷ codes "FIND_PATH"
    ∷ codes "SPOT_CHECK"
    ∷ codes "RANDOM_MISSION"
    ∷ codes "BUSINESS_HOURS"
    ∷ codes "INTRODUCTION"
    ∷ codes "WALK_COUNT"
    ∷ codes "BUS_STATION"
    ∷ []

-- `MISSION_ACTIONS.get(category, [])`
unfoldable pub mission_actions : Text → List Text
mission_actions category =
    if text_eq category visit
    then visit_actions
    else if text_eq category (codes "SAVE")
    then codes "PLACE_SAVE" ∷ []
    else []

abbrev pub is_manual_mode : Text → Bool
is_manual_mode mode = text_eq mode (codes "MANUAL")

abbrev pub is_auto_mode : Text → Bool
is_auto_mode mode = text_eq mode (codes "AUTO")

-- `auto_count in AUTO_COUNT_OPTIONS`
abbrev pub is_auto_count : Option ℤ → Bool
is_auto_count none = false
is_auto_count (some n) = eqb_ℤ n (pos 10) || eqb_ℤ n (pos 30) || eqb_ℤ n (pos 50)

-- `category and action and action in allowed_actions`
unfoldable pub is_mission : Option Text → Option Text → Bool
unfolding mission_actions
is_mission category action =
    not (is_empty (or_empty category))
    && (not (is_empty (or_empty action))
        && any (text_eq (or_empty action)) (mission_actions (or_empty category)))

unfoldable pub config_error : AdConfig → Option Message
unfolding is_mission
config_error c =
    if not (is_mission c.mission_category c.mission_action)
    then some bad_mission
    else if not (is_manual_mode c.keyword_mode || is_auto_mode c.keyword_mode)
    then some bad_keyword_mode
    else if is_auto_mode c.keyword_mode && not (is_auto_count c.auto_count)
    then some bad_auto_count
    else none

-- `_get_ad_config`
unfoldable pub find_config : List AdConfig → ℕ → AdType → Option AdConfig
find_config rows m t = first (where_ (λ c. c.merchant_id == m && number c.ad_type == number t) rows)

-- `not merchant.place_code or not str(merchant.place_code).isdigit()` is the negation.
unfoldable pub has_place_code : (ℕ → Bool) → Option Text → Bool
has_place_code is_digit code =
    not (is_empty (or_empty code)) && not (any (λ c. not (is_digit c)) (or_empty code))

-- `if merchant_id: q.filter(Merchant.id == merchant_id)`
abbrev pub is_chosen : Option ℕ → ℕ → Bool
is_chosen (some (suc i)) m = m == suc i
is_chosen _ m = true

-- The active merchants that are asked for
abbrev pub chosen_merchants : Setting → Option ℕ → List Merchant
chosen_merchants s only = where_ (λ m. m.is_active && is_chosen only m.id) s.merchants
