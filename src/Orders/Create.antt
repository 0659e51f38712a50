-- ===== src/Orders/Create.antt =====
-- Ordering blog posts and visits (`create_blog_order` and `create_place_traffic_order` of
-- app/api/owner/ad_owner_routes.py), for the merchant that the user has been found to
-- own. The memo of the entry in the ledger is an argument.
use beautypos.Prelude.{
  ℕ, suc, ◌*◌, Bool, true, false, not, ltb, ◌==◌, if◌then◌else◌, List, [], ◌∷◌, Option, none, some,
  map, where_, Result, ok, err, ◌>>◌, raise_if,
}
use beautypos.Prelude.Int.{ℤ, pos, ltb_ℤ}
use beautypos.Text.{Text, strip, is_empty}
use beautypos.Calendar.{Date}
use beautypos.Plan.Rows.{Assignment, blog_review, place_traffic}
use beautypos.Credit.State.{Memo, balance_of}
use beautypos.Credit.Operations
use beautypos.Credit.Operations.{use_credit}
use beautypos.Dispatch.State.{order_requested}
use beautypos.Pricing.Prices.{Pricing}
use beautypos.Orders.State.{
  AdOrder, Books, OrderType, blog_order, place_traffic_order, PaymentSource, by_plan, by_credit,
  is_credit, Detail, blog_detail, place_traffic_detail,
}
use beautypos.Orders.Payment.{resolve_payment_source}

pub data OrderError : Type 0 where
  orders_disabled product_disabled too_few price_of_zero no_keywords balance_too_low : OrderError
  no_campaign_type no_distribution unknown_platform negative_count no_platform counts_differ :
      OrderError
  no_production no_tier no_video_url end_before_start : OrderError
  credit_error : Operations.Error → OrderError

-- The rows of `SystemConfig` that switch the orders on
pub record Switches : Type 0 where
  pub order_mgmt_enabled : Option Bool
  pub blog_enabled : Option Bool
  pub place_traffic_enabled : Option Bool
  pub shorts_enabled : Option Bool

-- What a request to order reads: the switches, the prices, the plans and the clock
pub record Shop : Type 0 where
  pub switches : Switches
  pub pricing : Pricing
  pub assignments : List Assignment
  pub today : Date
  pub now : ℕ

abbrev pub ad_feature_enabled : Option Bool → Bool
ad_feature_enabled none = false
ad_feature_enabled (some enabled) = enabled

abbrev pub require_ad_order_feature : Shop → Option Bool → Result OrderError (Unit {0})
require_ad_order_feature shop product =
    raise_if (not (ad_feature_enabled shop.switches.order_mgmt_enabled)) orders_disabled
    >> raise_if (not (ad_feature_enabled product)) product_disabled

-- An amount of won, in hundredths
abbrev pub hundredths : ℕ → ℤ
hundredths won = pos (won * 100)

unfoldable pub assert_credit_available :
    Books → ℕ → PaymentSource → ℕ → Result OrderError (Unit {0})
assert_credit_available b m source cost =
    raise_if (if is_credit source then ltb_ℤ (balance_of b.credit m) (hundredths cost) else false)
      balance_too_low

unfoldable pub new_order : Books → Shop → ℕ → ℕ → OrderType → PaymentSource → ℕ → Detail → AdOrder
new_order b shop m user order_type source cost detail = record {
  id = b.next_id;
  merchant_id = m;
  order_type = order_type;
  status = order_requested;
  created_by = user;
  assigned_admin_id = none;
  admin_memo = none;
  payment_source = source;
  credit_amount = if is_credit source then hundredths cost else pos 0;
  created_at = shop.now;
  detail = detail;
}

-- The order with its detail is added, and what it costs is taken from the credit if that pays for it.
unfoldable pub store_order :
    Books → AdOrder → Option Memo → PaymentSource → Result OrderError (Books × AdOrder)
store_order b o memo by_plan = ok (record b { orders = o ∷ b.orders; next_id = suc b.next_id }, o)
store_order b o memo by_credit =
    elim (use_credit b.credit o.merchant_id o.credit_amount (some o.id) memo (some o.created_by)) [
      | err e ↦ err (credit_error e)
      | ok r ↦ ok (record b { credit = r.0; orders = o ∷ b.orders; next_id = suc b.next_id }, o)
    ]

abbrev pub filled_texts : List Text → List Text
filled_texts xs = where_ (λ s. not (is_empty s)) (map strip xs)

-- What follows once the price of all is known
unfoldable pub place_order :
    Books
    → Shop
    → ℕ
    → ℕ
    → OrderType
    → PaymentSource
    → ℕ
    → Detail
    → Option Memo
    → Result OrderError (Books × AdOrder)
unfolding assert_credit_available new_order store_order
place_order b shop m user order_type source cost detail memo =
    assert_credit_available b m source cost
    >> store_order b (new_order b shop m user order_type source cost detail) memo source

unfoldable pub create_blog_order :
    Books → Shop → ℕ → ℕ → ℕ → List Text → Option Memo → Result OrderError (Books × AdOrder)
unfolding place_order resolve_payment_source
create_blog_order b shop m user order_count main_keywords memo = do
  require_ad_order_feature shop shop.switches.blog_enabled
  raise_if (ltb order_count 10) too_few
  let source =
      resolve_payment_source shop.assignments b.orders shop.today m blog_order blog_review
        order_count
  let unit_price = shop.pricing.blog_unit_price
  raise_if (unit_price == 0) price_of_zero
  let cost = unit_price * order_count
  let keywords = filled_texts main_keywords
  raise_if (elim keywords [ [] ↦ true | (k ∷ ks) ↦ false ]) no_keywords
  place_order b shop m user blog_order source cost
      (blog_detail keywords order_count unit_price cost) memo

unfoldable pub create_place_traffic_order :
    Books → Shop → ℕ → ℕ → ℕ → List Text → Option Memo → Result OrderError (Books × AdOrder)
unfolding place_order resolve_payment_source
create_place_traffic_order b shop m user order_count search_keywords memo = do
  require_ad_order_feature shop shop.switches.place_traffic_enabled
  raise_if (ltb order_count 100) too_few
  let source =
      resolve_payment_source shop.assignments b.orders shop.today m place_traffic_order
        place_traffic order_count
  let unit_price = shop.pricing.place_traffic_unit_price
  raise_if (unit_price == 0) price_of_zero
  let cost = unit_price * order_count
  let keywords = filled_texts search_keywords
  raise_if (elim keywords [ [] ↦ true | (k ∷ ks) ↦ false ]) no_keywords
  place_order b shop m user place_traffic_order source cost
      (place_traffic_detail keywords order_count unit_price cost) memo
