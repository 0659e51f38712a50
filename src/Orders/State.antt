-- ===== src/Orders/State.antt =====
-- The orders with their details (app/models/ad.py) beside the tables of the credit.
use beautypos.Prelude.{ℕ, Bool, true, false, ◌==◌, if◌then◌else◌, List, [], ◌∷◌, Option, none, some}
use beautypos.Prelude.Int.{ℤ}
use beautypos.Text.{Text}
use beautypos.Credit.State
use beautypos.Dispatch.State.{OrderStatus, order_rejected}

-- `AdOrderType`
pub data OrderType : Type 0 where
  blog_order place_traffic_order shorts_order : OrderType

abbrev pub same_type : OrderType → OrderType → Bool
same_type blog_order blog_order = true
same_type place_traffic_order place_traffic_order = true
same_type shorts_order shorts_order = true
same_type _ _ = false

-- `PAYMENT_PLAN` and `PAYMENT_CREDIT`
pub data PaymentSource : Type 0 where
  by_plan by_credit : PaymentSource

-- What a merchant has ordered: `AdOrderBlogDetail`, `AdOrderPlaceTrafficDetail` and
-- `AdOrderShortsDetail`, less the texts that are only kept; prices are in won.
pub data Detail : Type 0 where
  -- keywords, count, price of one, price of all
  blog_detail : List Text → ℕ → ℕ → ℕ → Detail
  place_traffic_detail : List Text → ℕ → ℕ → ℕ → Detail
  -- campaign, count of distributions and productions, length, platforms, the two prices and their sum
  shorts_detail : Text → ℕ → ℕ → Option Text → List (Text × ℕ) → ℕ → ℕ → ℕ → Detail

-- The number that a plan limits
abbrev pub detail_count : Detail → ℕ
detail_count (blog_detail keywords n unit cost) = n
detail_count (place_traffic_detail keywords n unit cost) = n
detail_count (shorts_detail campaign n m tier platforms d p cost) = n

-- `AdOrder` with its detail; `credit_amount` counts hundredths of a won, `created_at` seconds of UTC
-- since the day of ordinal 0.
pub record AdOrder : Type 0 where
  pub id : ℕ
  pub merchant_id : ℕ
  pub order_type : OrderType
  pub status : OrderStatus
  pub created_by : ℕ
  pub assigned_admin_id : Option ℕ
  pub admin_memo : Option Text
  pub payment_source : PaymentSource
  pub credit_amount : ℤ
  pub created_at : ℕ
  pub detail : Detail

pub record Books : Type 0 where
  pub credit : State.Db
  pub orders : List AdOrder
  pub next_id : ℕ

abbrev pub is_rejected : OrderStatus → Bool
is_rejected order_rejected = true
is_rejected _ = false

abbrev pub is_credit : PaymentSource → Bool
is_credit by_plan = false
is_credit by_credit = true

unfoldable pub find_order : ℕ → List AdOrder → Option AdOrder
find_order i [] = none
find_order i (o ∷ os) = let rest = find_order i os in if o.id == i then some o else rest

unfoldable pub write_order : AdOrder → List AdOrder → List AdOrder
write_order x [] = []
write_order x (o ∷ os) = let rest = write_order x os in if o.id == x.id then x ∷ os else o ∷ rest
