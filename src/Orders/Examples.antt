-- ===== src/Orders/Examples.antt =====
-- Orders that are placed, rejected and taken up again.
use beautypos.Prelude.{◌≡◌, refl, true, false, List, [], ◌∷◌, none, some, Returns, ◌*◌}
use beautypos.Prelude.Int.{pos, negate, ◌+ℤ◌}
use beautypos.Text.{codes, strip, left_strip, right_strip, is_space}
use beautypos.Calendar.{toordinal, days_before_year, days_before_month, days_in_month, is_leap}
use beautypos.Credit.State.{
  sqlite, balance_of, find_credit, write_credit, lock_credit, get_or_create, supports_row_lock,
}
use beautypos.Credit.Operations.{charge, apply, use_credit}
use beautypos.Credit.History
use beautypos.Credit.History.{charging}
use beautypos.Plan.Summary.{month_start, month_end}
use beautypos.Plan.Rows.{
  get_current_plan, current_assignment, by_latest, insert_desc, Plan, blog_review, place_traffic,
  shorts,
}
use beautypos.Dispatch.State.{OrderStatus, order_requested, order_reviewing, order_rejected}
use beautypos.Pricing.Prices.{default_ad_pricing}
use beautypos.Orders.State.{
  AdOrder, Books, blog_order, place_traffic_order, shorts_order, by_credit, blog_detail, find_order,
  write_order,
}
use beautypos.Orders.Payment.{used_count, counts_for, kst_day_start_utc, resolve_payment_source}
use beautypos.Orders.Create.{
  Shop, place_order, store_order, new_order, assert_credit_available, create_blog_order,
  create_place_traffic_order,
}
use beautypos.Orders.Shorts.{ShortsRequest, create_shorts_order}
use beautypos.Orders.Status.{
  StatusRequest, change_found, allowed_ad_order_statuses, sync_order_credit, finish_change,
  order_sum, change_ad_order_status, is_allowed,
}
use beautypos.Orders.Requests.{Event, ordering_blog, changing, crediting, step, steps, empty_books}
use beautypos.Orders.Held.{held_of, IsHeld}
use beautypos.Orders.Changed.{Safe, change_ad_order_status-Safe}
use beautypos.Orders.History.{steps-Held, empty-Held, steps-order_sum}
use beautypos.Orders.Limit.{Within, creations-Within}
use beautypos.Orders.Rejected.{Rejection, reject-PaidBack}

-- 15 blog posts a month
abbrev plan : Plan
plan = record { id = 1; code = codes "basic"; name = codes "Basic"; monthly = λ t. pos 15 }

abbrev shop : Shop
shop = record {
  switches = record {
    order_mgmt_enabled = some true;
    blog_enabled = some true;
    place_traffic_enabled = none;
    shorts_enabled = some true;
  };
  pricing = record default_ad_pricing { blog_unit_price = 1000 };
  assignments =
      record { id = 1; merchant_id = 7; plan = plan; assigned_at = 5; assigned_by = none } ∷ [];
  today = record { year = 2026; month = 8; day = 25 };
  now = toordinal (record { year = 2026; month = 8; day = 25 }) * 86400;
}

abbrev ordering : Event
ordering = ordering_blog shop 7 3 10 (codes "nail" ∷ []) none

abbrev request : OrderStatus → StatusRequest
request s = record {
  new_status = some s;
  admin = 1;
  admin_memo = none;
  append_memo = none;
  memo = none;
  commits = true;
}

-- 30,000 won, an order within the plan and one that the credit pays for
abbrev history : List Event
history = crediting (charging 7 (pos 3000000) none none) ∷ ordering ∷ ordering ∷ []

abbrev books : Books
books = steps (empty_books sqlite) history

books-Held : IsHeld books
books-Held = steps-Held (empty_books sqlite) history (empty-Held sqlite)

steps-order_sum_example :
    order_sum 2 (steps (empty_books sqlite) history).credit.ledger
    ≡ negate (held_of (find_order 2 (steps (empty_books sqlite) history).orders))
steps-order_sum_example = steps-order_sum sqlite history 2

change_ad_order_status-Safe_example :
    Safe books
      (change_ad_order_status books 2 (record (request order_rejected) { commits = false }))
change_ad_order_status-Safe_example =
    change_ad_order_status-Safe books 2 (record (request order_rejected) { commits = false })
      books-Held

second_order : AdOrder
second_order = record {
  id = 2;
  merchant_id = 7;
  order_type = blog_order;
  status = order_requested;
  created_by = 3;
  assigned_admin_id = none;
  admin_memo = none;
  payment_source = by_credit;
  credit_amount = pos 1000000;
  created_at = shop.now;
  detail = blog_detail (codes "nail" ∷ []) 10 1000 10000;
}

second_found : find_order 2 books.orders ≡ some second_order
unfolding second_order find_order steps step History.step charge apply lock_credit get_or_create
    find_credit write_credit supports_row_lock create_blog_order place_order store_order new_order
    assert_credit_available resolve_payment_source used_count counts_for balance_of use_credit
    get_current_plan current_assignment by_latest insert_desc strip left_strip right_strip is_space
    ◌+ℤ◌ toordinal days_before_year days_before_month days_in_month is_leap month_start month_end
    kst_day_start_utc negate
second_found = refl

second_allowed : is_allowed second_order.status order_rejected ≡ true
unfolding second_order is_allowed allowed_ad_order_statuses
second_allowed = refl

reject-PaidBack_example :
    Rejection books second_order (change_ad_order_status books 2 (request order_rejected))
reject-PaidBack_example =
    reject-PaidBack books 2 second_order (request order_rejected) books-Held second_found
      second_allowed refl refl

-- Short videos for two platforms
abbrev videos : ShortsRequest
videos = record {
  campaign_type = codes "own_video_distribution";
  distribution_count = 3;
  video_production_count = 0;
  video_duration_tier = none;
  platform_counts = (codes "youtube", pos 2) ∷ (codes "tiktok", pos 1) ∷ [];
  start_date = none;
  end_date = none;
  uploaded_video_url = none;
}

creations-Within_example :
    Returns
      (Within shop 7 blog_order blog_review)
      (create_blog_order (empty_books sqlite) shop 7 3 10 (codes "nail" ∷ []) none)
    × (Returns
          (Within shop 7 place_traffic_order place_traffic)
          (create_place_traffic_order (empty_books sqlite) shop 7 3 10 (codes "nail" ∷ []) none)
        × Returns
            (Within shop 7 shorts_order shorts)
            (create_shorts_order (empty_books sqlite) shop 7 3 videos none))
creations-Within_example =
    creations-Within (empty_books sqlite) shop 7 3 10 (codes "nail" ∷ []) videos none

-- An order within the plan is rejected, another takes its place, and the first is taken up again: 20
-- posts of one month are paid for by a plan of 15.
abbrev reopened : Books
reopened = steps (empty_books sqlite) (
    ordering
    ∷ changing 1 (request order_rejected)
    ∷ ordering
    ∷ changing 1 (request order_reviewing)
    ∷ [])

above_the_limit : used_count 7 blog_order shop.today reopened.orders ≡ 20
unfolding find_order write_order steps step change_ad_order_status change_found is_allowed
    allowed_ad_order_statuses sync_order_credit finish_change create_blog_order place_order
    store_order new_order assert_credit_available resolve_payment_source used_count counts_for
    get_current_plan current_assignment by_latest insert_desc strip left_strip right_strip is_space
    toordinal days_before_year days_before_month days_in_month is_leap month_start month_end
    kst_day_start_utc
above_the_limit = refl
