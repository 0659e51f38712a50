-- ===== src/Orders/Payment.antt =====
-- How an order is paid for (`_resolve_payment_source` and `_assert_credit_available` of
-- app/api/owner/ad_owner_routes.py).
use beautypos.Prelude.{
  ℕ, ◌+◌, ◌-◌, ◌*◌, Bool, ◌&&◌, not, ltb, leb, ◌==◌, if◌then◌else◌, List, [], ◌∷◌, Option, none,
  some,
}
use beautypos.Prelude.Int.{ℤ, pos, leb_ℤ, ltb_ℤ}
use beautypos.Calendar.{Date, toordinal}
use beautypos.Plan.Rows.{AdType, Plan, Assignment, get_current_plan}
use beautypos.Plan.Summary.{month_start, month_end}
use beautypos.Orders.State.{
  AdOrder, OrderType, same_type, PaymentSource, by_plan, by_credit, is_rejected, detail_count,
}

-- `kst_day_start_utc` of the day of an ordinal: nine hours before its midnight
unfoldable pub kst_day_start_utc : ℕ → ℕ
kst_day_start_utc ordinal = ordinal * 86400 - 32400

-- An order of the month of `today` that the plan counts
unfoldable pub counts_for : ℕ → OrderType → Date → AdOrder → Bool
unfolding kst_day_start_utc month_start month_end
counts_for m order_type today o =
    o.merchant_id == m
    && (same_type o.order_type order_type
        && (not (is_rejected o.status)
            && (leb (kst_day_start_utc (toordinal (month_start today))) o.created_at
                && ltb o.created_at (kst_day_start_utc (toordinal (month_end today) + 1)))))

unfoldable pub used_count : ℕ → OrderType → Date → List AdOrder → ℕ
unfolding counts_for
used_count m order_type today [] = 0
used_count m order_type today (o ∷ os) =
    (if counts_for m order_type today o then detail_count o.detail else 0)
    + used_count m order_type today os

abbrev pub monthly_limit : AdType → Option Plan → ℤ
monthly_limit ad_type none = pos 0
monthly_limit ad_type (some plan) = plan.monthly ad_type

-- No plan, or no target of the kind, is no limit.
unfoldable pub resolve_payment_source :
    List Assignment → List AdOrder → Date → ℕ → OrderType → AdType → ℕ → PaymentSource
unfolding used_count
resolve_payment_source assignments orders today m order_type ad_type requested_count =
    let limit = monthly_limit ad_type (get_current_plan assignments m) in
    if leb_ℤ limit (pos 0)
    then by_plan
    else if ltb_ℤ limit (pos (used_count m order_type today orders + requested_count))
    then by_credit
    else by_plan
