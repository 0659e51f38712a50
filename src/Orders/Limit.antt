-- ===== src/Orders/Limit.antt =====
-- Orders that the plan pays for stay within its monthly limit (`_resolve_payment_source` of
-- app/api/owner/ad_owner_routes.py).
use beautypos.Prelude.{
  ℕ, ◌+◌, ◌≤◌, ◌≡◌, refl, sym, ap, ◌∙◌, inl, inr, true, false, Bool-cases, if◌then◌else◌, List, ◌∷◌,
  Option, some, Result-cases, Returns, arith,
}
use beautypos.Prelude.Int.{pos, ◌≤ℤ◌, leb_ℤ, leb_ℤ→le, ltb_ℤ, ltb_ℤ→le}
use beautypos.Text.{Text}
use beautypos.Calendar.{Date}
use beautypos.Credit.State.{Memo}
use beautypos.Credit.Operations.{use_credit}
use beautypos.Plan.Rows.{AdType, Assignment, get_current_plan, blog_review, place_traffic, shorts}
use beautypos.Pricing.Estimate.{
  Uses, uses_or_both, find_uses, shorts_campaign_type_uses, shorts_estimate,
}
use beautypos.Orders.State.{
  AdOrder, Books, PaymentSource, by_plan, by_credit, is_credit, OrderType, blog_order,
  place_traffic_order, shorts_order, Detail, detail_count,
}
use beautypos.Orders.Payment.{used_count, counts_for, monthly_limit, resolve_payment_source}
use beautypos.Orders.Create.{
  Shop, new_order, store_order, place_order, assert_credit_available, create_blog_order,
  create_place_traffic_order,
}
use beautypos.Orders.Shorts.{ShortsRequest, create_shorts_order, estimated}
use beautypos.Orders.Guards.{
  then-Returns, create_blog_order-Placed, create_place_traffic_order-Placed,
  create_shorts_order-Placed,
}

-- If the plan pays and limits the kind, the month's orders of the kind with the new one are within
-- the limit.
abbrev pub Within : Shop → ℕ → OrderType → AdType → Books × AdOrder → Type 0
Within shop m order_type ad_type r =
    is_credit r.1.payment_source ≡ false
    → ¬ (monthly_limit ad_type (get_current_plan shop.assignments m) ≤ℤ pos 0)
    → pos (used_count m order_type shop.today r.0.orders)
      ≤ℤ monthly_limit ad_type (get_current_plan shop.assignments m)

resolved-Within :
    (assignments : List Assignment) (orders : List AdOrder) (today : Date) (m : ℕ) (t : OrderType)
    (ad_type : AdType) (n : ℕ)
    → is_credit (resolve_payment_source assignments orders today m t ad_type n) ≡ false
    → ¬ (monthly_limit ad_type (get_current_plan assignments m) ≤ℤ pos 0)
    → pos (used_count m t today orders + n)
      ≤ℤ monthly_limit ad_type (get_current_plan assignments m)
unfolding resolve_payment_source
resolved-Within assignments orders today m t ad_type n e limited =
    let limit = monthly_limit ad_type (get_current_plan assignments m) in
    elim (Bool-cases (leb_ℤ limit (pos 0))) [
      | inl x ↦ absurd (limited (leb_ℤ→le limit (pos 0) x))
      | inr x ↦ elim (Bool-cases (ltb_ℤ limit (pos (used_count m t today orders + n)))) [
        | inl y ↦ absurd (true_false (rw (x, y) at e))
        | inr y ↦ ltb_ℤ→le limit (pos (used_count m t today orders + n)) y
      ]
    ]
  where
    true_false : true ≡ false → ⊥
    true_false e = cc

-- What is counted of one more order is at most its own count.
used_count-add :
    (m : ℕ) (t : OrderType) (today : Date) (o : AdOrder) (os : List AdOrder)
    → used_count m t today (o ∷ os) ≤ used_count m t today os + detail_count o.detail
unfolding used_count
used_count-add m t today o os = elim (Bool-cases (counts_for m t today o)) [
  | inl x ↦ rw x (omega arith)
  | inr x ↦ rw x (omega arith)
]

stored-Within :
    (b : Books) (shop : Shop) (m : ℕ) (t : OrderType) (ad_type : AdType) (o : AdOrder)
    (source : PaymentSource) (memo : Option Memo)
    → o.payment_source ≡ source
    → source
      ≡ resolve_payment_source shop.assignments b.orders shop.today m t ad_type
          (detail_count o.detail)
    → Returns (Within shop m t ad_type) (store_order b o memo source)
unfolding store_order
stored-Within b shop m t ad_type o by_plan memo p e = λ paid limited.
    (let within =
        resolved-Within shop.assignments b.orders shop.today m t ad_type (detail_count o.detail)
          (ap is_credit (sym e)) limited in
      omega (arith, within, used_count-add m t shop.today o b.orders))
stored-Within b shop m t ad_type o by_credit memo p e =
    elim (Result-cases
      (use_credit b.credit o.merchant_id o.credit_amount (some o.id) memo (some o.created_by))) [
        | inl (r, f) ↦
            rw (f, store_order) (λ paid limited. absurd (true_false (ap is_credit (sym p) ∙ paid)))
        | inr (f, g) ↦ rw (g, store_order) tt
      ]
  where
    true_false : true ≡ false → ⊥
    true_false e = cc

placed-Within :
    (b : Books) (shop : Shop) (m user : ℕ) (t : OrderType) (ad_type : AdType) (cost : ℕ)
    (detail : Detail) (memo : Option Memo) (n : ℕ)
    → n ≡ detail_count detail
    → Returns (Within shop m t ad_type) (
        place_order b shop m user t
          (resolve_payment_source shop.assignments b.orders shop.today m t ad_type n)
          cost
          detail
          memo)
unfolding place_order new_order
placed-Within b shop m user t ad_type cost detail memo n e =
    then-Returns (Within shop m t ad_type)
      (assert_credit_available b m
        (resolve_payment_source shop.assignments b.orders shop.today m t ad_type n) cost)
      _
      (stored-Within b shop m t ad_type
        (new_order b shop m user t
          (resolve_payment_source shop.assignments b.orders shop.today m t ad_type n) cost detail)
        (resolve_payment_source shop.assignments b.orders shop.today m t ad_type n) memo refl
        (ap (resolve_payment_source shop.assignments b.orders shop.today m t ad_type) e))

estimated-count :
    (shop : Shop) (q : ShortsRequest) (tier : Option Text) (uses : Uses)
    → find_uses q.campaign_type shorts_campaign_type_uses ≡ some uses
    → (if uses.distribution then q.distribution_count else 0)
      ≡ (estimated shop q tier).distribution_count
unfolding estimated shorts_estimate
estimated-count shop q tier uses e =
    ap (λ (u : Option Uses). if (uses_or_both u).distribution then q.distribution_count else 0)
      (sym e)

-- Of each kind: an order that the plan pays for, if the plan limits the kind, leaves the orders of
-- the month that are not rejected within the limit, the new one included.
pub creations-Within :
    (b : Books) (shop : Shop) (m user n : ℕ) (keywords : List Text) (q : ShortsRequest)
    (memo : Option Memo)
    → Returns
        (Within shop m blog_order blog_review)
        (create_blog_order b shop m user n keywords memo)
      × (Returns
            (Within shop m place_traffic_order place_traffic)
            (create_place_traffic_order b shop m user n keywords memo)
          × Returns (Within shop m shorts_order shorts) (create_shorts_order b shop m user q memo))
creations-Within b shop m user n keywords q memo = (
  create_blog_order-Placed (Within shop m blog_order blog_review) b shop m user n keywords memo
      (placed-Within b shop m user blog_order blog_review _ _ memo n refl),
  (
    create_place_traffic_order-Placed (Within shop m place_traffic_order place_traffic) b shop m
        user n keywords memo
        (placed-Within b shop m user place_traffic_order place_traffic _ _ memo n refl),
    create_shorts_order-Placed (Within shop m shorts_order shorts) b shop m user q memo
        (λ uses platforms tier e.
          placed-Within b shop m user shorts_order shorts _ _ memo _
            (estimated-count shop q tier uses e)),
  ),
)
