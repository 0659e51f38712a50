-- ===== src/Orders/Guards.antt =====
-- What holds of an order once it is placed holds of what the routes return
-- (app/api/owner/ad_owner_routes.py).
use beautypos.Prelude.{
  ℕ, ◌*◌, ◌≡◌, refl, ap, true, false, ◌==◌, ltb, ◌&&◌, ◌||◌, if◌then◌else◌, List, [], ◌∷◌, Option,
  none, some, Result, Returns, ok, err, ◌>>◌, ◌>>=◌, raise_if,
}
use beautypos.Text.{Text, text_eq, codes, is_empty, strip, or_empty}
use beautypos.Credit.State.{Memo}
use beautypos.Plan.Rows.{blog_review, place_traffic, shorts}
use beautypos.Pricing.Estimate.{Uses, find_uses, shorts_campaign_type_uses}
use beautypos.Orders.State.{
  AdOrder, Books, blog_order, place_traffic_order, shorts_order, blog_detail, place_traffic_detail,
  shorts_detail,
}
use beautypos.Orders.Payment.{resolve_payment_source}
use beautypos.Orders.Create.{
  Shop, OrderError, place_order, require_ad_order_feature, too_few, price_of_zero, no_keywords,
  no_video_url, end_before_start, filled_texts, create_blog_order, create_place_traffic_order,
}
use beautypos.Orders.Shorts.{
  ShortsRequest, create_shorts_order, found_uses, check_platforms, check_tier, ends_before,
  estimated,
}

-- A property of what a chain of steps returns, from that of its last step
pub then-Returns :
    {E : Type 0} {A : Type 0} (P : A → Type 0) (x : Result E (Unit {0})) (y : Result E A)
    → Returns P y
    → Returns P (x >> y)
then-Returns P (ok u) y h = h
then-Returns P (err e) y h = tt

pub bind-Returns :
    {E : Type 0} {A B : Type 0} (P : B → Type 0) (x : Result E A) (f : A → Result E B)
    → ((a : A) → Returns P (f a))
    → Returns P (x >>= f)
bind-Returns P (ok a) f h = h a
bind-Returns P (err e) f h = tt

bind-Returns-eq :
    {E : Type 0} {A B : Type 0} (P : B → Type 0) (x : Result E A) (f : A → Result E B)
    → ((a : A) → x ≡ ok a → Returns P (f a))
    → Returns P (x >>= f)
bind-Returns-eq P (ok a) f h = h a refl
bind-Returns-eq P (err e) f h = tt

found_uses-eq : (x : Option Uses) (uses : Uses) → found_uses x ≡ ok uses → x ≡ some uses
found_uses-eq none uses e = cc
found_uses-eq (some u) uses e =
    ap (λ (r : Result OrderError Uses). elim r [ ok v ↦ some v | err f ↦ some u ]) e

module _ (P : Books × AdOrder → Type 0) (b : Books) (shop : Shop) (m user : ℕ) where
  pub create_blog_order-Placed :
      (n : ℕ) (keywords : List Text) (memo : Option Memo)
      → Returns P (
          place_order b shop m user blog_order
            (resolve_payment_source shop.assignments b.orders shop.today m blog_order blog_review n)
            (shop.pricing.blog_unit_price * n)
            (blog_detail
              (filled_texts keywords)
              n
              shop.pricing.blog_unit_price
              (shop.pricing.blog_unit_price * n))
            memo)
      → Returns P (create_blog_order b shop m user n keywords memo)
  unfolding create_blog_order
  create_blog_order-Placed n keywords memo h =
      then-Returns P (require_ad_order_feature shop shop.switches.blog_enabled) _ (
        then-Returns P (raise_if (ltb n 10) too_few) _ (
          then-Returns P (raise_if (shop.pricing.blog_unit_price == 0) price_of_zero) _ (
            then-Returns P
              (raise_if (elim (filled_texts keywords) [ [] ↦ true | (k ∷ ks) ↦ false ]) no_keywords)
              _ h)))

  pub create_place_traffic_order-Placed :
      (n : ℕ) (keywords : List Text) (memo : Option Memo)
      → Returns P (
          place_order b shop m user place_traffic_order
            (resolve_payment_source shop.assignments b.orders shop.today m place_traffic_order
              place_traffic n)
            (shop.pricing.place_traffic_unit_price * n)
            (place_traffic_detail
              (filled_texts keywords)
              n
              shop.pricing.place_traffic_unit_price
              (shop.pricing.place_traffic_unit_price * n))
            memo)
      → Returns P (create_place_traffic_order b shop m user n keywords memo)
  unfolding create_place_traffic_order
  create_place_traffic_order-Placed n keywords memo h =
      then-Returns P (require_ad_order_feature shop shop.switches.place_traffic_enabled) _ (
        then-Returns P (raise_if (ltb n 100) too_few) _ (
          then-Returns P (raise_if (shop.pricing.place_traffic_unit_price == 0) price_of_zero) _ (
            then-Returns P
              (raise_if (elim (filled_texts keywords) [ [] ↦ true | (k ∷ ks) ↦ false ]) no_keywords)
              _ h)))

  pub create_shorts_order-Placed :
      (q : ShortsRequest) (memo : Option Memo)
      → ((uses : Uses) (platforms : List (Text × ℕ)) (tier : Option Text)
          → find_uses q.campaign_type shorts_campaign_type_uses ≡ some uses
          → Returns P (
              place_order b shop m user shorts_order
                (resolve_payment_source shop.assignments b.orders shop.today m shorts_order shorts
                  (if uses.distribution then q.distribution_count else 0))
                (estimated shop q tier).total_cost
                (shorts_detail q.campaign_type
                  (estimated shop q tier).distribution_count
                  (estimated shop q tier).production_count
                  tier
                  platforms
                  (estimated shop q tier).distribution_cost
                  (estimated shop q tier).production_cost
                  (estimated shop q tier).total_cost)
                memo))
      → Returns P (create_shorts_order b shop m user q memo)
  unfolding create_shorts_order
  create_shorts_order-Placed q memo h =
      then-Returns P (require_ad_order_feature shop shop.switches.shorts_enabled) _ (
        bind-Returns-eq P (found_uses (find_uses q.campaign_type shorts_campaign_type_uses)) _
          (λ uses e. bind-Returns P (check_platforms uses q) _ (λ platforms.
            bind-Returns P (check_tier uses q) _ (λ tier.
              then-Returns P
                (raise_if
                  (text_eq q.campaign_type (codes "existing_video_distribution")
                    && is_empty (strip (or_empty q.uploaded_video_url)))
                  no_video_url)
                _
                (then-Returns P (raise_if (ends_before q.start_date q.end_date) end_before_start) _
                  (then-Returns P
                    (raise_if
                      ((estimated shop q tier).total_cost == 0
                        && (uses.distribution || uses.production))
                      price_of_zero)
                    _ (h uses platforms tier (found_uses-eq _ uses e))))))))
