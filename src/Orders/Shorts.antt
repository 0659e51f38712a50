-- ===== src/Orders/Shorts.antt =====
-- Ordering short videos (`create_shorts_order` of app/api/owner/ad_owner_routes.py).
use beautypos.Prelude.{
  ℕ, zero, suc, Bool, true, false, ◌&&◌, ◌||◌, not, ltb, ◌==◌, if◌then◌else◌, List, [], ◌∷◌, Option,
  none, some, map, any, sum, Result, ok, err, ◌>>=◌, ◌>>◌, raise_if,
}
use beautypos.Prelude.Int.{ℤ, pos, negsuc}
use beautypos.Text.{Text, strip, is_empty, or_empty, or_none, text_eq, codes}
use beautypos.Calendar.{Date, toordinal}
use beautypos.Plan.Rows.{shorts}
use beautypos.Credit.State.{Memo}
use beautypos.Pricing.Prices.{shorts_duration_tier_prices}
use beautypos.Pricing.Estimate.{
  Uses, Estimate, find_uses, shorts_campaign_type_uses, shorts_estimate,
}
use beautypos.Orders.State.{AdOrder, Books, shorts_order, shorts_detail}
use beautypos.Orders.Payment.{resolve_payment_source}
use beautypos.Orders.Create.{
  Shop, OrderError, require_ad_order_feature, place_order, no_campaign_type, no_distribution,
  unknown_platform, negative_count, no_platform, counts_differ, no_production, no_tier,
  no_video_url, end_before_start, price_of_zero,
}

-- `AdShortsOrderCreate`, as far as the order reads it
pub record ShortsRequest : Type 0 where
  pub campaign_type : Text
  pub distribution_count : ℕ
  pub video_production_count : ℕ
  pub video_duration_tier : Option Text
  pub platform_counts : List (Text × ℤ)
  pub start_date : Option Date
  pub end_date : Option Date
  pub uploaded_video_url : Option Text

-- `SHORTS_PLATFORM_CODES`
abbrev pub shorts_platform_codes : List Text
shorts_platform_codes = codes "youtube" ∷ codes "instagram" ∷ codes "tiktok" ∷ codes "facebook" ∷ []

abbrev pub is_platform : Text → Bool
is_platform code = any (text_eq code) shorts_platform_codes

abbrev pub put_count : Text → ℤ → List (Text × ℕ) → List (Text × ℕ)
put_count code (pos zero) rest = rest
put_count code (pos (suc n)) rest = (code, suc n) ∷ rest
put_count code (negsuc n) rest = rest

abbrev pub is_negative : ℤ → Bool
is_negative (pos n) = false
is_negative (negsuc n) = true

-- The platforms with the counts that are not 0, each platform once
unfoldable pub collect_platforms : List (Text × ℤ) → Result OrderError (List (Text × ℕ))
collect_platforms [] = ok []
collect_platforms ((code, count) ∷ entries) = do
  raise_if (not (is_platform code)) unknown_platform
  raise_if (is_negative count) negative_count
  rest ← collect_platforms entries
  ok (put_count code count rest)

abbrev pub counts : List (Text × ℕ) → List ℕ
counts platforms = map (λ (p : Text × ℕ). p.1) platforms

abbrev pub no_entry : List (Text × ℕ) → Bool
no_entry [] = true
no_entry (p ∷ ps) = false

-- The counts of the platforms add up to what is distributed.
unfoldable pub check_platforms : Uses → ShortsRequest → Result OrderError (List (Text × ℕ))
unfolding collect_platforms
check_platforms uses q =
    if uses.distribution
    then (do
      raise_if (ltb q.distribution_count 1) no_distribution
      platforms ← collect_platforms q.platform_counts
      raise_if (no_entry platforms) no_platform
      raise_if (not (sum (counts platforms) == q.distribution_count)) counts_differ
      ok platforms)
    else ok []

abbrev pub is_tier : Option Text → Bool
is_tier none = false
is_tier (some tier) = any (λ (p : Text × ℕ). text_eq p.0 tier) shorts_duration_tier_prices

unfoldable pub check_tier : Uses → ShortsRequest → Result OrderError (Option Text)
check_tier uses q =
    if uses.production
    then (do
      raise_if (ltb q.video_production_count 1) no_production
      raise_if (not (is_tier (or_none (or_empty q.video_duration_tier)))) no_tier
      ok (or_none (or_empty q.video_duration_tier)))
    else ok none

abbrev pub ends_before : Option Date → Option Date → Bool
ends_before (some start) (some end) = ltb (toordinal end) (toordinal start)
ends_before _ _ = false

abbrev pub found_uses : Option Uses → Result OrderError Uses
found_uses none = err no_campaign_type
found_uses (some uses) = ok uses

unfoldable pub estimated : Shop → ShortsRequest → Option Text → Estimate
unfolding shorts_estimate
estimated shop q tier =
    shorts_estimate shop.pricing q.campaign_type q.distribution_count q.video_production_count tier

unfoldable pub create_shorts_order :
    Books → Shop → ℕ → ℕ → ShortsRequest → Option Memo → Result OrderError (Books × AdOrder)
unfolding check_platforms check_tier place_order resolve_payment_source find_uses estimated
create_shorts_order b shop m user q memo = do
  require_ad_order_feature shop shop.switches.shorts_enabled
  uses ← found_uses (find_uses q.campaign_type shorts_campaign_type_uses)
  platforms ← check_platforms uses q
  let source =
      resolve_payment_source shop.assignments b.orders shop.today m shorts_order shorts
        (if uses.distribution then q.distribution_count else 0)
  tier ← check_tier uses q
  raise_if
      (text_eq q.campaign_type (codes "existing_video_distribution")
        && is_empty (strip (or_empty q.uploaded_video_url)))
      no_video_url
  raise_if (ends_before q.start_date q.end_date) end_before_start
  let est = estimated shop q tier
  raise_if (est.total_cost == 0 && (uses.distribution || uses.production)) price_of_zero
  place_order b shop m user shorts_order source est.total_cost
      (shorts_detail q.campaign_type est.distribution_count est.production_count tier platforms
        est.distribution_cost est.production_cost est.total_cost)
      memo
