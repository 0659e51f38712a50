-- ===== src/Pricing/Estimate.antt =====
-- What an order of short videos is expected to cost: `shorts_estimate` of
-- app/services/ad_pricing.py and the older one of app/models/ad.py.
use beautypos.Prelude.{
  ℕ, ◌+◌, ◌*◌, ◌≡◌, refl, Bool, true, false, if◌then◌else◌, List, [], ◌∷◌, Option, none, some,
}
use beautypos.Text.{Text, text_eq, codes, or_empty}
use beautypos.Pricing.Prices.{
  Pricing, default_ad_pricing, shorts_distribution_unit_price, shorts_duration_tier_prices,
}

-- Whether a campaign distributes videos, and whether it makes them
pub record Uses : Type 0 where
  pub distribution : Bool
  pub production : Bool

-- `SHORTS_CAMPAIGN_TYPE_USES`
abbrev pub shorts_campaign_type_uses : List (Text × Uses)
shorts_campaign_type_uses =
    (codes "production_distribution", record { distribution = true; production = true })
    ∷ (codes "own_video_distribution", record { distribution = true; production = false })
    ∷ (codes "existing_video_distribution", record { distribution = true; production = false })
    ∷ (codes "production_only", record { distribution = false; production = true })
    ∷ []

unfoldable pub find_uses : Text → List (Text × Uses) → Option Uses
find_uses campaign [] = none
find_uses campaign ((code, uses) ∷ rest) =
    let further = find_uses campaign rest in if text_eq code campaign then some uses else further

abbrev pub uses_or_both : Option Uses → Uses
uses_or_both none = record { distribution = true; production = true }
uses_or_both (some uses) = uses

-- `.get(tier or "", 0)`
unfoldable pub price_of : Text → List (Text × ℕ) → ℕ
price_of tier [] = 0
price_of tier ((code, price) ∷ rest) =
    let further = price_of tier rest in if text_eq code tier then price else further

pub record Estimate : Type 0 where
  pub distribution_count : ℕ
  pub production_count : ℕ
  pub distribution_unit_price : ℕ
  pub production_unit_price : ℕ
  pub distribution_cost : ℕ
  pub production_cost : ℕ
  pub total_cost : ℕ

unfoldable pub shorts_estimate : Pricing → Text → ℕ → ℕ → Option Text → Estimate
unfolding find_uses price_of
shorts_estimate pricing campaign distribution_count video_production_count tier =
    let uses = uses_or_both (find_uses campaign shorts_campaign_type_uses) in
    let dist_count = if uses.distribution then distribution_count else 0 in
    let prod_count = if uses.production then video_production_count else 0 in
    let dist_unit = pricing.shorts_distribution_unit_price in
    let prod_unit = price_of (or_empty tier) pricing.shorts_duration_prices in
    record {
      distribution_count = dist_count;
      production_count = prod_count;
      distribution_unit_price = dist_unit;
      production_unit_price = prod_unit;
      distribution_cost = dist_count * dist_unit;
      production_cost = prod_count * prod_unit;
      total_cost = dist_count * dist_unit + prod_count * prod_unit;
    }

-- `shorts_estimate` of app/models/ad.py, at the prices that are written there
unfoldable pub fixed_estimate : Text → ℕ → ℕ → Option Text → Estimate
unfolding find_uses price_of
fixed_estimate campaign distribution_count video_production_count tier =
    let uses = uses_or_both (find_uses campaign shorts_campaign_type_uses) in
    let dist_count = if uses.distribution then distribution_count else 0 in
    let prod_count = if uses.production then video_production_count else 0 in
    let unit_price = price_of (or_empty tier) shorts_duration_tier_prices in
    record {
      distribution_count = dist_count;
      production_count = prod_count;
      distribution_unit_price = shorts_distribution_unit_price;
      production_unit_price = unit_price;
      distribution_cost = dist_count * shorts_distribution_unit_price;
      production_cost = prod_count * unit_price;
      total_cost = dist_count * shorts_distribution_unit_price + prod_count * unit_price;
    }

-- At the prices that are written in the code both are the same.
shorts_estimate-fixed :
    (campaign : Text) (distribution_count video_production_count : ℕ) (tier : Option Text)
    → shorts_estimate default_ad_pricing campaign distribution_count video_production_count tier
      ≡ fixed_estimate campaign distribution_count video_production_count tier
unfolding shorts_estimate fixed_estimate
shorts_estimate-fixed campaign distribution_count video_production_count tier = refl
