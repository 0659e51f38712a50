-- ===== src/Pricing/Examples.antt =====
-- Prices that are saved, and read although a text is no number.
use beautypos.Prelude.{◌≡◌, refl, [], ◌∷◌, Option, none, some}
use beautypos.Prelude.Int.{ℤ, pos, negsuc}
use beautypos.Text.{Text, codes, text_eq}
use beautypos.Rewardpop.Json.{Json, text, whole, object, field, no_field}
use beautypos.Rewardpop.Client.{get}
use beautypos.Pricing.Prices.{
  get_ad_pricing, save_ad_pricing, normalize_ad_pricing, non_negative_int, duration_price,
}
use beautypos.Pricing.Stored.{save-get}

abbrev no_number : Text → Option ℤ
no_number s = none

-- A price below 0, one that is no number, and one for a video of half a minute
abbrev raw : Json
raw = object (
    field (codes "blog_unit_price") (whole (negsuc 4)) (
      field (codes "place_traffic_unit_price") (text (codes "ten")) (
        field (codes "shorts_duration_prices")
          (object (field (codes "30s") (whole (pos 18000)) no_field)) no_field)))

save-get_example :
    get_ad_pricing no_number (some (save_ad_pricing no_number none raw).0)
    ≡ (save_ad_pricing no_number none raw).1
save-get_example = save-get no_number no_number none raw

saved : (save_ad_pricing no_number none raw).1 ≡ record {
  blog_unit_price = 0;
  place_traffic_unit_price = 0;
  shorts_distribution_unit_price = 15000;
  shorts_duration_prices =
      (codes "15s", 10000)
      ∷ (codes "30s", 18000)
      ∷ (codes "60s", 25000)
      ∷ (codes "90s", 35000)
      ∷ [];
}
unfolding save_ad_pricing normalize_ad_pricing non_negative_int duration_price get text_eq
saved = refl
