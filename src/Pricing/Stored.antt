-- ===== src/Pricing/Stored.antt =====
-- Prices that are saved are read back (app/services/ad_pricing.py).
use beautypos.Prelude.{◌≡◌, refl, Option, some}
use beautypos.Prelude.Int.{ℤ}
use beautypos.Text.{Text, text_eq}
use beautypos.Rewardpop.Json.{Json}
use beautypos.Rewardpop.Client.{get}
use beautypos.Pricing.Prices.{
  Config, save_ad_pricing, get_ad_pricing, normalize_ad_pricing, non_negative_int, pricing_json,
  duration_price,
}

-- Whatever is saved, over whatever was stored before, the prices that are read afterwards are the
-- ones that the saving has answered with, however texts are parsed at the two times.
pub save-get :
    (to_int to_int' : Text → Option ℤ) (config : Option Config) (raw : Json)
    → get_ad_pricing to_int' (some (save_ad_pricing to_int config raw).0)
      ≡ (save_ad_pricing to_int config raw).1
unfolding get_ad_pricing save_ad_pricing normalize_ad_pricing non_negative_int pricing_json get
    text_eq duration_price
save-get to_int to_int' config raw = refl
