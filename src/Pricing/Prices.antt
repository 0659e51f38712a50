-- ===== src/Pricing/Prices.antt =====
-- Prices as they are normalised and stored (app/services/ad_pricing.py). A stored text is given as
-- the JSON value that it was written from; the parsing of a text as a number is a parameter.
use beautypos.Prelude.{ℕ, Bool, true, false, List, [], ◌∷◌, Option, none, some, map}
use beautypos.Prelude.Int.{ℤ, pos, pos_part}
use beautypos.Text.{Text, codes}
use beautypos.Rewardpop.Json.{Json, boolean, whole, fraction, text, object, Fields, no_field, field}
use beautypos.Rewardpop.Client.{get}

-- The prices, in won, and those of a video by its length
pub record Pricing : Type 0 where
  pub blog_unit_price : ℕ
  pub place_traffic_unit_price : ℕ
  pub shorts_distribution_unit_price : ℕ
  pub shorts_duration_prices : List (Text × ℕ)

abbrev pub shorts_distribution_unit_price : ℕ
shorts_distribution_unit_price = 15000

-- `SHORTS_DURATION_TIER_PRICES`
abbrev pub shorts_duration_tier_prices : List (Text × ℕ)
shorts_duration_tier_prices =
    (codes "15s", 10000) ∷ (codes "30s", 15000) ∷ (codes "60s", 25000) ∷ (codes "90s", 35000) ∷ []

abbrev pub default_ad_pricing : Pricing
default_ad_pricing = record {
  blog_unit_price = 0;
  place_traffic_unit_price = 0;
  shorts_distribution_unit_price = shorts_distribution_unit_price;
  shorts_duration_prices = shorts_duration_tier_prices;
}

-- `raw if isinstance(raw, dict) else {}`
abbrev pub fields_of : Option Json → Fields
fields_of (some (object fs)) = fs
fields_of _ = no_field

abbrev pub non_negative : Option ℤ → ℕ → ℕ
non_negative none fallback = fallback
non_negative (some n) fallback = pos_part n

module _ (to_int : Text → Option ℤ) where
  -- `max(0, int(value))`, or the fallback where `int` raises
  unfoldable pub non_negative_int : Option Json → ℕ → ℕ
  non_negative_int (some (boolean true)) fallback = 1
  non_negative_int (some (boolean false)) fallback = 0
  non_negative_int (some (whole n)) fallback = pos_part n
  non_negative_int (some (fraction n)) fallback = pos_part n
  non_negative_int (some (text s)) fallback = non_negative (to_int s) fallback
  non_negative_int _ fallback = fallback

  unfoldable pub duration_price : Fields → Text × ℕ → Text × ℕ
  unfolding non_negative_int get
  duration_price raw (code, price) = (code, non_negative_int (get code raw) price)

  unfoldable pub normalize_ad_pricing : Option Json → Pricing
  unfolding non_negative_int get duration_price
  normalize_ad_pricing raw =
      let fs = fields_of raw in
      let durations = fields_of (get (codes "shorts_duration_prices") fs) in
      record {
        blog_unit_price =
            non_negative_int (get (codes "blog_unit_price") fs) default_ad_pricing.blog_unit_price;
        place_traffic_unit_price =
            non_negative_int (get (codes "place_traffic_unit_price") fs)
              default_ad_pricing.place_traffic_unit_price;
        shorts_distribution_unit_price =
            non_negative_int (get (codes "shorts_distribution_unit_price") fs)
              default_ad_pricing.shorts_distribution_unit_price;
        shorts_duration_prices =
            map (duration_price durations) default_ad_pricing.shorts_duration_prices;
      }

-- A row of `SystemConfig`; a text that is empty or no JSON is missing.
pub record Config : Type 0 where
  pub config_value : Option Json
  pub is_enabled : Bool

abbrev pub value_of : Option Config → Option Json
value_of none = none
value_of (some c) = c.config_value

abbrev pub durations_json : List (Text × ℕ) → Fields
durations_json [] = no_field
durations_json ((code, price) ∷ rest) = field code (whole (pos price)) (durations_json rest)

-- What `json.dumps` writes of the prices
unfoldable pub pricing_json : Pricing → Json
pricing_json p = object (
    field (codes "blog_unit_price") (whole (pos p.blog_unit_price)) (
      field (codes "place_traffic_unit_price") (whole (pos p.place_traffic_unit_price)) (
        field (codes "shorts_distribution_unit_price")
          (whole (pos p.shorts_distribution_unit_price))
          (field (codes "shorts_duration_prices") (object (durations_json p.shorts_duration_prices))
            no_field))))

module _ (to_int : Text → Option ℤ) where
  unfoldable pub get_ad_pricing : Option Config → Pricing
  unfolding normalize_ad_pricing
  get_ad_pricing config = normalize_ad_pricing to_int (value_of config)

  -- The row is made if there is none.
  unfoldable pub save_ad_pricing : Option Config → Json → Config × Pricing
  unfolding normalize_ad_pricing pricing_json
  save_ad_pricing config pricing =
      let normalized = normalize_ad_pricing to_int (some pricing) in
      (record { config_value = some (pricing_json normalized); is_enabled = true }, normalized)
