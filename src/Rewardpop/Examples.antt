-- ===== src/Rewardpop/Examples.antt =====
-- The theorem on the client applied to a connection that times out, and replies that are read.
use beautypos.Prelude.{◌≡◌, refl, true, false, [], none, some, err}
use beautypos.Prelude.Int.{pos, ◌+ℤ◌}
use beautypos.Text.{codes, text_eq, strip, left_strip, right_strip, is_space}
use beautypos.Calendar.{Date}
use beautypos.Plan.Rows.{place_traffic}
use beautypos.Dispatch.State.{auto}
use beautypos.Dispatch.Config.{Setting}
use beautypos.Dispatch.Preview.{Item, dispatch}
use beautypos.Dispatch.Provider.{Provider, as_running, spec_missing}
use beautypos.Rewardpop.Json.{
  Json, text, whole, array, object, item, no_item, field, no_field, status_text, plain_key,
  without_underscores,
}
use beautypos.Rewardpop.Counts.{extract_counts, counts_from, is_row, add_fields, count_in}
use beautypos.Rewardpop.Status.{
  map_external_status, find_status, direct_status, with_underscores, look_up,
}

abbrev setting : Setting
setting = record {
  merchants = [];
  assignments = [];
  overrides = [];
  keywords = record { rows = []; next_id = 1 };
  configs = [];
  unit_price = λ t. 5000;
  integration_enabled = true;
  dry_run_enabled = false;
  is_digit = λ c. true;
  to_int = λ s. some (pos 123);
  shuffle = λ d xs. xs;
}

abbrev order : Item
order = record {
  merchant_id = 7;
  place_code = some (codes "123");
  ad_type = place_traffic;
  source = auto;
  ad_order_id = none;
  target = 10;
  keywords = [];
  mission = none;
  unit_price = 5000;
  est_cost = 50000;
  verdict = dispatch;
  validation_error = none;
  mission_action_override = none;
}

abbrev others : Provider
others = record {
  create_order = λ n payload. err (spec_missing []);
  get_ad_keywords = λ id. err (spec_missing []);
  get_order_status = λ id. err (spec_missing []);
}

abbrev day : Date
day = record { year = 2026; month = 8; day = 25 }

-- Two rows of one order, whose numbers are summed
abbrev body : Json
body = array (
    item
      (object (
        field (codes "status") (text (codes "active"))
          (field (codes "reqcount") (whole (pos 3)) no_field)))
      (item (object (field (codes "req_count") (whole (pos 4)) no_field)) no_item))

status_of_body : map_external_status (λ s. s) body ≡ (some as_running, some (codes "active"))
unfolding map_external_status find_status direct_status status_text strip left_strip right_strip
    is_space with_underscores look_up text_eq
status_of_body = refl

counts_of_body : (extract_counts (λ s. s) body).delivered_count ≡ some (pos 7)
unfolding extract_counts counts_from is_row add_fields plain_key without_underscores count_in
    text_eq ◌+ℤ◌
counts_of_body = refl
