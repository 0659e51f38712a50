-- ===== src/Dispatch/Orders.antt =====
-- Orders that a merchant places beside the plan, and trying a failed order again
-- (`_additional_order_item`, `dispatch_ad_order`, `retry` of app/services/ad_dispatch.py, and the
-- route of the retry in app/api/admin/dispatch_routes.py).
use beautypos.Prelude.{
  ℕ, Bool, false, not, ◌==◌, if◌then◌else◌, List, map, Option, none, some, first, where_, take,
  Result, ok, err, ◌>>=◌, ◌>>◌, raise_if,
}
use beautypos.Prelude.Int.{ℤ, pos, leb_ℤ, pos_part}
use beautypos.Text.{Text, codes, or_empty, strip, split}
use beautypos.Calendar.{Date}
use beautypos.Plan.Rows.{AdType, place_traffic, number}
use beautypos.Dispatch.State.{Row, Db, order, is_executed, is_failed, retryable, find_row, Message}
use beautypos.Dispatch.Config.{Setting, Merchant, AdConfig, find_config, has_place_code, is_mission}
use beautypos.Dispatch.Preview.{Item, Mission, dispatch, mission_of, is_empty_list}
use beautypos.Dispatch.Provider.{Provider}
use beautypos.Dispatch.Rows.{non_empty_words, bump_retry}
use beautypos.Dispatch.Execute.{dispatch_one, write}

pub data OrderError : Type 0 where
  integration_off dry_run_on wrong_type no_place_code no_config bad_mission no_detail : OrderError
  no_count no_keywords request_failed : OrderError
  unsettled : Option Message → OrderError

-- An `AdOrderPlaceTrafficDetail`; a text that is no JSON array of keywords counts as none.
pub record Detail : Type 0 where
  pub order_count : Option ℤ
  pub search_keywords : List Text
  pub est_total_cost : ℕ

-- An `AdOrder` with its detail
pub record AdOrder : Type 0 where
  pub id : ℕ
  pub merchant_id : ℕ
  pub ad_type : AdType
  pub detail : Option Detail

unfoldable pub find_merchant : ℕ → List Merchant → Option Merchant
find_merchant i ms = first (where_ (λ (m : Merchant). m.id == i) ms)

abbrev pub ok_or {ℓ} : {A : Type ℓ} → Option A → OrderError → Result OrderError A
ok_or none e = err e
ok_or (some a) e = ok a

abbrev pub place_code_of : Option Merchant → Option Text
place_code_of none = none
place_code_of (some m) = m.place_code

-- `[str(k).strip() for k in keywords if str(k).strip()]`
abbrev pub stripped : List Text → List Text
stripped words = non_empty_words (map strip words)

abbrev pub or_zero : Option ℤ → ℤ
or_zero none = pos 0
or_zero (some n) = n

unfoldable pub additional_order_item : Setting → AdOrder → Result OrderError Item
unfolding find_merchant
additional_order_item s o = do
  raise_if (not (number o.ad_type == number place_traffic)) wrong_type
  let code = place_code_of (find_merchant o.merchant_id s.merchants)
  raise_if (not (has_place_code s.is_digit code)) no_place_code
  c ← ok_or (find_config s.configs o.merchant_id place_traffic) no_config
  raise_if (not (is_mission c.mission_category c.mission_action)) bad_mission
  detail ← ok_or o.detail no_detail
  raise_if (leb_ℤ (or_zero detail.order_count) (pos 0)) no_count
  raise_if (is_empty_list (stripped detail.search_keywords)) no_keywords
  ok (record {
    merchant_id = o.merchant_id;
    place_code = code;
    ad_type = place_traffic;
    source = order;
    ad_order_id = some o.id;
    target = pos_part (or_zero detail.order_count);
    keywords = take 200 (stripped detail.search_keywords);
    mission = some (record {
      mission_category = c.mission_category;
      mission_action = c.mission_action;
      keyword_mode = codes "MANUAL";
      auto_count = none;
    });
    unit_price = 0;
    est_cost = detail.est_total_cost;
    verdict = dispatch;
    validation_error = none;
    mission_action_override = none;
  })

abbrev pub is_order : ℕ → Option ℕ → Bool
is_order i none = false
is_order i (some j) = j == i

-- `.filter(ad_order_id == order.id).first()`
unfoldable pub find_order_row : ℕ → List Row → Option Row
find_order_row i rows = first (where_ (λ r. is_order i r.ad_order_id) rows)

abbrev pub sent_or_raised : Db × Option Row → Db × Result OrderError Row
sent_or_raised (db, some r) = (db, ok r)
sent_or_raised (db, none) = (db, err request_failed)

unfoldable pub send_new :
    Setting → Provider → ℕ → Db → Date → Result OrderError Item → Db × Result OrderError Row
unfolding dispatch_one
send_new s p now db today (err e) = (db, err e)
send_new s p now db today (ok i) = sent_or_raised (dispatch_one s p now db i today false)

unfoldable pub dispatch_ad_order :
    Setting → Provider → ℕ → Db → Date → AdOrder → Db × Result OrderError Row
unfolding find_order_row additional_order_item send_new
dispatch_ad_order s p now db today o =
    if not s.integration_enabled
    then (db, err integration_off)
    else if s.dry_run_enabled
    then (db, err dry_run_on)
    else elim (find_order_row o.id db.rows) [
      | some r ↦ (db, if is_executed r.status then ok r else err (unsettled r.error_message))
      | none ↦ send_new s p now db today (additional_order_item s o)
    ]

abbrev pub retry_mission : Option AdConfig → Mission
retry_mission (some c) = mission_of c
retry_mission none = record {
  mission_category = none;
  mission_action = none;
  keyword_mode = codes "MANUAL";
  auto_count = none;
}

-- The entry that `retry` makes from a row; it has no action of its own.
unfoldable pub retry_item : Setting → Row → Item
unfolding find_merchant
retry_item s r = record {
  merchant_id = r.merchant_id;
  place_code = place_code_of (find_merchant r.merchant_id s.merchants);
  ad_type = r.ad_type;
  source = r.source;
  ad_order_id = r.ad_order_id;
  target = r.requested_count;
  keywords = stripped (split 44 (or_empty r.keyword));
  mission = some (retry_mission (find_config s.configs r.merchant_id r.ad_type));
  unit_price = 0;
  est_cost = r.cost_amount;
  verdict = dispatch;
  validation_error = none;
  mission_action_override = none;
}

unfoldable pub retry : Setting → Provider → ℕ → Db → Row → Db × Option Row
unfolding retry_item bump_retry dispatch_one
retry s p now db r =
    if is_failed r.status
    then dispatch_one s p now (write db r.id bump_retry) (retry_item s r) r.execution_date false
    else (db, some r)

pub data RouteError : Type 0 where
  not_found not_retryable raised : RouteError

abbrev pub row_or_raised : Db × Option Row → Db × Result RouteError Row
row_or_raised (db, some r) = (db, ok r)
row_or_raised (db, none) = (db, err raised)

-- `POST /ad-dispatch/{dispatch_id}/retry`
unfoldable pub retry_dispatch : Setting → Provider → ℕ → Db → ℕ → Db × Result RouteError Row
unfolding find_row retryable retry
retry_dispatch s p now db i = elim (find_row i db.rows) [
  | none ↦ (db, err not_found)
  | some r ↦ if retryable r then row_or_raised (retry s p now db r) else (db, err not_retryable)
]
