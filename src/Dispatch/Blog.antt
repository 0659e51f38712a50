-- ===== src/Dispatch/Blog.antt =====
-- The monthly orders of blog campaigns (`_blog_config_error`, `_build_blog_request`,
-- `build_blog_monthly_plan` and `dispatch_blog_monthly` of app/services/ad_dispatch.py).
use beautypos.Prelude.{
  ℕ, Bool, true, false, ◌&&◌, ◌||◌, not, ltb, if◌then◌else◌, ◌==◌, List, [], ◌∷◌, ◌++◌, map, Option,
  none, some, any, length, Result, ok, err, ◌>>◌, raise_if,
}
use beautypos.Prelude.Int.{ℤ, pos, ltb_ℤ, pos_part}
use beautypos.Text.{Text, codes, text_eq, is_empty, or_empty, or_none, strip}
use beautypos.Calendar.{Date}
use beautypos.Plan.Rows.{blog_review, number}
use beautypos.Plan.Summary.{date_le, month_start, month_end}
use beautypos.Dispatch.State.{
  Row, Db, Key, auto, SkipReason, no_config, invalid_config, already_done, integration_off, pending,
  dry_run, build_idempotency_key, counts_as_executed, new_row, upsert,
}
use beautypos.Dispatch.Config.{Setting, Merchant, AdConfig, find_config, chosen_merchants}
use beautypos.Dispatch.Preview.{is_auto}
use beautypos.Dispatch.Provider.{Error, Reply, message_of, is_retryable}
use beautypos.Dispatch.Rows.{non_empty_words, sent_row, failed_row, write_and_sync}
use beautypos.Dispatch.Execute.{write}
use beautypos.Dispatch.BlogDates.{next_blog_weekday, blog_work_days}

pub data BlogError : Type 0 where
  no_place_url no_mobile_url no_place_name no_main_keyword no_work_keywords : BlogError
  few_tags bad_post_type low_workload : BlogError

abbrev pub starts_with : Text → Text → Bool
starts_with [] s = true
starts_with (c ∷ cs) [] = false
starts_with (c ∷ cs) (d ∷ ds) = c == d && starts_with cs ds

-- `piece in s`
unfoldable pub contains : Text → Text → Bool
contains piece [] = is_empty piece
contains piece (c ∷ s) = starts_with piece (c ∷ s) || contains piece s

-- `not value`
abbrev pub is_missing : Option Text → Bool
is_missing value = is_empty (or_empty value)

-- The list of a column in JSON; a column that holds no list counts as an empty one.
abbrev pub words_of : Option (List Text) → List Text
words_of none = []
words_of (some words) = words

abbrev pub is_post_type : Option Text → Bool
is_post_type t =
    text_eq (or_empty t) (codes "INFO")
    || (text_eq (or_empty t) (codes "REVIEW") || text_eq (or_empty t) (codes "FREE"))

abbrev pub workload : AdConfig → ℤ
workload c = elim c.auto_count [ none ↦ pos 0 | some n ↦ n ]

unfoldable pub blog_config_error : AdConfig → Result BlogError (Unit {0})
unfolding contains
blog_config_error c = do
  raise_if (is_missing c.blog_place_url) no_place_url
  raise_if (not (contains (codes "m.place.naver.com") (or_empty c.blog_place_url))) no_mobile_url
  raise_if (is_missing c.blog_place_name) no_place_name
  raise_if (is_missing c.blog_main_keyword) no_main_keyword
  raise_if (length (words_of c.blog_work_keywords) == 0) no_work_keywords
  raise_if (ltb (length (words_of c.blog_tags)) 5) few_tags
  raise_if (not (is_post_type c.blog_post_type)) bad_post_type
  raise_if (ltb_ℤ (workload c) (pos 3)) low_workload
  ok tt

pub record BlogPayload : Type 0 where
  pub place_url : Option Text
  pub place_name : Option Text
  pub main_keyword : Option Text
  pub work_keywords : List Text
  pub tags : List Text
  pub post_type : Option Text
  pub start_date : Date
  pub daily_workload : ℤ
  pub work_days : ℕ
  pub store_address : Option Text
  pub store_phone : Option Text
  pub extra_link : Option Text

abbrev pub trimmed : Option (List Text) → List Text
trimmed words = non_empty_words (map strip (words_of words))

abbrev pub if_filled : Option Text → Option Text
if_filled value = or_none (or_empty value)

unfoldable pub build_blog_request : AdConfig → Date → ℕ → BlogPayload
build_blog_request c start work_days = record {
  place_url = c.blog_place_url;
  place_name = c.blog_place_name;
  main_keyword = c.blog_main_keyword;
  work_keywords = trimmed c.blog_work_keywords;
  tags = trimmed c.blog_tags;
  post_type = c.blog_post_type;
  start_date = start;
  daily_workload = workload c;
  work_days = work_days;
  store_address = if_filled c.blog_store_address;
  store_phone = if_filled c.blog_store_phone;
  extra_link = if_filled c.blog_extra_link;
}

abbrev pub sent_in_month : ℕ → Date → Row → Bool
sent_in_month m start r =
    r.merchant_id == m
    && (number r.ad_type == number blog_review
        && (date_le start r.execution_date
            && (date_le r.execution_date (month_end start)
                && (is_auto r.source && counts_as_executed r))))

unfoldable pub already_blog_dispatched_this_month : List Row → ℕ → Date → Bool
already_blog_dispatched_this_month rows m start = any (sent_in_month m start) rows

pub data BlogVerdict : Type 0 where
  skip_blog : SkipReason → Option BlogError → BlogVerdict
  send_blog : BlogPayload → BlogVerdict

abbrev pub ready : Setting → List Row → Date → ℕ → Merchant → AdConfig → BlogVerdict
ready s rows day hour m c =
    let start = next_blog_weekday day hour in
    if already_blog_dispatched_this_month rows m.id (month_start day)
    then skip_blog already_done none
    else if not s.integration_enabled
    then skip_blog integration_off none
    else send_blog (build_blog_request c start (blog_work_days start))

unfoldable pub blog_item : Setting → List Row → Date → ℕ → Merchant → BlogVerdict
unfolding blog_config_error already_blog_dispatched_this_month month_start next_blog_weekday
    blog_work_days build_blog_request
blog_item s rows day hour m = elim (find_config s.configs m.id blog_review) [
  | none ↦ skip_blog no_config none
  | some c ↦ elim (blog_config_error c) [
    | err e ↦ skip_blog invalid_config (some e)
    | ok u ↦ ready s rows day hour m c
  ]
]

unfoldable pub build_blog_monthly_plan :
    Setting → List Row → Date → Option ℕ → ℕ → List (Merchant × BlogVerdict)
unfolding blog_item
build_blog_monthly_plan s rows day only hour =
    map (λ (m : Merchant). (m, blog_item s rows day hour m)) (chosen_merchants s only)

unfoldable pub blog_key : ℕ → Date → Key
unfolding month_start
blog_key m day = record {
  base = build_idempotency_key auto m blog_review (month_start day) none;
  action = none;
}

-- `_upsert_blog_row`: unlike the row of a day's order this one keeps its cost and its next retry.
unfoldable pub blog_row : Bool → BlogPayload → Row → Row
blog_row dry payload r = record r {
  requested_count = pos_part payload.daily_workload;
  is_dry_run = dry;
  skip_reason = none;
  error_message = none;
  status = if dry then dry_run else pending;
}

unfoldable pub upsert_blog_row : Db → ℕ → Date → Bool → BlogPayload → Db × Row
unfolding upsert blog_row blog_key month_start
upsert_blog_row db m day dry payload =
    upsert (blog_key m day) (blog_row dry payload)
      (λ n. new_row n m blog_review (month_start day) auto none (blog_key m day)) db

unfoldable pub blog_replied : ℕ → Result Error Reply → Db × Row → Db × Row
unfolding sent_row failed_row write_and_sync
blog_replied now (ok reply) (db, r) = (write_and_sync db r (sent_row reply), sent_row reply r)
blog_replied now (err e) (db, r) =
    let mark = failed_row now (message_of e) (is_retryable e) in (write db r.id mark, mark r)

-- `create_blog_order`, for the row of an id
module _ (create_blog_order : ℕ → BlogPayload → Result Error Reply) where
  unfoldable pub send_blog_order : ℕ → Db → ℕ → Date → Bool → BlogPayload → Db × Row
  unfolding upsert_blog_row
  send_blog_order now db m day dry payload =
      let prepared = upsert_blog_row db m day dry payload in
      let sent = blog_replied now (create_blog_order prepared.1.id payload) prepared in
      if dry then prepared else sent

  unfoldable pub send_blog_orders :
      ℕ → Date → Bool → List (Merchant × BlogVerdict) → Db → List Row → Db × List Row
  unfolding send_blog_order
  send_blog_orders now day dry [] db sent = (db, sent)
  send_blog_orders now day dry ((m, skip_blog reason e) ∷ items) db sent =
      send_blog_orders now day dry items db sent
  send_blog_orders now day dry ((m, send_blog payload) ∷ items) db sent =
      let one = send_blog_order now db m.id day dry payload in
      send_blog_orders now day dry items one.0 (sent ++ (one.1 ∷ []))

  -- The rows that were sent, failed ones included, in order
  unfoldable pub dispatch_blog_monthly :
      Setting → ℕ → Db → Date → Option ℕ → Bool → ℕ → Db × List Row
  unfolding build_blog_monthly_plan send_blog_orders
  dispatch_blog_monthly s now db day only dry hour =
      send_blog_orders now day dry (build_blog_monthly_plan s db.rows day only hour) db []
