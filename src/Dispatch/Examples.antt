-- ===== src/Dispatch/Examples.antt =====
-- The theorems on the dispatch engine applied to concrete runs, and runs of the engine.
use beautypos.Prelude.{
  length, ◌+◌, ◌*◌, ◌≡◌, ◌≤◌, All, refl, true, false, leb, ◌&&◌, List, [], ◌∷◌, none, some, ok, err,
  arith,
}
use beautypos.Prelude.Int.{pos}
use beautypos.Text.{Text, codes, text_eq}
use beautypos.Calendar.{Date, toordinal, days_in_month}
use beautypos.Plan.Targets.{daily_target_for_date}
use beautypos.Plan.Rows.{
  get_current_plan, insert_desc, effective_monthly_target, place_traffic, blog_review, Plan,
}
use beautypos.Plan.Summary.{today_executed, month_end}
use beautypos.Dispatch.State.{
  Row, Db, sent, failed, auto, new_row, auto_key, same_key, build_idempotency_key,
  counts_as_executed, is_executed,
}
use beautypos.Dispatch.Config.{
  Setting, Merchant, AdConfig, find_config, config_error, has_place_code,
}
use beautypos.Dispatch.Preview.{Item, dispatch, merchant_items, split_visit}
use beautypos.Dispatch.Gate.{Budget, apply_balance_gate, to_dispatch}
use beautypos.Dispatch.Provider.{
  Provider, Payload, build_request, join, Reply, rewardpop_error, as_running, as_done, Counts,
}
use beautypos.Dispatch.Rows.{sync_execution}
use beautypos.Dispatch.Execute.{dispatch_one, finished, send_unless_dry}
use beautypos.Dispatch.Completion.{Completion}
use beautypos.Dispatch.Report.{report, executed_rows}
use beautypos.Dispatch.BlogDates.{next_blog_weekday, blog_work_days}
use beautypos.Dispatch.Ledger.{IsWellFormed}
use beautypos.Dispatch.Requests.{
  Request, running_day, retrying, refreshing, completing, reverting, steps, empty,
}
use beautypos.Dispatch.History.{steps-IsWellFormed}
use beautypos.Dispatch.Split.{split_visit-Whole, targets, costs, IsPart}
use beautypos.Dispatch.Affordable.{IsCovered, gate-IsCovered}
use beautypos.Dispatch.Once.{accepted-silent}
use beautypos.Dispatch.Sync.{asked, sync_execution-today_executed}
use beautypos.Dispatch.Retries.{Attempt, passes, passes-bound}
use beautypos.Dispatch.Totals.{AddsUp, report-AddsUp}
use beautypos.Dispatch.Campaign.{IsStart, campaign-IsStart}

abbrev basic : Plan
basic = record { id = 1; code = codes "basic"; name = codes "Basic"; monthly = λ t. pos 310 }

abbrev salon : Merchant
salon = record { id = 7; name = codes "Salon"; is_active = true; place_code = some (codes "123") }

abbrev config : Text → Text → AdConfig
config category action = record {
  merchant_id = 7;
  ad_type = place_traffic;
  mission_category = some category;
  mission_action = some action;
  keyword_mode = codes "AUTO";
  auto_count = some (pos 10);
  blog_place_url = none;
  blog_place_name = none;
  blog_main_keyword = none;
  blog_work_keywords = none;
  blog_tags = none;
  blog_post_type = none;
  blog_store_address = none;
  blog_store_phone = none;
  blog_extra_link = none;
}

abbrev setting : Setting
setting = record {
  merchants = salon ∷ [];
  assignments =
      (record { id = 1; merchant_id = 7; plan = basic; assigned_at = 0; assigned_by = none }) ∷ [];
  overrides = [];
  keywords = record { rows = []; next_id = 1 };
  configs = config (codes "VISIT") (codes "FIND_PATH") ∷ [];
  unit_price = λ t. 5000;
  integration_enabled = true;
  dry_run_enabled = false;
  is_digit = λ c. leb 48 c && leb c 57;
  to_int = λ s. some (pos 123);
  shuffle = λ d xs. xs;
}

abbrev no_counts : Counts
no_counts = record { delivered_count = none; reward_count = none; keyword_count = none }

abbrev running_reply : Reply
running_reply = record {
  external_order_id = some (codes "g1");
  status = some as_running;
  raw_status = some (codes "ACTIVE");
  counts = no_counts;
}

abbrev provider : Provider
provider = record {
  create_order = λ n payload. ok running_reply;
  get_ad_keywords = λ id. ok (record { keywords = codes "nail" ∷ []; keyword_count = none });
  get_order_status = λ id. ok (record running_reply { status = some as_done });
}

abbrev failing : Provider
failing = record provider { create_order = λ n payload. err (rewardpop_error (codes "busy") true) }

abbrev day : Date
day = record { year = 2026; month = 8; day = 25 }

abbrev budget : Budget
budget = record { enforce = true; error = none; balance = some (pos 1000); by_mission = none }

abbrev rich : Budget
rich = record { enforce = true; error = none; balance = some (pos 100000); by_mission = none }

abbrev nothing_entered : Completion
nothing_entered = record {
  count = some (pos 4);
  external_order_id = none;
  note = none;
  actor_id = some 1;
}

abbrev requests : List Request
requests =
    running_day setting provider 0 day none none budget
    ∷ running_day setting failing 0 day none none rich
    ∷ retrying setting provider 600 2
    ∷ refreshing provider none 50
    ∷ completing setting 700 7 blog_review day nothing_entered
    ∷ reverting 7 blog_review day (some 1) 800
    ∷ []

steps-IsWellFormed_example : IsWellFormed (steps empty requests)
steps-IsWellFormed_example = steps-IsWellFormed requests

abbrev item : Item
item = record {
  merchant_id = 7;
  place_code = some (codes "123");
  ad_type = place_traffic;
  source = auto;
  ad_order_id = none;
  target = 10;
  keywords = [];
  mission = none;
  unit_price = 5000;
  est_cost = 50000;
  verdict = dispatch;
  validation_error = none;
  mission_action_override = none;
}

split_visit-Whole_example :
    (targets (split_visit setting day item) ≡ 10)
    × ((costs (split_visit setting day item) ≡ 5000 * 10)
        × All (IsPart item) (split_visit setting day item))
split_visit-Whole_example = split_visit-Whole setting day item (λ d xs. refl)

gate-IsCovered_example :
    IsCovered budget (pos 1000) (item ∷ []) (apply_balance_gate (item ∷ []) (some budget)).0
gate-IsCovered_example = gate-IsCovered budget (item ∷ []) (pos 1000) refl refl

abbrev payload : Payload
payload = record {
  place_code = pos 123;
  mission_category = none;
  mission_action = none;
  start_date = day;
  work_days = 1;
  daily_quantity = 10;
  keyword_mode = codes "MANUAL";
  keywords = some [];
  auto_count = none;
}

accepted-silent_example :
    to_dispatch (
      merchant_items setting
        (dispatch_one setting provider 0 empty item day false).0.rows
        day
        salon)
    ≡ []
unfolding build_request join text_eq
accepted-silent_example =
    accepted-silent setting provider 0 empty item day payload running_reply setting salon
      (tt, (tt, (tt, tt))) tt refl refl refl refl refl refl

-- Three plans of a day for an order that is not split: the order is accepted, then the merchant has no plan, and then it has one again.
abbrev saving : Setting
saving = record setting { configs = config (codes "SAVE") (codes "PLACE_SAVE") ∷ [] }

abbrev without_plan : Setting
without_plan = record saving { assignments = [] }

abbrev held_back : Db
held_back = steps empty (
    running_day saving provider 0 day none none rich
    ∷ (running_day without_plan provider 60 day none none rich ∷ []))

-- The second plan writes `skipped` over the row of the order, so the third sends the order again.
sent_again : length (to_dispatch (merchant_items saving held_back.rows day salon)) ≡ 1
unfolding steps get_current_plan insert_desc daily_target_for_date effective_monthly_target
    days_in_month finished find_config config_error text_eq has_place_code send_unless_dry same_key
    build_idempotency_key counts_as_executed is_executed
sent_again = refl

abbrev row : Row
row =
    record (new_row 1 7 place_traffic day auto none
      (record { base = auto_key 7 place_traffic day; action = none })) {
        status = sent;
        requested_count = 10;
        cost_amount = 50000;
      }

abbrev db : Db
db = record { rows = row ∷ []; next_id = 2; executions = []; orders = [] }

sync_execution-today_executed_example :
    (today_executed day 7 place_traffic (sync_execution db 7 place_traffic day).executions
      ≡ pos (asked 7 place_traffic day db.rows))
    × (sync_execution (sync_execution db 7 place_traffic day) 7 place_traffic day
        ≡ sync_execution db 7 place_traffic day)
sync_execution-today_executed_example =
    sync_execution-today_executed db 7 place_traffic day (omega arith)

abbrev broken : Db
broken = record db { rows = (record row { status = failed }) ∷ [] }

abbrev attempt : Attempt
attempt = record { setting = setting; provider = failing; now = 0 }

passes-bound_example : passes (attempt ∷ attempt ∷ attempt ∷ attempt ∷ []) broken 1 ≤ 3
passes-bound_example = passes-bound (attempt ∷ attempt ∷ attempt ∷ attempt ∷ []) broken 1

report-AddsUp_example : AddsUp (executed_rows day day (row ∷ [])) (report (row ∷ []) day day)
report-AddsUp_example = report-AddsUp (row ∷ []) day day

-- A Friday at the end of a month and a quarter
abbrev friday : Date
friday = record { year = 2026; month = 7; day = 31 }

campaign-IsStart_example :
    IsStart friday 16 (next_blog_weekday friday 16)
    × (toordinal (next_blog_weekday friday 16) + blog_work_days (next_blog_weekday friday 16)
        ≡ toordinal (month_end (next_blog_weekday friday 16)) + 1)
unfolding days_in_month
campaign-IsStart_example = campaign-IsStart friday 16 (record {
  year = omega arith;
  month = (omega arith, omega arith);
  day = (omega arith, omega arith);
})
