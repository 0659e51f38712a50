-- ===== src/Lib.antt =====
-- ADPAY, the payment, settlement and advertising platform of beauty shops (app/).
--
-- The program is a web service over a relational database. Each service module holds the rules of
-- one part; routes call it after they have checked who asks. This library models services whose
-- rules decide money, access and what is advertised. A table is a list of records, a method that
-- raises returns `err`, and a request that raises leaves the tables alone, since the session is
-- closed without a commit.
--
-- - Prelude: tests, lists, integers and the result type that the modules share. Text: Python texts
--   as code points. Calendar: what `calendar` and `datetime.date` compute. Accounts: users and roles.
-- - Plan (app/services/plan_service.py, app/models/plan.py): Plan.Targets holds the daily targets and
--   their description, Plan.Rows the assignments and the targets set for a merchant, Plan.Summary
--   `build_summary`.
-- - Credit (app/services/ad_credit.py, app/models/ad_credit.py): Credit.State the rows and the
--   balance row, Credit.Operations `_apply`, `charge`, `use`, `reverse` and `adjust` (here apply,
--   charge, use_credit, reverse_use, adjust), Credit.Refunds the three refund calls, Credit.Report
--   `ledger_list`, `verify` and `credit_dict`. Credit.History runs any sequence of requests.
--   Amounts count hundredths of a won, the unit of the columns. The amount of a charge or an adjustment
--   is any float in the source: Credit.Exact has these calls for any decimal amount (charge_exact,
--   adjust_exact), with the rounding of a column as a parameter, and shows that charge and adjust are
--   the same for whole hundredths.
-- - Login (app/services/login_guard.py): Login.Guard the table of failures, `check`,
--   `record_failure`, `record_success`; Login.ClientIp `client_ip`; Login.Route `login` of
--   app/api/auth_routes.py, which calls them. Times count nanoseconds.
--   Lower-casing a text is a parameter, since it needs the tables of Unicode.
-- - Keyword (app/services/ad_keyword.py, app/models/ad_keyword.py): Keyword.Normalize the normal
--   forms, Keyword.Store the table and its operations, Keyword.History any sequence of requests,
--   with the check of the role that app/api/admin/keyword_routes.py makes. Keyword.Rotation holds
--   `usable_keywords` and `pick_for_date`.
-- - Settlement (app/services/settlement_service.py): Settlement.Floats stands for floating point, a
--   parameter of the rest; Settlement.Rates holds `get_effective_fee_rates`, Settlement.Fees
--   `compute_fee_distribution`, Settlement.Allocation `_allocate_with_remainder`, Settlement.Grouping
--   and Settlement.Distribution `compute_distribution`.
-- - Payout (app/services/settlement_service.py, app/api/admin/payout_routes.py,
--   app/api/owner/misc_routes.py, app/api/sales_routes.py): Payout.Available `get_available_payout`,
--   Payout.Requests the routes that ask for, approve and reject a payout, Payout.History any sequence
--   of them.
-- - Scheduler (app/services/ad_dispatch_scheduler.py): Scheduler.Clock the due times, Scheduler.Lock
--   `acquire_daily_lock` and `acquire_blog_monthly_lock`, at once and statement by statement with
--   several processes, Scheduler.Runs `run_once` up to the call of the advertising and the turns of
--   the two loops.
-- - Dispatch (app/services/ad_dispatch.py, app/models/ad_dispatch.py, app/models/merchant_ad_config.py,
--   app/api/admin/dispatch_routes.py): Dispatch.State the ledger `AdDispatch` and its keys,
--   Dispatch.Config the settings that a plan reads and `_config_error`, Dispatch.Preview the checks of
--   `build_plan` and its split over the actions, Dispatch.Gate `_apply_balance_gate` and the rest of
--   `build_plan`, Dispatch.Provider what is sent and received, Dispatch.Rows what each step writes and
--   `sync_execution`, Dispatch.Execute `fetch_budget`, `_dispatch_one` and `run`, Dispatch.Orders
--   `dispatch_ad_order` and `retry`, Dispatch.Track `refresh_statuses`, Dispatch.Manual
--   `build_manual_queue`, Dispatch.Completion `complete_manual` and `revert_manual`, Dispatch.Report
--   `report`, Dispatch.BlogDates and Dispatch.Blog the monthly blog orders, Dispatch.Requests any
--   sequence of requests. It reads the targets of Plan and the keywords of Keyword, and writes the
--   executions that the summary of Plan reads. The answers of the provider are a parameter.
-- - Rewardpop (app/services/rewardpop.py): Rewardpop.Json the values that the provider sends and
--   `_find_identifier`, Rewardpop.Counts `extract_counts`, Rewardpop.Status `map_external_status`,
--   Rewardpop.Client `_request`, `_error_detail`, `create_order`, `create_blog_order` and
--   `get_order_status`. It is the provider that Dispatch takes as a parameter; what a connection gives
--   back is its parameter. A `groupId` that is a fraction, an array or an object is left out.
-- - Terminal (app/api/terminal_routes.py, app/services/terminal_auth.py, app/models/transaction.py,
--   app/models/terminal.py): Terminal.Auth `find_terminal`, Terminal.Ingest `ingest_transaction`,
--   Terminal.Cancel `_auth_cancel_actor` and `cancel_transaction`, Terminal.Held any sequence of
--   payments and cancellations, Terminal.Unsettled the sums that a settlement takes. The digest and
--   the check of a key are parameters.
-- - Pricing (app/services/ad_pricing.py, app/models/ad.py): Pricing.Prices `normalize_ad_pricing`,
--   `get_ad_pricing` and `save_ad_pricing`, Pricing.Estimate `shorts_estimate`.
-- - Orders (app/api/owner/ad_owner_routes.py, app/api/admin/ad_routes.py, app/api/admin/_helpers.py):
--   Orders.State the orders beside the tables of Credit, Orders.Payment `_resolve_payment_source`,
--   Orders.Create `create_blog_order` and `create_place_traffic_order`, Orders.Shorts
--   `create_shorts_order`, Orders.Status `_change_ad_order_status` and `_sync_order_credit` with the
--   function it returns, Orders.Requests any sequence of requests. It takes the limits from Plan and
--   the prices from Pricing, and moves the credit by the calls of Credit.
--
-- The loops are recursions on a list or on a number. Two take fuel, the search for the first weekday
-- of a month and that for the start of a blog campaign: two, since a weekend has two days.
--
-- Not modelled: the web framework, the database itself, the settings of the advertising provider and
-- its prices, the other outside services (payment gateway, ONGI, place ranks, recommendations), the
-- routes that write settlements, customers and campaigns, the pages, and concurrent transactions on one
-- row, which the row lock of the database serialises.
pub mod Prelude
pub mod Text
pub mod Calendar
pub mod Accounts
pub mod Plan
pub mod Credit
pub mod Login
pub mod Keyword
pub mod Settlement
pub mod Scheduler
pub mod Payout
pub mod Dispatch
pub mod Rewardpop
pub mod Terminal
pub mod Pricing
pub mod Orders
