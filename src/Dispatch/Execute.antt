-- ===== src/Dispatch/Execute.antt =====
-- Sending the orders of a day (`_dispatch_one`, `fetch_budget` and `run` of
-- app/services/ad_dispatch.py). The request of an order raises where the place code does not convert;
-- what was committed before stays.
use beautypos.Prelude.{
  ℕ, Bool, true, false, ◌&&◌, not, if◌then◌else◌, List, [], ◌∷◌, ◌++◌, Option, none, some, length,
  Result, ok, err,
}
use beautypos.Prelude.Int.{ℤ}
use beautypos.Text.{Text, codes, is_empty, or_empty}
use beautypos.Calendar.{Date}
use beautypos.Dispatch.State.{Row, Db, update_row, is_failed}
use beautypos.Dispatch.Config.{Setting, is_auto_mode}
use beautypos.Dispatch.Preview.{Item, Mission, Verdict, dispatch, skip}
use beautypos.Dispatch.Gate.{Budget, DayPlan, BalanceInfo, build_plan}
use beautypos.Dispatch.Provider.{
  Error, message_of, is_retryable, Reply, Found, Payload, Provider, build_request,
}
use beautypos.Dispatch.Rows.{
  prepare_row, sent_row, failed_row, record_skip, store_keywords, write_and_sync,
}

abbrev pub write : Db → ℕ → (Row → Row) → Db
write db i f = record db { rows = update_row i f db.rows }

-- `cfg.get("keyword_mode")`, which is nothing without a configuration
abbrev pub asks_for_keywords : Option Mission → Bool
asks_for_keywords none = false
asks_for_keywords (some c) = is_auto_mode c.keyword_mode

abbrev pub found_or_same : Result Error Found → Row → Row
found_or_same (ok found) r = store_keywords found r
found_or_same (err e) r = r

-- A failure to read the keywords back is let pass.
unfoldable pub collect_auto_keywords : Provider → Item → Db × Row → Db × Row
unfolding store_keywords update_row
collect_auto_keywords p i (db, r) =
    let id = or_empty r.external_order_id in
    let after = found_or_same (p.get_ad_keywords id) in
    if asks_for_keywords i.mission && not (is_empty id)
    then (write db r.id after, after r)
    else (db, r)

unfoldable pub after_reply : Provider → ℕ → Item → Result Error Reply → Db × Row → Db × Row
unfolding collect_auto_keywords sent_row failed_row write_and_sync update_row
after_reply p now i (ok reply) (db, r) =
    collect_auto_keywords p i (write_and_sync db r (sent_row reply), sent_row reply r)
after_reply p now i (err e) (db, r) =
    let mark = failed_row now (message_of e) (is_retryable e) in (write db r.id mark, mark r)

abbrev pub returned : Db × Row → Db × Option Row
returned (db, r) = (db, some r)

-- A dry run stops before the order is sent.
unfoldable pub send_unless_dry : Provider → ℕ → Item → Bool → Payload → Db × Row → Db × Option Row
unfolding after_reply
send_unless_dry p now i true payload (db, r) = (db, some r)
send_unless_dry p now i false payload (db, r) =
    returned (after_reply p now i (p.create_order r.id payload) (db, r))

-- The row is written before the order is sent. Nothing is returned where the request raises.
unfoldable pub dispatch_one : Setting → Provider → ℕ → Db → Item → Date → Bool → Db × Option Row
unfolding build_request prepare_row after_reply
dispatch_one s p now db i day dry = elim (build_request s i day) [
  | none ↦ (db, none)
  | some payload ↦ send_unless_dry p now i dry payload (prepare_row db i day dry)
]

pub record Progress : Type 0 where
  pub dispatched : List (Item × Row)
  pub failed : List (Item × Row)
  pub skipped : List Item

abbrev pub nothing_yet : Progress
nothing_yet = record { dispatched = []; failed = []; skipped = [] }

abbrev pub add_sent : Item → Row → Progress → Progress
add_sent i r a =
    if is_failed r.status
    then (record a { failed = a.failed ++ ((i, r) ∷ []) })
    else (record a { dispatched = a.dispatched ++ ((i, r) ∷ []) })

abbrev pub add_skipped : Item → Progress → Progress
add_skipped i a = record a { skipped = a.skipped ++ (i ∷ []) }

-- The entries that follow are run, unless the request of this one raised.
abbrev pub after_sent :
    (Db → Progress → Db × Option Progress)
    → Item
    → Progress
    → Db × Option Row
    → Db × Option Progress
after_sent rest i a (db, none) = (db, none)
after_sent rest i a (db, some r) = rest db (add_sent i r a)

module _ (s : Setting) (p : Provider) (now : ℕ) (day : Date) (dry : Bool) where
  unfoldable pub run_item :
      (Db → Progress → Db × Option Progress) → Item → Db → Progress → Verdict → Db × Option Progress
  unfolding dispatch_one record_skip
  run_item rest i db a (skip reason) = rest (record_skip db reason i day) (add_skipped i a)
  run_item rest i db a dispatch = after_sent rest i a (dispatch_one s p now db i day dry)

  unfoldable pub run_items : List Item → Db → Progress → Db × Option Progress
  unfolding run_item
  run_items [] db a = (db, some a)
  run_items (i ∷ items) db a = run_item (run_items items) i db a i.verdict

abbrev pub or_setting : Option Bool → Bool → Bool
or_setting none b = b
or_setting (some b) _ = b

pub record RunResult : Type 0 where
  pub dry_run : Bool
  pub progress : Progress
  pub dispatched_count : ℕ
  pub failed_count : ℕ
  pub skipped_count : ℕ
  pub info : BalanceInfo

run_result : Bool → DayPlan → Progress → RunResult
run_result dry plan a = record {
  dry_run = dry;
  progress = a;
  dispatched_count = length a.dispatched;
  failed_count = length a.failed;
  skipped_count = length a.skipped;
  info = plan.info;
}

-- `{"balance": None, "by_mission": None, "error": None}`
no_budget : Budget
no_budget = record { enforce = true; error = none; balance = none; by_mission = none }

-- `body.get("by_mission") or None`
abbrev pub prices_or_none {ℓ} : {A : Type ℓ} → Result Error (Option A) → Option A
prices_or_none (ok prices) = prices
prices_or_none (err e) = none

-- The balance is read, and then the prices; a failure is kept as a text or let pass.
unfoldable pub fetch_budget :
    Bool → Result Error (Option ℤ) → Result Error (Option (Text → Option ℕ)) → Budget
unfolding no_budget
fetch_budget false balance prices = no_budget
fetch_budget true (err e) prices = record no_budget { error = some (message_of e) }
fetch_budget true (ok none) prices = record no_budget {
  error = some (codes "잔액 응답에서 포인트 값을 찾지 못했습니다.");
  by_mission = prices_or_none prices;
}
fetch_budget true (ok (some balance)) prices = record no_budget {
  balance = some balance;
  by_mission = prices_or_none prices;
}

unfoldable pub finished : Bool → DayPlan → Db × Option Progress → Db × Option RunResult
unfolding run_result
finished dry plan (db, none) = (db, none)
finished dry plan (db, some a) = (db, some (run_result dry plan a))

-- The scheduler and the administrator run this; a missing choice of a dry run is the setting's. The
-- budget is what `fetch_budget` has read.
unfoldable pub run :
    Setting → Provider → ℕ → Db → Date → Option ℕ → Option Bool → Budget → Db × Option RunResult
unfolding build_plan run_items run_result
run s p now db day only dry_run budget =
    let dry = or_setting dry_run s.dry_run_enabled in
    let plan = build_plan s db.rows day only (some (record budget { enforce = not dry })) in
    finished dry plan (run_items s p now day dry plan.items db nothing_yet)
