-- ===== src/Dispatch/Rows.antt =====
-- How the steps of an order write a row of the ledger, and the executions recomputed from the rows
-- (`_record_skip`, `_prepare_row`, `_apply_counts`, `_mark_sent`, `_mark_failed`, `_store_keywords`,
-- `_bump_retry` and `sync_execution` of app/services/ad_dispatch.py).
use beautypos.Prelude.{
  ℕ, suc, ◌+◌, ◌*◌, Bool, true, false, ◌&&◌, not, ltb, ◌==◌, if◌then◌else◌, List, [], ◌∷◌, Option,
  none, some, where_, take, length,
}
use beautypos.Prelude.Int.{ℤ, pos}
use beautypos.Text.{Text, codes, is_empty, or_none, or_empty}
use beautypos.Calendar.{Date}
use beautypos.Plan.Rows.{AdType, number}
use beautypos.Plan.Summary.{Execution, date_eq}
use beautypos.Dispatch.State.{
  Row, Db, Key, auto, pending, dry_run, sent, running, done, stopped, failed, skipped, SkipReason,
  zero_target, already_done, said, registration_error, max_retry, backoff_minutes,
  counts_as_executed, build_idempotency_key, new_row, upsert, update_row,
}
use beautypos.Dispatch.Preview.{Item, is_for_day}
use beautypos.Dispatch.Provider.{
  Counts, Reply, Reported, as_running, as_stopped, as_done, as_failed, Found, join, nonzero,
}

-- `", ".join(keywords) or None`
abbrev pub keyword_text : List Text → Option Text
keyword_text words = or_none (join (codes ", ") words)

unfoldable pub skipped_row : SkipReason → Item → Row → Row
skipped_row reason i r = record r {
  requested_count = i.target;
  keyword = keyword_text i.keywords;
  status = skipped;
  skip_reason = some reason;
  error_message = i.validation_error;
}

-- Reasons of an ordinary day leave no row.
abbrev pub is_ordinary : SkipReason → Bool
is_ordinary zero_target = true
is_ordinary already_done = true
is_ordinary _ = false

unfoldable pub skip_key : Item → Date → Key
skip_key i day = record {
  base = build_idempotency_key auto i.merchant_id i.ad_type day none;
  action = none;
}

write_skip : Db → SkipReason → Item → Date → Db
unfolding upsert skipped_row skip_key
write_skip db reason i day =
    (upsert (skip_key i day) (skipped_row reason i)
      (λ n. new_row n i.merchant_id i.ad_type day auto none (skip_key i day)) db).0

unfoldable pub record_skip : Db → SkipReason → Item → Date → Db
unfolding write_skip
record_skip db reason i day = if is_ordinary reason then db else write_skip db reason i day

-- The key of an entry; an action of a split visit hangs on to it.
unfoldable pub item_key : Item → Date → Key
item_key i day = record {
  base = build_idempotency_key i.source i.merchant_id i.ad_type day i.ad_order_id;
  action = or_none (or_empty i.mission_action_override);
}

unfoldable pub prepared_row : Bool → Item → Row → Row
prepared_row dry i r = record r {
  requested_count = i.target;
  keyword = keyword_text i.keywords;
  cost_amount = i.est_cost;
  is_dry_run = dry;
  skip_reason = none;
  error_message = none;
  next_retry_at = none;
  status = if dry then dry_run else pending;
}

unfoldable pub prepare_row : Db → Item → Date → Bool → Db × Row
unfolding upsert prepared_row item_key
prepare_row db i day dry =
    upsert (item_key i day) (prepared_row dry i)
      (λ n. new_row n i.merchant_id i.ad_type day i.source i.ad_order_id (item_key i day)) db

abbrev pub or_kept : Option ℤ → Option ℤ → Option ℤ
or_kept none old = old
or_kept (some n) old = some n

-- A number that the reply does not have is kept.
unfoldable pub apply_counts : Counts → Row → Row
apply_counts c r = record r {
  delivered_count = or_kept c.delivered_count r.delivered_count;
  reward_count = or_kept c.reward_count r.reward_count;
  keyword_count = or_kept c.keyword_count r.keyword_count;
}

abbrev pub status_sent : Option Reported → Row → Row
status_sent (some as_done) r = record r { status = done }
status_sent (some as_stopped) r = record r { status = stopped }
status_sent (some as_failed) r = record r {
  status = failed;
  retry_count = max_retry;
  error_message = some registration_error;
}
status_sent (some as_running) r = record r { status = running }
status_sent _ r = record r { status = sent }

unfoldable pub sent_row : Reply → Row → Row
unfolding apply_counts
sent_row reply r =
    let marked = record (status_sent reply.status r) {
      external_order_id = or_none (or_empty reply.external_order_id);
      external_status = or_none (or_empty reply.raw_status);
    } in
    record (apply_counts reply.counts marked) { next_retry_at = none }

unfoldable pub failed_row : ℕ → Text → Bool → Row → Row
failed_row now message retryable r =
    let marked = record r { status = failed; error_message = some (said (take 500 message)) } in
    let again = record marked { next_retry_at = some (now + backoff_minutes r.retry_count * 60) } in
    let never = record marked { next_retry_at = none; retry_count = max_retry } in
    if retryable && ltb r.retry_count max_retry then again else never

unfoldable pub bump_retry : Row → Row
bump_retry r = record r { retry_count = suc r.retry_count }

abbrev pub non_empty_words : List Text → List Text
non_empty_words words = where_ (λ w. not (is_empty w)) words

abbrev pub count_or_length : Option ℤ → List Text → ℤ
count_or_length none words = pos (length words)
count_or_length (some n) words = n

abbrev pub write_words : Found → List Text → Row → Row
write_words found [] r = r
write_words found (w ∷ ws) r = record r {
  keywords_json = some (w ∷ ws);
  keyword_count = some (count_or_length (nonzero found.keyword_count) (w ∷ ws));
  keyword = some (take 200 (join (codes ", ") (w ∷ ws)));
}

unfoldable pub store_keywords : Found → Row → Row
store_keywords found r = write_words found (non_empty_words found.keywords) r

-- The rows of a merchant, type and day that were executed, of any source
abbrev pub is_counted : ℕ → AdType → Date → Row → Bool
is_counted m t day r = is_for_day m t day r && counts_as_executed r

unfoldable pub executed_total : ℕ → AdType → Date → List Row → ℕ
executed_total m t day [] = 0
executed_total m t day (r ∷ rs) =
    (if is_counted m t day r then r.requested_count else 0) + executed_total m t day rs

abbrev pub is_execution : ℕ → AdType → Date → Execution → Bool
is_execution m t day e =
    e.merchant_id == m && (number e.ad_type == number t && date_eq e.execution_date day)

-- The execution of the day is written with the total, and made only if the total is not 0.
unfoldable pub set_execution : ℕ → AdType → Date → ℕ → List Execution → List Execution
set_execution m t day total [] =
    if total == 0
    then []
    else (record { merchant_id = m; ad_type = t; executed_count = pos total; execution_date = day })
      ∷ []
set_execution m t day total (e ∷ es) =
    let rest = set_execution m t day total es in
    if is_execution m t day e then (record e { executed_count = pos total }) ∷ es else e ∷ rest

unfoldable pub sync_execution : Db → ℕ → AdType → Date → Db
unfolding executed_total set_execution
sync_execution db m t day = record db {
  executions = set_execution m t day (executed_total m t day db.rows) db.executions;
}

-- A step writes the columns of a row, and the executions of the day of that row.
unfoldable pub write_and_sync : Db → Row → (Row → Row) → Db
unfolding sync_execution update_row
write_and_sync db r f =
    sync_execution (record db { rows = update_row r.id f db.rows }) r.merchant_id r.ad_type
      r.execution_date
