-- ===== src/Dispatch/Track.antt =====
-- Following the orders that went out (`_pending_status_rows`, `_apply_external_status` and
-- `refresh_statuses` of app/services/ad_dispatch.py).
use beautypos.Prelude.{
  ℕ, suc, Bool, true, false, ◌&&◌, ◌||◌, not, ltb, ◌==◌, if◌then◌else◌, List, [], ◌∷◌, ◌++◌, Option,
  none, some, where_, take, length, Result, ok, err,
}
use beautypos.Prelude.Int.{ℤ, eqb_ℤ}
use beautypos.Text.{Text, or_empty}
use beautypos.Calendar.{Date}
use beautypos.Plan.Summary.{date_eq}
use beautypos.Dispatch.State.{
  Row, Db, Order, order_running, order_done, Status, sent, running, done, stopped, failed,
  provider_status, provider_stopped, max_retry, update_row,
}
use beautypos.Dispatch.Provider.{
  Provider, Reply, Reported, as_sent, as_running, as_stopped, as_done, as_failed, Counts, Error,
  spec_missing, rewardpop_error,
}
use beautypos.Dispatch.Rows.{apply_counts, sync_execution}
use beautypos.Dispatch.Execute.{write}

abbrev pub is_open : Status → Bool
is_open sent = true
is_open running = true
is_open _ = false

abbrev pub is_given {ℓ} : {A : Type ℓ} → Option A → Bool
is_given none = false
is_given (some a) = true

abbrev pub on_day : Option Date → Date → Bool
on_day none d = true
on_day (some day) d = date_eq d day

unfoldable pub insert_by_id : Row → List Row → List Row
insert_by_id r [] = r ∷ []
insert_by_id r (q ∷ qs) =
    let rest = insert_by_id r qs in if ltb q.id r.id then q ∷ rest else r ∷ q ∷ qs

unfoldable pub order_by_id : List Row → List Row
unfolding insert_by_id
order_by_id [] = []
order_by_id (r ∷ rs) = insert_by_id r (order_by_id rs)

unfoldable pub pending_status_rows : List Row → Option Date → ℕ → List Row
unfolding order_by_id
pending_status_rows rows day limit = take limit (
    order_by_id (
      where_
        (λ r.
          is_open r.status
          && (not r.is_dry_run && (is_given r.external_order_id && on_day day r.execution_date)))
        rows))

-- `result.get("raw_status") or row.external_status`
abbrev pub or_text : Option Text → Option Text → Option Text
or_text (some (c ∷ s)) old = some (c ∷ s)
or_text _ old = old

abbrev pub status_of : Reported → Status
status_of as_done = done
status_of as_stopped = stopped
status_of as_failed = failed
status_of as_sent = sent
status_of as_running = running

abbrev pub explained : Reported → Option Text → Row → Row
explained as_failed raw r = record r {
  error_message = some (provider_status raw);
  retry_count = max_retry;
}
explained as_stopped raw r = record r { error_message = some (provider_stopped raw) }
explained _ raw r = r

unfoldable pub external_row : Reported → Reply → Row → Row
unfolding apply_counts
external_row new reply r =
    let marked = explained new reply.raw_status (record r { status = status_of new }) in
    apply_counts reply.counts
      (record marked { external_status = or_text reply.raw_status r.external_status })

abbrev pub finished_order : Order → Order
finished_order o = record o { status = elim o.status [ order_running ↦ order_done | _ ↦ o.status ] }

unfoldable pub finish_order : ℕ → List Order → List Order
finish_order i [] = []
finish_order i (o ∷ os) =
    let rest = finish_order i os in if o.id == i then finished_order o ∷ os else o ∷ rest

-- A running order of a merchant is done with its dispatch.
abbrev pub orders_after : Reported → Option ℕ → List Order → List Order
orders_after as_done (some (suc i)) orders = finish_order (suc i) orders
orders_after _ _ orders = orders

unfoldable pub apply_external_status : Db → Row → Reported → Reply → Db
unfolding external_row finish_order sync_execution update_row
apply_external_status db r new reply =
    let written = write db r.id (external_row new reply) in
    sync_execution (record written { orders = orders_after new r.ad_order_id db.orders })
      r.merchant_id r.ad_type r.execution_date

abbrev pub differs : Option ℤ → Option ℤ → Bool
differs none old = false
differs (some n) none = true
differs (some n) (some k) = not (eqb_ℤ n k)

abbrev pub counts_changed : Counts → Row → Bool
counts_changed c r =
    differs c.delivered_count r.delivered_count
    || (differs c.reward_count r.reward_count || differs c.keyword_count r.keyword_count)

-- `new_status == row.status`, which a row in another state never equals
abbrev pub is_same_status : Reported → Status → Bool
is_same_status as_sent sent = true
is_same_status as_running running = true
is_same_status as_stopped stopped = true
is_same_status as_done done = true
is_same_status as_failed failed = true
is_same_status _ _ = false

pub data Change : Type 0 where
  unchanged counts_only : Change
  status_changed : Reported → Change

abbrev pub change_of : Option Reported → Bool → Status → Change
change_of none changed old = if changed then counts_only else unchanged
change_of (some new) changed old =
    if is_same_status new old && not changed then unchanged else status_changed new

unfoldable pub apply_change : Db → Row → Reply → Change → Db
unfolding apply_counts apply_external_status update_row
apply_change db r reply unchanged = db
apply_change db r reply counts_only = write db r.id (apply_counts reply.counts)
apply_change db r reply (status_changed new) = apply_external_status db r new reply

unfoldable pub apply_reply : Db → Row → Reply → Db
unfolding apply_change
apply_reply db r reply =
    apply_change db r reply (change_of reply.status (counts_changed reply.counts r) r.status)

abbrev pub is_change : Row → Reply → Bool
is_change r reply = elim (change_of reply.status (counts_changed reply.counts r) r.status) [
  | unchanged ↦ false
  | _ ↦ true
]

pub record Refreshed : Type 0 where
  pub checked : ℕ
  pub updated : ℕ
  pub unchanged_count : ℕ
  pub errors : List (ℕ × Text)
  pub missing_spec : Option Text

abbrev pub count_change : Bool → Refreshed → Refreshed
count_change true a = record a { updated = suc a.updated }
count_change false a = record a { unchanged_count = suc a.unchanged_count }

abbrev pub no_spec : Text → Refreshed
no_spec text = record {
  checked = 0;
  updated = 0;
  unchanged_count = 0;
  errors = [];
  missing_spec = some text;
}

-- A missing path ends the round; any other failure is noted, and the row left as it is.
unfoldable pub refresh_row :
    (Db → Refreshed → Db × Refreshed) → Row → Db → Refreshed → Result Error Reply → Db × Refreshed
unfolding apply_reply
refresh_row rest r db a (ok reply) =
    rest (apply_reply db r reply) (count_change (is_change r reply) a)
refresh_row rest r db a (err (spec_missing text)) = (db, no_spec text)
refresh_row rest r db a (err (rewardpop_error text retryable)) =
    rest db (record a { errors = a.errors ++ ((r.id, text) ∷ []) })

unfoldable pub refresh_rows : Provider → List Row → Db → Refreshed → Db × Refreshed
unfolding refresh_row
refresh_rows p [] db a = (db, a)
refresh_rows p (r ∷ rs) db a =
    refresh_row (refresh_rows p rs) r db a (p.get_order_status (or_empty r.external_order_id))

unfoldable pub refresh_statuses : Provider → Db → Option Date → ℕ → Db × Refreshed
unfolding pending_status_rows refresh_rows
refresh_statuses p db day limit =
    let rows = pending_status_rows db.rows day limit in
    refresh_rows p rows db (record {
      checked = length rows;
      updated = 0;
      unchanged_count = 0;
      errors = [];
      missing_spec = none;
    })
