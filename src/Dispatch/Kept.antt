-- ===== src/Dispatch/Kept.antt =====
-- Retries, orders of merchants and refreshed states keep the ledger well-formed
-- (app/services/ad_dispatch.py).
use beautypos.Prelude.{
  ℕ, refl, inl, inr, false, Bool-cases, Option-cases, List, [], ◌∷◌, Option, none, some, Result, ok,
  err,
}
use beautypos.Text.{Text, or_empty}
use beautypos.Calendar.{Date}
use beautypos.Dispatch.State.{Row, Db, find_row, is_failed, retryable}
use beautypos.Dispatch.Config.{Setting}
use beautypos.Dispatch.Preview.{Item}
use beautypos.Dispatch.Provider.{
  Provider, Reply, Reported, as_sent, as_running, as_stopped, as_done, as_failed, Error,
  spec_missing, rewardpop_error,
}
use beautypos.Dispatch.Rows.{bump_retry, apply_counts, sync_execution}
use beautypos.Dispatch.Execute.{write, dispatch_one}
use beautypos.Dispatch.Orders.{
  AdOrder, OrderError, dispatch_ad_order, find_order_row, additional_order_item, send_new, retry,
  retry_item, retry_dispatch, sent_or_raised, row_or_raised,
}
use beautypos.Dispatch.Track.{
  refresh_row, refresh_rows, Refreshed, apply_reply, apply_change, external_row, explained,
  status_of, apply_external_status, Change, unchanged, counts_only, status_changed, change_of,
  counts_changed,
}
use beautypos.Dispatch.Ledger.{IsWellFormed, Keeps, write-IsWellFormed}
use beautypos.Dispatch.Preserved.{dispatch_one-IsWellFormed}

pub retry_dispatch-IsWellFormed :
    (s : Setting) (p : Provider) (now : ℕ) (db : Db) (i : ℕ)
    → IsWellFormed db
    → IsWellFormed (retry_dispatch s p now db i).0
unfolding retry_dispatch retry bump_retry
retry_dispatch-IsWellFormed s p now db i h = elim (Option-cases (find_row i db.rows)) [
  | inl e ↦ rw (e, retry_dispatch) h
  | inr (r, e) ↦
      rw (e, retry_dispatch)
        (elim (Bool-cases (retryable r)) [
          | inl t ↦ rw t (
              unwrapped (retry s p now db r) (elim (Bool-cases (is_failed r.status)) [
                | inl f ↦ rw f (
                    dispatch_one-IsWellFormed s p now (write db r.id bump_retry) (retry_item s r)
                      r.execution_date false (write-IsWellFormed db r.id bump_retry (λ q. refl) h))
                | inr f ↦ rw f h
              ]))
          | inr t ↦ rw t h
        ])
]
  where
    unwrapped : (x : Db × Option Row) → IsWellFormed x.0 → IsWellFormed (row_or_raised x).0
    unwrapped (db, none) g = g
    unwrapped (db, some r) g = g

send_new-IsWellFormed :
    (s : Setting) (p : Provider) (now : ℕ) (db : Db) (today : Date) (i : Result OrderError Item)
    → IsWellFormed db
    → IsWellFormed (send_new s p now db today i).0
unfolding send_new
send_new-IsWellFormed s p now db today (err e) h = h
send_new-IsWellFormed s p now db today (ok i) h =
    unwrapped (dispatch_one s p now db i today false)
      (dispatch_one-IsWellFormed s p now db i today false h)
  where
    unwrapped : (x : Db × Option Row) → IsWellFormed x.0 → IsWellFormed (sent_or_raised x).0
    unwrapped (db, none) g = g
    unwrapped (db, some r) g = g

pub dispatch_ad_order-IsWellFormed :
    (s : Setting) (p : Provider) (now : ℕ) (db : Db) (today : Date) (o : AdOrder)
    → IsWellFormed db
    → IsWellFormed (dispatch_ad_order s p now db today o).0
unfolding dispatch_ad_order
dispatch_ad_order-IsWellFormed s p now db today o h = elim (Bool-cases s.integration_enabled) [
  | inr e ↦ rw e h
  | inl e ↦ rw e (elim (Bool-cases s.dry_run_enabled) [
    | inl d ↦ rw d h
    | inr d ↦ rw d (elim (Option-cases (find_order_row o.id db.rows)) [
      | inl f ↦ rw f (send_new-IsWellFormed s p now db today (additional_order_item s o) h)
      | inr (r, f) ↦ rw f h
    ])
  ])
]

explained-Keeps :
    (new : Reported) (raw : Option Text) (f : Row → Row)
    → Keeps f
    → Keeps (λ r. explained new raw (f r))
explained-Keeps as_sent raw f k r = k r
explained-Keeps as_running raw f k r = k r
explained-Keeps as_stopped raw f k r = k r
explained-Keeps as_done raw f k r = k r
explained-Keeps as_failed raw f k r = k r

external_row-Keeps : (new : Reported) (reply : Reply) → Keeps (external_row new reply)
unfolding external_row apply_counts
external_row-Keeps new reply =
    explained-Keeps new reply.raw_status (λ r. record r { status = status_of new }) (λ r. refl)

apply_change-IsWellFormed :
    (db : Db) (r : Row) (reply : Reply) (c : Change)
    → IsWellFormed db
    → IsWellFormed (apply_change db r reply c)
unfolding apply_change apply_external_status sync_execution apply_counts
apply_change-IsWellFormed db r reply unchanged h = h
apply_change-IsWellFormed db r reply counts_only h =
    write-IsWellFormed db r.id (apply_counts reply.counts) (λ q. refl) h
apply_change-IsWellFormed db r reply (status_changed new) h =
    write-IsWellFormed db r.id (external_row new reply) (external_row-Keeps new reply) h

refresh_row-IsWellFormed :
    (rest : Db → Refreshed → Db × Refreshed) (r : Row) (db : Db) (a : Refreshed)
    (reply : Result Error Reply)
    → ((d : Db) (b : Refreshed) → IsWellFormed d → IsWellFormed (rest d b).0)
    → IsWellFormed db
    → IsWellFormed (refresh_row rest r db a reply).0
unfolding refresh_row apply_reply
refresh_row-IsWellFormed rest r db a (ok reply) k h = k _ _ (
    apply_change-IsWellFormed db r reply
      (change_of reply.status (counts_changed reply.counts r) r.status) h)
refresh_row-IsWellFormed rest r db a (err (spec_missing text)) k h = h
refresh_row-IsWellFormed rest r db a (err (rewardpop_error text retry)) k h = k db _ h

pub refresh_rows-IsWellFormed :
    (p : Provider) (rs : List Row) (db : Db) (a : Refreshed)
    → IsWellFormed db
    → IsWellFormed (refresh_rows p rs db a).0
unfolding refresh_rows
refresh_rows-IsWellFormed p [] db a h = h
refresh_rows-IsWellFormed p (r ∷ rs) db a h =
    refresh_row-IsWellFormed (refresh_rows p rs) r db a
      (p.get_order_status (or_empty r.external_order_id)) (refresh_rows-IsWellFormed p rs) h
