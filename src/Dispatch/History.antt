-- ===== src/Dispatch/History.antt =====
-- The ledger stays well-formed in any history of requests (app/services/ad_dispatch.py).
use beautypos.Prelude.{
  ℕ, refl, inl, inr, Bool, true, false, Bool-cases, Option-cases, if◌then◌else◌, List, [], ◌∷◌,
  Option, none, Result, ok, err, not, ◌==◌, any,
}
use beautypos.Prelude.Int.{leb_ℤ, pos, pos_part}
use beautypos.Calendar.{Date}
use beautypos.Plan.Rows.{AdType, blog_review}
use beautypos.Plan.Summary.{month_start}
use beautypos.Dispatch.State.{Row, Db, find_key, auto, manual, new_row, is_manual_source}
use beautypos.Dispatch.Config.{Setting, Merchant}
use beautypos.Dispatch.Provider.{Reply, Error, message_of, is_retryable}
use beautypos.Dispatch.Rows.{sent_row, failed_row, sync_execution}
use beautypos.Dispatch.Track.{refresh_statuses, pending_status_rows}
use beautypos.Dispatch.Completion.{
  Completion, complete_manual, completed_row, revert_manual, reverted_row, complete_checked,
  revert_manual_dispatch, final_count, synced,
}
use beautypos.Dispatch.Manual.{is_manual_type, manual_row_key, manual_target}
use beautypos.Dispatch.Blog.{
  BlogPayload, BlogVerdict, skip_blog, send_blog, dispatch_blog_monthly, send_blog_orders,
  send_blog_order, build_blog_monthly_plan, upsert_blog_row, blog_row, blog_key, blog_replied,
}
use beautypos.Dispatch.Ledger.{IsWellFormed, write-IsWellFormed, upsert-IsWellFormed}
use beautypos.Dispatch.Preserved.{
  run-IsWellFormed, sent_row-Keeps, failed_row-Keeps, write_and_sync-IsWellFormed,
}
use beautypos.Dispatch.Requests.{
  Request, running_day, retrying, ordering, refreshing, completing, reverting, blogging, after,
  step, steps, empty,
}
use beautypos.Dispatch.Kept.{
  retry_dispatch-IsWellFormed, dispatch_ad_order-IsWellFormed, refresh_rows-IsWellFormed,
}

complete_manual-IsWellFormed :
    (s : Setting) (db : Db) (now m : ℕ) (t : AdType) (day : Date) (c : Completion)
    → IsWellFormed db
    → IsWellFormed (after db (complete_manual s db now m t day c))
unfolding complete_manual complete_checked sync_execution completed_row synced manual_row_key
complete_manual-IsWellFormed s db now m t day c h = elim (Bool-cases (not (is_manual_type t))) [
  | inl e ↦ rw e h
  | inr e ↦ rw e (elim (Bool-cases (not (any (λ (x : Merchant). x.id == m) s.merchants))) [
    | inl f ↦ rw f h
    | inr f ↦
        rw f (elim (Bool-cases (leb_ℤ (final_count c.count (manual_target s m t day)) (pos 0))) [
          | inl g ↦ rw g h
          | inr g ↦ rw g (
              upsert-IsWellFormed db (manual_row_key m t day)
                (completed_row c now (manual_target s m t day) (s.unit_price t)
                  (pos_part (final_count c.count (manual_target s m t day))))
                (λ n. new_row n m t day manual none (manual_row_key m t day)) (λ r. refl)
                (λ n. (refl, (refl, refl))) h)
        ])
  ])
]

revert_manual-IsWellFormed :
    (db : Db) (m : ℕ) (t : AdType) (day : Date) (actor : Option ℕ) (now : ℕ)
    → IsWellFormed db
    → IsWellFormed (after db (revert_manual_dispatch db m t day actor now))
unfolding revert_manual_dispatch revert_manual reverted_row
revert_manual-IsWellFormed db m t day actor now h =
    elim (Option-cases (find_key (manual_row_key m t day) db.rows)) [
      | inl e ↦ rw (e, revert_manual_dispatch) h
      | inr (r, e) ↦
          rw (e, revert_manual_dispatch)
            (elim (Bool-cases (is_manual_source r.source)) [
              | inl f ↦
                  rw f (write_and_sync-IsWellFormed db r (reverted_row actor now) (λ q. refl) h)
              | inr f ↦ rw f h
            ])
    ]

blog_replied-IsWellFormed :
    (now : ℕ) (reply : Result Error Reply) (db : Db) (r : Row)
    → IsWellFormed db
    → IsWellFormed (blog_replied now reply (db, r)).0
unfolding blog_replied
blog_replied-IsWellFormed now (ok reply) db r h =
    write_and_sync-IsWellFormed db r (sent_row reply) (sent_row-Keeps reply) h
blog_replied-IsWellFormed now (err e) db r h =
    write-IsWellFormed db r.id (failed_row now (message_of e) (is_retryable e))
      (failed_row-Keeps now (message_of e) (is_retryable e)) h

module _ (client : ℕ → BlogPayload → Result Error Reply) where
  send_blog_order-IsWellFormed :
      (now : ℕ) (db : Db) (m : ℕ) (day : Date) (dry : Bool) (payload : BlogPayload)
      → IsWellFormed db
      → IsWellFormed (send_blog_order client now db m day dry payload).0
  unfolding send_blog_order upsert_blog_row blog_row blog_key
  send_blog_order-IsWellFormed now db m day dry payload h =
      let prepared = upsert_blog_row db m day dry payload in
      let good : IsWellFormed prepared.0 =
        upsert-IsWellFormed db (blog_key m day) (blog_row dry payload)
          (λ n. new_row n m blog_review (month_start day) auto none (blog_key m day)) (λ r. refl)
          (λ n. (refl, (refl, refl))) h in
      sent dry prepared (client prepared.1.id payload) good
    where
      sent :
          (b : Bool) (x : Db × Row) (reply : Result Error Reply)
          → IsWellFormed x.0
          → IsWellFormed (if b then x else blog_replied now reply x).0
      sent true x reply g = g
      sent false (d, r) reply g = blog_replied-IsWellFormed now reply d r g

  send_blog_orders-IsWellFormed :
      (now : ℕ) (day : Date) (dry : Bool) (items : List (Merchant × BlogVerdict)) (db : Db)
      (sent : List Row)
      → IsWellFormed db
      → IsWellFormed (send_blog_orders client now day dry items db sent).0
  unfolding send_blog_orders
  send_blog_orders-IsWellFormed now day dry [] db sent h = h
  send_blog_orders-IsWellFormed now day dry ((m, skip_blog reason e) ∷ items) db sent h =
      send_blog_orders-IsWellFormed now day dry items db sent h
  send_blog_orders-IsWellFormed now day dry ((m, send_blog payload) ∷ items) db sent h =
      send_blog_orders-IsWellFormed now day dry items _ _
        (send_blog_order-IsWellFormed now db m.id day dry payload h)

-- A request keeps the ledger well-formed.
pub step-IsWellFormed : (db : Db) (q : Request) → IsWellFormed db → IsWellFormed (step db q)
unfolding step refresh_statuses dispatch_blog_monthly
step-IsWellFormed db (running_day s p now day only dry budget) h =
    run-IsWellFormed s p now db day only dry budget h
step-IsWellFormed db (retrying s p now i) h = retry_dispatch-IsWellFormed s p now db i h
step-IsWellFormed db (ordering s p now today o) h =
    dispatch_ad_order-IsWellFormed s p now db today o h
step-IsWellFormed db (refreshing p day limit) h =
    refresh_rows-IsWellFormed p (pending_status_rows db.rows day limit) db _ h
step-IsWellFormed db (completing s now m t day c) h =
    complete_manual-IsWellFormed s db now m t day c h
step-IsWellFormed db (reverting m t day actor now) h =
    revert_manual-IsWellFormed db m t day actor now h
step-IsWellFormed db (blogging s client now day only dry hour) h =
    send_blog_orders-IsWellFormed client now day dry
      (build_blog_monthly_plan s db.rows day only hour) db [] h

steps-Kept : (db : Db) (qs : List Request) → IsWellFormed db → IsWellFormed (steps db qs)
unfolding steps
steps-Kept db [] h = h
steps-Kept db (q ∷ qs) h = steps-Kept (step db q) qs (step-IsWellFormed db q h)

-- After any history of requests from an empty ledger, runs of days and months, retries, orders of
-- merchants, refreshed states, manual completions and their reversals, whatever the provider answered,
-- no two rows have the same id or the same idempotency key, every id lies below the next one, and the
-- key of a row is that of its columns.
pub steps-IsWellFormed : (qs : List Request) → IsWellFormed (steps empty qs)
steps-IsWellFormed qs = steps-Kept empty qs (tt, (tt, (tt, tt)))
