-- ===== src/Dispatch/Preserved.antt =====
-- Every operation of the engine keeps the ledger well-formed (app/services/ad_dispatch.py).
use beautypos.Prelude.{
  ℕ, refl, inl, inr, Bool, true, false, Bool-cases, Option-cases, List, [], ◌∷◌, Option, none, some,
  Result, ok, err, not, ◌&&◌, ltb,
}
use beautypos.Text.{Text, is_empty, or_empty}
use beautypos.Calendar.{Date}
use beautypos.Dispatch.State.{Row, Db, SkipReason, auto, max_retry, new_row}
use beautypos.Dispatch.Config.{Setting}
use beautypos.Dispatch.Preview.{Item, Verdict, dispatch, skip}
use beautypos.Dispatch.Gate.{Budget, DayPlan, build_plan}
use beautypos.Dispatch.Provider.{
  Provider, Reply, Reported, as_sent, as_running, as_stopped, as_done, as_failed, Found, Error,
  Payload, message_of, is_retryable, build_request,
}
use beautypos.Dispatch.Rows.{
  skipped_row, record_skip, is_ordinary, prepared_row, prepare_row, sent_row, failed_row,
  store_keywords, write_words, status_sent, write_and_sync, sync_execution, apply_counts, item_key,
  skip_key, non_empty_words,
}
use beautypos.Dispatch.Execute.{
  dispatch_one, after_sent, run_item, run_items, run, nothing_yet, Progress, collect_auto_keywords,
  found_or_same, after_reply, send_unless_dry, finished, asks_for_keywords, add_sent, add_skipped,
  or_setting,
}
use beautypos.Dispatch.Ledger.{IsWellFormed, Keeps, write-IsWellFormed, upsert-IsWellFormed}

status_sent-Keeps : (o : Option Reported) → Keeps (status_sent o)
status_sent-Keeps none r = refl
status_sent-Keeps (some as_sent) r = refl
status_sent-Keeps (some as_running) r = refl
status_sent-Keeps (some as_stopped) r = refl
status_sent-Keeps (some as_done) r = refl
status_sent-Keeps (some as_failed) r = refl

pub sent_row-Keeps : (reply : Reply) → Keeps (sent_row reply)
unfolding sent_row apply_counts
sent_row-Keeps reply r = status_sent-Keeps reply.status r

pub failed_row-Keeps :
    (now : ℕ) (message : Text) (retry : Bool) → Keeps (failed_row now message retry)
unfolding failed_row
failed_row-Keeps now message retry r = elim (Bool-cases (retry && ltb r.retry_count max_retry)) [
  | inl e ↦ rw e refl
  | inr e ↦ rw e refl
]

write_words-Keeps : (found : Found) (ws : List Text) → Keeps (write_words found ws)
write_words-Keeps found [] r = refl
write_words-Keeps found (w ∷ ws) r = refl

found-Keeps : (answer : Result Error Found) → Keeps (found_or_same answer)
unfolding store_keywords
found-Keeps (ok found) r = write_words-Keeps found (non_empty_words found.keywords) r
found-Keeps (err e) r = refl

collect-IsWellFormed :
    (p : Provider) (i : Item) (db : Db) (r : Row)
    → IsWellFormed db
    → IsWellFormed (collect_auto_keywords p i (db, r)).0
unfolding collect_auto_keywords
collect-IsWellFormed p i db r h =
    elim (Bool-cases
      (asks_for_keywords i.mission && not (is_empty (or_empty r.external_order_id)))) [
        | inl e ↦ rw e (
            write-IsWellFormed db r.id
              (found_or_same (p.get_ad_keywords (or_empty r.external_order_id)))
              (found-Keeps (p.get_ad_keywords (or_empty r.external_order_id))) h)
        | inr e ↦ rw e h
      ]

prepared-Keeps : (i : Item) (dry : Bool) → Keeps (prepared_row dry i)
unfolding prepared_row
prepared-Keeps i dry r = refl

prepare_row-IsWellFormed :
    (db : Db) (i : Item) (day : Date) (dry : Bool)
    → IsWellFormed db
    → IsWellFormed (prepare_row db i day dry).0
unfolding prepare_row item_key
prepare_row-IsWellFormed db i day dry h =
    upsert-IsWellFormed db (item_key i day) (prepared_row dry i)
      (λ n. new_row n i.merchant_id i.ad_type day i.source i.ad_order_id (item_key i day))
      (prepared-Keeps i dry) (λ n. (refl, (refl, refl))) h

pub write_and_sync-IsWellFormed :
    (db : Db) (r : Row) (f : Row → Row)
    → Keeps f
    → IsWellFormed db
    → IsWellFormed (write_and_sync db r f)
unfolding write_and_sync sync_execution
write_and_sync-IsWellFormed db r f k h = write-IsWellFormed db r.id f k h

after_reply-IsWellFormed :
    (p : Provider) (now : ℕ) (i : Item) (reply : Result Error Reply) (db : Db) (r : Row)
    → IsWellFormed db
    → IsWellFormed (after_reply p now i reply (db, r)).0
unfolding after_reply
after_reply-IsWellFormed p now i (ok reply) db r h =
    collect-IsWellFormed p i (write_and_sync db r (sent_row reply)) (sent_row reply r)
      (write_and_sync-IsWellFormed db r (sent_row reply) (sent_row-Keeps reply) h)
after_reply-IsWellFormed p now i (err e) db r h =
    write-IsWellFormed db r.id (failed_row now (message_of e) (is_retryable e))
      (failed_row-Keeps now (message_of e) (is_retryable e)) h

unless_dry-IsWellFormed :
    (p : Provider) (now : ℕ) (i : Item) (dry : Bool) (payload : Payload) (db : Db) (r : Row)
    → IsWellFormed db
    → IsWellFormed (send_unless_dry p now i dry payload (db, r)).0
unfolding send_unless_dry
unless_dry-IsWellFormed p now i true payload db r h = h
unless_dry-IsWellFormed p now i false payload db r h =
    after_reply-IsWellFormed p now i (p.create_order r.id payload) db r h

-- Sending an order, dry or not, whatever the provider answers
pub dispatch_one-IsWellFormed :
    (s : Setting) (p : Provider) (now : ℕ) (db : Db) (i : Item) (day : Date) (dry : Bool)
    → IsWellFormed db
    → IsWellFormed (dispatch_one s p now db i day dry).0
unfolding dispatch_one
dispatch_one-IsWellFormed s p now db i day dry h = elim (Option-cases (build_request s i day)) [
  | inl e ↦ rw (e, dispatch_one) h
  | inr (payload, e) ↦
      let prepared = prepare_row db i day dry in
      rw (e, dispatch_one)
        (unless_dry-IsWellFormed p now i dry payload prepared.0 prepared.1
          (prepare_row-IsWellFormed db i day dry h))
]

skipped-Keeps : (reason : SkipReason) (i : Item) → Keeps (skipped_row reason i)
unfolding skipped_row
skipped-Keeps reason i r = refl

record_skip-IsWellFormed :
    (db : Db) (reason : SkipReason) (i : Item) (day : Date)
    → IsWellFormed db
    → IsWellFormed (record_skip db reason i day)
unfolding record_skip skip_key
record_skip-IsWellFormed db reason i day h = elim (Bool-cases (is_ordinary reason)) [
  | inl e ↦ rw e h
  | inr e ↦ rw e (
      upsert-IsWellFormed db (skip_key i day) (skipped_row reason i)
        (λ n. new_row n i.merchant_id i.ad_type day auto none (skip_key i day))
        (skipped-Keeps reason i) (λ n. (refl, (refl, refl))) h)
]

-- What runs the other entries keeps the ledger well-formed.
abbrev Kept : (Db → Progress → Db × Option Progress) → Type 0
Kept rest = (db : Db) (a : Progress) → IsWellFormed db → IsWellFormed (rest db a).0

after_sent-IsWellFormed :
    (rest : Db → Progress → Db × Option Progress) (i : Item) (a : Progress) (x : Db × Option Row)
    → Kept rest
    → IsWellFormed x.0
    → IsWellFormed (after_sent rest i a x).0
after_sent-IsWellFormed rest i a (db, none) k g = g
after_sent-IsWellFormed rest i a (db, some r) k g = k db (add_sent i r a) g

module _ (s : Setting) (p : Provider) (now : ℕ) (day : Date) (dry : Bool) where
  run_item-IsWellFormed :
      (rest : Db → Progress → Db × Option Progress) (i : Item) (db : Db) (a : Progress)
      (v : Verdict)
      → Kept rest
      → IsWellFormed db
      → IsWellFormed (run_item s p now day dry rest i db a v).0
  unfolding run_item
  run_item-IsWellFormed rest i db a (skip reason) k h =
      k (record_skip db reason i day) (add_skipped i a) (record_skip-IsWellFormed db reason i day h)
  run_item-IsWellFormed rest i db a dispatch k h =
      after_sent-IsWellFormed rest i a (dispatch_one s p now db i day dry) k
        (dispatch_one-IsWellFormed s p now db i day dry h)

  run_items-IsWellFormed : (items : List Item) → Kept (run_items s p now day dry items)
  unfolding run_items
  run_items-IsWellFormed [] db a h = h
  run_items-IsWellFormed (i ∷ items) db a h =
      run_item-IsWellFormed (run_items s p now day dry items) i db a i.verdict
        (run_items-IsWellFormed items) h

finished-IsWellFormed :
    (dry : Bool) (plan : DayPlan) (x : Db × Option Progress)
    → IsWellFormed x.0
    → IsWellFormed (finished dry plan x).0
unfolding finished
finished-IsWellFormed dry plan (db, none) g = g
finished-IsWellFormed dry plan (db, some a) g = g

pub run-IsWellFormed :
    (s : Setting) (p : Provider) (now : ℕ) (db : Db) (day : Date) (only : Option ℕ)
    (dry_run : Option Bool) (budget : Budget)
    → IsWellFormed db
    → IsWellFormed (run s p now db day only dry_run budget).0
unfolding run
run-IsWellFormed s p now db day only dry_run budget h =
    let dry = or_setting dry_run s.dry_run_enabled in
    let plan = build_plan s db.rows day only (some (record budget { enforce = not dry })) in
    finished-IsWellFormed dry plan (run_items s p now day dry plan.items db nothing_yet)
      (run_items-IsWellFormed s p now day dry plan.items db nothing_yet h)
