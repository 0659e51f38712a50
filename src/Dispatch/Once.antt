-- ===== src/Dispatch/Once.antt =====
-- A merchant that is served is not served again by the next plan of the day (app/services/ad_dispatch.py).
use beautypos.Prelude.{
  ℕ, ◌≡◌, refl, sym, subst, ◌∙◌, inl, inr, true, false, ◌&&◌, not, Bool-cases, [], some, All, ok,
}
use beautypos.Calendar.{Date}
use beautypos.Plan.Rows.{place_traffic}
use beautypos.Dispatch.State.{Row, Db, auto, new_row, find_row, update_row}
use beautypos.Dispatch.Config.{Setting, Merchant}
use beautypos.Dispatch.Preview.{Item, merchant_items, already_executed, was_executed}
use beautypos.Dispatch.Gate.{to_dispatch}
use beautypos.Dispatch.Provider.{Provider, Payload, Reply, build_request}
use beautypos.Dispatch.Rows.{
  prepare_row, prepared_row, item_key, sent_row, write_and_sync, sync_execution,
}
use beautypos.Dispatch.Execute.{
  dispatch_one, send_unless_dry, after_reply, collect_auto_keywords, asks_for_keywords,
  found_or_same,
}
use beautypos.Dispatch.Ledger.{IsWellFormed, Keeps-id}
use beautypos.Dispatch.Preserved.{sent_row-Keeps}
use beautypos.Text.{is_empty, or_empty}
use beautypos.Dispatch.Lookup.{any-found, any-update_found, find-update_row, find-upsert}
use beautypos.Dispatch.Executed.{
  executed-silent, NamesOrder, IsFor, prepare_row-IsFor, is_refused, sent_row-executed, found-same,
}

collected-executed :
    (p : Provider) (i : Item) (day : Date) (db : Db) (r : Row)
    → find_row r.id db.rows ≡ some r
    → was_executed i.merchant_id i.ad_type day r ≡ true
    → already_executed (collect_auto_keywords p i (db, r)).0.rows i.merchant_id i.ad_type day ≡ true
unfolding collect_auto_keywords already_executed
collected-executed p i day db r found h =
    let after = found_or_same (p.get_ad_keywords (or_empty r.external_order_id)) in
    elim (Bool-cases
      (asks_for_keywords i.mission && not (is_empty (or_empty r.external_order_id)))) [
        | inl e ↦ rw e (
            any-update_found (was_executed i.merchant_id i.ad_type day) r.id after db.rows r found (
              found-same i.merchant_id i.ad_type day
                (p.get_ad_keywords (or_empty r.external_order_id)) r
              ∙ h))
        | inr e ↦ rw e (any-found (was_executed i.merchant_id i.ad_type day) r.id db.rows r found h)
      ]

prepare_row-find :
    (db : Db) (i : Item) (day : Date)
    → IsWellFormed db
    → find_row (prepare_row db i day false).1.id (prepare_row db i day false).0.rows
      ≡ some (prepare_row db i day false).1
unfolding prepare_row prepared_row
prepare_row-find db i day h =
    find-upsert db (item_key i day) (prepared_row false i)
      (λ n. new_row n i.merchant_id i.ad_type day i.source i.ad_order_id (item_key i day))
      (λ r. refl) (λ n. refl) h

replied-executed :
    (p : Provider) (now : ℕ) (i : Item) (day : Date) (reply : Reply) (db : Db) (r : Row)
    → is_refused reply.status ≡ false
    → find_row r.id db.rows ≡ some r
    → IsFor i day r
    → already_executed (after_reply p now i (ok reply) (db, r)).0.rows i.merchant_id i.ad_type day
      ≡ true
unfolding after_reply write_and_sync sync_execution
replied-executed p now i day reply db r accepted found h =
    let q = sent_row reply r in
    let id : q.id ≡ r.id = Keeps-id (sent_row reply) r (sent_row-Keeps reply) in
    collected-executed p i day (write_and_sync db r (sent_row reply)) q
      (subst (λ n. find_row n (update_row r.id (sent_row reply) db.rows) ≡ some q) (sym id)
        (find-update_row r.id (sent_row reply) db.rows r (sent_row-Keeps reply) found))
      (sent_row-executed i day reply r accepted h)

-- Once the provider has accepted an automatic order of a day, an order that is not a dry run, in a
-- well-formed ledger whose orders of merchants have numbers, the plan of the day made from the ledger
-- that the order leaves sends nothing for the merchant, whatever the plans, settings and prices are by
-- then. Of plans made after other runs have changed that ledger nothing is said.
pub accepted-silent :
    (s : Setting) (p : Provider) (now : ℕ) (db : Db) (i : Item) (day : Date) (payload : Payload)
    (reply : Reply) (later : Setting) (m : Merchant)
    → IsWellFormed db
    → All NamesOrder db.rows
    → i.source ≡ auto
    → i.ad_type ≡ place_traffic
    → m.id ≡ i.merchant_id
    → build_request s i day ≡ some payload
    → p.create_order (prepare_row db i day false).1.id payload ≡ ok reply
    → is_refused reply.status ≡ false
    → to_dispatch (merchant_items later (dispatch_one s p now db i day false).0.rows day m) ≡ []
unfolding dispatch_one send_unless_dry
accepted-silent s p now db i day payload reply later m h names source type same request answer
      accepted =
    let prepared = prepare_row db i day false in
    executed-silent later (dispatch_one s p now db i day false).0.rows day m (
      rw (sym type, same, request, dispatch_one, answer)
        (replied-executed p now i day reply prepared.0 prepared.1 accepted
          (prepare_row-find db i day h) (prepare_row-IsFor db i day h names source)))
