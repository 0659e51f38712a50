-- ===== src/Dispatch/Spent.antt =====
-- No step of an order lowers the number of retries of a row (app/services/ad_dispatch.py).
use beautypos.Prelude.{
  ℕ, ◌≤◌, min, ◌≡◌, refl, sym, ap, subst, ◌∙◌, inl, inr, Bool, true, false, ◌&&◌, not, ltb, ◌==◌,
  Bool-cases, Option-cases, if◌then◌else◌, List, [], ◌∷◌, ◌++◌, Option, none, some, Result, ok, err,
  arith,
}
use beautypos.Text.{Text, is_empty, or_empty}
use beautypos.Calendar.{Date}
use beautypos.Dispatch.State.{
  Row, Db, Key, find_row, find_key, update_row, upsert, new_row, max_retry,
}
use beautypos.Dispatch.Config.{Setting}
use beautypos.Dispatch.Preview.{Item}
use beautypos.Dispatch.Provider.{
  Provider, Reply, Reported, as_sent, as_running, as_stopped, as_done, as_failed, Error, Found,
  build_request, message_of, is_retryable,
}
use beautypos.Dispatch.Rows.{
  prepare_row, prepared_row, item_key, sent_row, status_sent, apply_counts, failed_row,
  store_keywords, write_words, non_empty_words, write_and_sync, sync_execution,
}
use beautypos.Dispatch.Execute.{
  dispatch_one, send_unless_dry, after_reply, collect_auto_keywords, asks_for_keywords,
  found_or_same,
}

-- The retries of a row, as far as they count
abbrev pub spent : Row → ℕ
spent r = min max_retry r.retry_count

-- A write never lowers them.
abbrev Grows : (Row → Row) → Type 0
Grows f = (r : Row) → ((f r).id ≡ r.id) × (spent r ≤ spent (f r))

-- The row is there, and has as many retries behind it.
abbrev pub Has : ℕ → ℕ → List Row → Type 0
Has i n rows = (r : Row) × ((find_row i rows ≡ some r) × (n ≤ spent r))

pub head_of : (q r : Row) → some q ≡ some r → q ≡ r
head_of q r e = ap (λ (o : Option Row). elim o [ none ↦ q | some x ↦ x ]) e

update-Has :
    (i n j : ℕ) (f : Row → Row) (rows : List Row)
    → Grows f
    → Has i n rows
    → Has i n (update_row j f rows)
unfolding find_row update_row
update-Has i n j f [] g (r, (e, h)) = cc
update-Has i n j f (q ∷ qs) g (r, (e, h)) = elim (Bool-cases (q.id == j)) [
  | inl x ↦ rw x (elim (Bool-cases (q.id == i)) [
    | inl y ↦
        let here : q ≡ r = head_of q r (rw y at e) in
        let hit : ((f q).id == i) ≡ true = ap (λ k. k == i) (g q).0 ∙ y in
        let behind : n ≤ spent q = subst (λ x. n ≤ spent x) (sym here) h in
        (
          f q,
          (ap (λ b. if b then some (f q) else find_row i qs) hit, omega (arith, behind, (g q).1)),
        )
    | inr y ↦
        let miss : ((f q).id == i) ≡ false = ap (λ k. k == i) (g q).0 ∙ y in
        (r, (ap (λ b. if b then some (f q) else find_row i qs) miss ∙ (rw y at e), h))
  ])
  | inr x ↦ rw x (elim (Bool-cases (q.id == i)) [
    | inl y ↦ (r, (rw y (rw y at e), h))
    | inr y ↦ rw y (update-Has i n j f qs g (r, ((rw y at e), h)))
  ])
]

append-Has : (i n : ℕ) (rows : List Row) (q : Row) → Has i n rows → Has i n (rows ++ (q ∷ []))
unfolding find_row
append-Has i n [] q (r, (e, h)) = cc
append-Has i n (p ∷ ps) q (r, (e, h)) = elim (Bool-cases (p.id == i)) [
  | inl y ↦ rw y (r, ((rw y at e), h))
  | inr y ↦ rw y (append-Has i n ps q (r, ((rw y at e), h)))
]

upsert-Has :
    (db : Db) (i n : ℕ) (k : Key) (f : Row → Row) (make : ℕ → Row)
    → Grows f
    → Has i n db.rows
    → Has i n (upsert k f make db).0.rows
unfolding upsert
upsert-Has db i n k f make g h = elim (Option-cases (find_key k db.rows)) [
  | inl e ↦ rw (e, upsert) (append-Has i n db.rows (f (make db.next_id)) h)
  | inr (r, e) ↦ rw (e, upsert) (update-Has i n r.id f db.rows g h)
]

status_sent-Grows : (o : Option Reported) → Grows (status_sent o)
status_sent-Grows none r = (refl, omega arith)
status_sent-Grows (some as_sent) r = (refl, omega arith)
status_sent-Grows (some as_running) r = (refl, omega arith)
status_sent-Grows (some as_stopped) r = (refl, omega arith)
status_sent-Grows (some as_done) r = (refl, omega arith)
status_sent-Grows (some as_failed) r = (refl, omega arith)

sent_row-Grows : (reply : Reply) → Grows (sent_row reply)
unfolding sent_row apply_counts
sent_row-Grows reply r = status_sent-Grows reply.status r

failed_row-Grows : (now : ℕ) (message : Text) (again : Bool) → Grows (failed_row now message again)
unfolding failed_row
failed_row-Grows now message again r = elim (Bool-cases (again && ltb r.retry_count max_retry)) [
  | inl e ↦ rw e (refl, omega arith)
  | inr e ↦ rw e (refl, omega arith)
]

words-Grows : (found : Found) (ws : List Text) → Grows (write_words found ws)
words-Grows found [] r = (refl, omega arith)
words-Grows found (w ∷ ws) r = (refl, omega arith)

found-Grows : (answer : Result Error Found) → Grows (found_or_same answer)
unfolding store_keywords
found-Grows (ok found) r = words-Grows found (non_empty_words found.keywords) r
found-Grows (err e) r = (refl, omega arith)

replied-Has :
    (p : Provider) (now : ℕ) (item : Item) (reply : Result Error Reply) (db : Db) (r : Row)
    (i n : ℕ)
    → Has i n db.rows
    → Has i n (after_reply p now item reply (db, r)).0.rows
unfolding after_reply collect_auto_keywords write_and_sync sync_execution
replied-Has p now item (err e) db r i n h =
    update-Has i n r.id (failed_row now (message_of e) (is_retryable e)) db.rows
      (failed_row-Grows now (message_of e) (is_retryable e)) h
replied-Has p now item (ok reply) db r i n h =
    let q = sent_row reply r in
    let answer = p.get_ad_keywords (or_empty q.external_order_id) in
    let first = update-Has i n r.id (sent_row reply) db.rows (sent_row-Grows reply) h in
    elim (Bool-cases
      (asks_for_keywords item.mission && not (is_empty (or_empty q.external_order_id)))) [
        | inl e ↦ rw e (
            update-Has i n q.id (found_or_same answer) (update_row r.id (sent_row reply) db.rows)
              (found-Grows answer) first)
        | inr e ↦ rw e first
      ]

prepare_row-Has :
    (db : Db) (item : Item) (day : Date) (i n : ℕ)
    → Has i n db.rows
    → Has i n (prepare_row db item day false).0.rows
unfolding prepare_row prepared_row
prepare_row-Has db item day i n h =
    upsert-Has db i n (item_key item day) (prepared_row false item)
      (λ k.
        new_row k item.merchant_id item.ad_type day item.source item.ad_order_id
          (item_key item day))
      (λ r. (refl, omega arith)) h

pub dispatch_one-Has :
    (s : Setting) (p : Provider) (now : ℕ) (db : Db) (item : Item) (day : Date) (i n : ℕ)
    → Has i n db.rows
    → Has i n (dispatch_one s p now db item day false).0.rows
unfolding dispatch_one send_unless_dry
dispatch_one-Has s p now db item day i n h = elim (Option-cases (build_request s item day)) [
  | inl e ↦ rw (e, dispatch_one) h
  | inr (payload, e) ↦
      let prepared = prepare_row db item day false in
      rw (e, dispatch_one)
        (replied-Has p now item (p.create_order prepared.1.id payload) prepared.0 prepared.1 i n
          (prepare_row-Has db item day i n h))
]
