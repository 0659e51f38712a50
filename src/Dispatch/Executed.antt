-- ===== src/Dispatch/Executed.antt =====
-- When a row counts as executed for a merchant and a day (app/services/ad_dispatch.py).
use beautypos.Prelude.{
  ℕ, zero, suc, ◌≡◌, refl, ap, ◌∙◌, inl, inr, Bool, true, false, ◌&&◌, ◌==◌, ==_refl, Bool-cases,
  Option-cases, List, [], ◌∷◌, Option, none, some, All, arith, Result, ok, err,
}
use beautypos.Calendar.{Date}
use beautypos.Plan.Rows.{AdType, place_traffic, number, get_current_plan, effective_monthly_target}
use beautypos.Plan.Summary.{date_eq}
use beautypos.Plan.Targets.{daily_target_for_date}
use beautypos.Dispatch.State.{
  Row, Db, Source, auto, order, manual, build_idempotency_key, same_base, same_key, auto_key,
  new_row, counts_as_executed, is_executed,
}
use beautypos.Dispatch.Config.{Setting, Merchant}
use beautypos.Dispatch.Preview.{
  Item, check_merchant, entries_of, merchant_items, is_auto, is_for_day, already_executed,
  was_executed,
}
use beautypos.Dispatch.Gate.{to_dispatch}
use beautypos.Dispatch.Provider.{
  Reply, Reported, as_sent, as_running, as_stopped, as_done, as_failed, Error, Found,
}
use beautypos.Dispatch.Rows.{
  non_empty_words, prepare_row, prepared_row, item_key, sent_row, status_sent, apply_counts,
  store_keywords, write_words,
}
use beautypos.Dispatch.Execute.{found_or_same}
use beautypos.Dispatch.Ledger.{IsWellFormed, IsLabelled, Identity, identity}
use beautypos.Dispatch.Preserved.{sent_row-Keeps}
use beautypos.Text.{Text}
use beautypos.Dispatch.Lookup.{find_key-All, upsert-From}

abbrev pub has_number : Source → Option ℕ → Bool
has_number order none = false
has_number order (some zero) = false
has_number _ _ = true

-- A merchant for which an automatic order of the day counts as executed is not planned for again,
-- whatever the plans, settings and prices are by then.
pub executed-silent :
    (s : Setting) (rows : List Row) (day : Date) (m : Merchant)
    → already_executed rows m.id place_traffic day ≡ true
    → to_dispatch (merchant_items s rows day m) ≡ []
unfolding merchant_items check_merchant entries_of to_dispatch
executed-silent s rows day m h = elim (Option-cases (get_current_plan s.assignments m.id)) [
  | inl e ↦ rw (e, check_merchant) refl
  | inr (plan, e) ↦
      let target =
        daily_target_for_date (effective_monthly_target s.overrides m.id place_traffic (some plan))
          day in
      rw (e, check_merchant)
        (elim (Bool-cases (target == 0)) [ inl z ↦ rw z refl | inr z ↦ rw (z, h) refl ])
]

-- An order of a merchant has a number.
abbrev pub NamesOrder : Row → Type 0
NamesOrder r = has_number r.source r.ad_order_id ≡ true

same_base-auto :
    (source : Source) (m m1 : ℕ) (t t1 : AdType) (d d1 : Date) (o : Option ℕ)
    → has_number source o ≡ true
    → same_base (build_idempotency_key source m t d o) (auto_key m1 t1 d1) ≡ true
    → (is_auto source ≡ true) × ((m == m1 && (number t == number t1 && date_eq d d1)) ≡ true)
unfolding build_idempotency_key
same_base-auto auto m m1 t t1 d d1 o n h =
    (refl, grouped (m == m1) (number t == number t1) (date_eq d d1) h)
  where
    grouped : (a b c : Bool) → (a && b && c) ≡ true → (a && (b && c)) ≡ true
    grouped a b c h = ground arith
same_base-auto manual m m1 t t1 d d1 o n h = cc
same_base-auto order m m1 t t1 d d1 none n h = cc
same_base-auto order m m1 t t1 d d1 (some zero) n h = cc
same_base-auto order m m1 t t1 d d1 (some (suc i)) n h = cc

-- The row is the automatic one of the entry's merchant, type and day, and not of a dry run.
abbrev pub IsFor : Item → Date → Row → Type 0
IsFor i day r =
    (is_auto r.source ≡ true)
    × ((is_for_day i.merchant_id i.ad_type day r ≡ true) × (r.is_dry_run ≡ false))

both_true : (a b : Bool) → (a && b) ≡ true → a ≡ true
both_true a b h = ground arith

is_for_day_refl :
    (m : ℕ) (t : AdType) (d : Date) → (m == m && (number t == number t && date_eq d d)) ≡ true
is_for_day_refl m t d =
    ground (arith, ==_refl m, ==_refl (number t), ==_refl d.year, ==_refl d.month, ==_refl d.day)

pub prepare_row-IsFor :
    (db : Db) (i : Item) (day : Date)
    → IsWellFormed db
    → All NamesOrder db.rows
    → i.source ≡ auto
    → IsFor i day (prepare_row db i day false).1
unfolding prepare_row prepared_row item_key same_key build_idempotency_key
prepare_row-IsFor db i day h names source =
    upsert-From (IsFor i day) db (item_key i day) (prepared_row false i)
      (λ n. new_row n i.merchant_id i.ad_type day i.source i.ad_order_id (item_key i day))
      (λ r e.
        let (same, (label, name)) =
          find_key-All (item_key i day) (λ q. IsLabelled q × NamesOrder q) db.rows r e
            (zipped db.rows h.1.1.1 names) in
        let base : same_base r.key.base (item_key i day).base ≡ true = both_true _ _ same in
        let here = rw (label, source) at base in
        let (automatic, day_of) =
          same_base-auto r.source r.merchant_id i.merchant_id r.ad_type i.ad_type r.execution_date
            day r.ad_order_id name here in
        (automatic, (day_of, refl)))
      (rw source refl, (is_for_day_refl i.merchant_id i.ad_type day, refl))
  where
    zipped :
        (rs : List Row)
        → All IsLabelled rs
        → All NamesOrder rs
        → All (λ q. IsLabelled q × NamesOrder q) rs
    zipped [] a b = tt
    zipped (q ∷ qs) a b = ((a.0, b.0), zipped qs a.1 b.1)

abbrev pub is_refused : Option Reported → Bool
is_refused (some as_failed) = true
is_refused _ = false

status_sent-Executed :
    (o : Option Reported) (r : Row)
    → is_refused o ≡ false
    → (is_executed (status_sent o r).status ≡ true) × ((status_sent o r).is_dry_run ≡ r.is_dry_run)
unfolding is_executed
status_sent-Executed none r h = (refl, refl)
status_sent-Executed (some as_sent) r h = (refl, refl)
status_sent-Executed (some as_running) r h = (refl, refl)
status_sent-Executed (some as_stopped) r h = (refl, refl)
status_sent-Executed (some as_done) r h = (refl, refl)
status_sent-Executed (some as_failed) r h = cc

-- What the test of an executed row looks at
was_executed-parts :
    (m : ℕ) (t : AdType) (day : Date) (q r : Row)
    → identity q ≡ identity r
    → is_auto r.source ≡ true
    → is_for_day m t day r ≡ true
    → is_executed q.status ≡ true
    → q.is_dry_run ≡ false
    → was_executed m t day q ≡ true
unfolding counts_as_executed
was_executed-parts m t day q r same a d e dry =
    rw
      (
        ap (λ (i : Identity). is_auto i.source) same ∙ a,
        ap
              (λ (i : Identity).
                i.merchant_id == m
                && (number i.ad_type == number t && date_eq i.execution_date day))
              same
            ∙ d,
        e,
        dry,
      )
      refl

pub sent_row-executed :
    (i : Item) (day : Date) (reply : Reply) (r : Row)
    → is_refused reply.status ≡ false
    → IsFor i day r
    → was_executed i.merchant_id i.ad_type day (sent_row reply r) ≡ true
unfolding sent_row apply_counts
sent_row-executed i day reply r ok_ h =
    let (executed, dry) = status_sent-Executed reply.status r ok_ in
    was_executed-parts i.merchant_id i.ad_type day (sent_row reply r) r (sent_row-Keeps reply r) h.0
      h.1.0 executed (dry ∙ h.1.1)

words-same :
    (m : ℕ) (t : AdType) (day : Date) (found : Found) (ws : List Text) (r : Row)
    → was_executed m t day (write_words found ws r) ≡ was_executed m t day r
unfolding counts_as_executed
words-same m t day found [] r = refl
words-same m t day found (w ∷ ws) r = refl

pub found-same :
    (m : ℕ) (t : AdType) (day : Date) (answer : Result Error Found) (r : Row)
    → was_executed m t day (found_or_same answer r) ≡ was_executed m t day r
unfolding store_keywords
found-same m t day (ok found) r = words-same m t day found (non_empty_words found.keywords) r
found-same m t day (err e) r = refl
