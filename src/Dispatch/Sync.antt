-- ===== src/Dispatch/Sync.antt =====
-- The progress that the summary reads is recomputed from the ledger (`sync_execution` of
-- app/services/ad_dispatch.py, read by app/services/plan_service.py).
use beautypos.Prelude.{
  ℕ, ◌≤◌, ◌≡◌, refl, ap, ◌∙◌, inl, inr, Bool, true, false, not, ◌+◌, map, sum, ◌&&◌, ◌==◌, ==_refl,
  ==_iff, Bool-cases, List, [], ◌∷◌, where_, length, arith,
}
use beautypos.Prelude.Int.{ℤ, pos, +ℤ_zero_left, +ℤ_comm, int_laws}
use beautypos.Calendar.{Date}
use beautypos.Plan.Rows.{AdType, number}
use beautypos.Plan.Summary.{Execution, executed, today_executed, date_eq}
use beautypos.Dispatch.State.{
  Db, Row, Status, pending, dry_run, sent, running, done, stopped, failed, skipped, manual_queued,
  manual_done, is_executed, counts_as_executed,
}
use beautypos.Dispatch.Rows.{
  is_execution, is_counted, executed_total, set_execution, sync_execution,
}

-- The day, the merchant and the type have one execution at most.
abbrev pub IsSingle : ℕ → AdType → Date → List Execution → Type 0
IsSingle m t day es = length (where_ (is_execution m t day) es) ≤ 1

is_execution_refl :
    (m : ℕ) (t : AdType) (d : Date) (n : ℤ)
    → is_execution m t d
        (record { merchant_id = m; ad_type = t; executed_count = n; execution_date = d })
      ≡ true
is_execution_refl m t d n =
    ground (arith, ==_refl m, ==_refl (number t), ==_refl d.year, ==_refl d.month, ==_refl d.day)

-- The tests of the engine and of the summary
regroup :
    (m : ℕ) (t : AdType) (d : Date) (e : Execution)
    → (date_eq e.execution_date d && e.merchant_id == m && number e.ad_type == number t)
      ≡ is_execution m t d e
regroup m t d e =
    commuted (e.merchant_id == m) (number e.ad_type == number t) (date_eq e.execution_date d)
  where
    commuted : (a b c : Bool) → (c && a && b) ≡ (a && (b && c))
    commuted a b c = ground arith

none-read :
    (m : ℕ) (t : AdType) (d : Date) (es : List Execution)
    → length (where_ (is_execution m t d) es) ≡ 0
    → today_executed d m t es ≡ pos 0
unfolding today_executed executed
none-read m t d [] h = refl
none-read m t d (e ∷ es) h = elim (Bool-cases (is_execution m t d e)) [
  | inl x ↦ absurd (omega (arith, (rw x at h)))
  | inr x ↦ rw (regroup m t d e, x) (none-read m t d es (rw x at h))
]

single_read :
    (m : ℕ) (t : AdType) (d : Date) (n : ℕ)
    → today_executed d m t
        ((record { merchant_id = m; ad_type = t; executed_count = pos n; execution_date = d }) ∷ [])
      ≡ pos n
unfolding today_executed executed
single_read m t d n =
    let e : Execution = record {
      merchant_id = m;
      ad_type = t;
      executed_count = pos n;
      execution_date = d;
    } in
    let here = regroup m t d e ∙ is_execution_refl m t d (pos n) in
    rw here (+ℤ_comm (pos n) (pos 0) ∙ +ℤ_zero_left (pos n))

set-read :
    (m : ℕ) (t : AdType) (d : Date) (total : ℕ) (es : List Execution)
    → IsSingle m t d es
    → today_executed d m t (set_execution m t d total es) ≡ pos total
unfolding today_executed executed set_execution
set-read m t d total [] h = elim (Bool-cases (total == 0)) [
  | inl x ↦ rw x (ap pos (omega (arith, (==_iff total 0).0 x)))
  | inr x ↦ rw x (single_read m t d total)
]
set-read m t d total (e ∷ es) h = elim (Bool-cases (is_execution m t d e)) [
  | inl x ↦
      let none_after : length (where_ (is_execution m t d) es) ≡ 0 = omega (arith, (rw x at h)) in
      rw
        (
          x,
          regroup m t d (record e { executed_count = pos total }),
          x,
          none-read m t d es none_after,
        )
        (omega int_laws)
  | inr x ↦ rw (x, regroup m t d e, x) (set-read m t d total es (rw x at h))
]

set-idempotent :
    (m : ℕ) (t : AdType) (d : Date) (total : ℕ) (es : List Execution)
    → set_execution m t d total (set_execution m t d total es) ≡ set_execution m t d total es
unfolding set_execution
set-idempotent m t d total [] = elim (Bool-cases (total == 0)) [
  | inl x ↦ rw (x, x) refl
  | inr x ↦ rw (x, is_execution_refl m t d (pos total)) refl
]
set-idempotent m t d total (e ∷ es) = elim (Bool-cases (is_execution m t d e)) [
  | inl x ↦ rw (x, x) refl
  | inr x ↦ rw (x, x) (ap (λ rest. e ∷ rest) (set-idempotent m t d total es))
]

abbrev was_sent : Status → Bool
was_sent pending = false
was_sent dry_run = false
was_sent failed = false
was_sent skipped = false
was_sent manual_queued = false
was_sent _ = true

-- A row of the merchant, type and day whose order is sent, running, stopped or done, by hand or by
-- the provider, and no dry run
abbrev pub is_asked : ℕ → AdType → Date → Row → Bool
is_asked m t d r =
    not r.is_dry_run
    && (was_sent r.status
        && (date_eq r.execution_date d && (number r.ad_type == number t && r.merchant_id == m)))

-- What those rows ask for together
abbrev pub asked : ℕ → AdType → Date → List Row → ℕ
asked m t d rows = sum (map (λ (r : Row). r.requested_count) (where_ (is_asked m t d) rows))

was_sent-is_executed : (s : Status) → is_executed s ≡ was_sent s
unfolding is_executed
was_sent-is_executed pending = refl
was_sent-is_executed dry_run = refl
was_sent-is_executed sent = refl
was_sent-is_executed running = refl
was_sent-is_executed done = refl
was_sent-is_executed stopped = refl
was_sent-is_executed failed = refl
was_sent-is_executed skipped = refl
was_sent-is_executed manual_queued = refl
was_sent-is_executed manual_done = refl

same_rows : (m : ℕ) (t : AdType) (d : Date) (r : Row) → is_counted m t d r ≡ is_asked m t d r
unfolding counts_as_executed
same_rows m t d r = rw (was_sent-is_executed r.status) (
    commuted (r.merchant_id == m) (number r.ad_type == number t) (date_eq r.execution_date d)
      (was_sent r.status) r.is_dry_run)
  where
    commuted :
        (a b c s dry : Bool)
        → ((a && (b && c)) && (s && not dry)) ≡ (not dry && (s && (c && (b && a))))
    commuted a b c s dry = ground arith

executed_total-asked :
    (m : ℕ) (t : AdType) (d : Date) (rows : List Row) → executed_total m t d rows ≡ asked m t d rows
unfolding executed_total
executed_total-asked m t d [] = refl
executed_total-asked m t d (r ∷ rs) = elim (Bool-cases (is_asked m t d r)) [
  | inl e ↦
      rw ((same_rows m t d r ∙ e), e)
        (ap (λ n. r.requested_count + n) (executed_total-asked m t d rs))
  | inr e ↦ rw ((same_rows m t d r ∙ e), e) (omega (arith, executed_total-asked m t d rs))
]

-- If a merchant, type and day have one execution at most, then after a recomputation the progress that
-- the summary reads for them is the sum of the numbers asked for by the rows of the ledger for them
-- that are sent, running, stopped or done, by hand or by the provider, and no dry runs, and a second recomputation changes nothing.
pub sync_execution-today_executed :
    (db : Db) (m : ℕ) (t : AdType) (d : Date)
    → IsSingle m t d db.executions
    → (today_executed d m t (sync_execution db m t d).executions ≡ pos (asked m t d db.rows))
      × (sync_execution (sync_execution db m t d) m t d ≡ sync_execution db m t d)
unfolding sync_execution
sync_execution-today_executed db m t d h = (
  set-read m t d (executed_total m t d db.rows) db.executions h
      ∙ ap pos (executed_total-asked m t d db.rows),
  ap (λ es. record db { executions = es })
      (set-idempotent m t d (executed_total m t d db.rows) db.executions),
)
