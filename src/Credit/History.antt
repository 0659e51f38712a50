-- ===== src/Credit/History.antt =====
-- Any history of requests to the credit service (app/services/ad_credit.py, and the look-up
-- `_refund_or_404` of app/api/admin/credit_routes.py): the balances stay consistent with the ledger,
-- and a merchant has one pending refund at most.
use beautypos.Prelude.{
  ℕ, ◌+◌, ◌≤◌, ◌≡◌, refl, ap, inl, inr, false, Bool-cases, ◌==◌, if◌then◌else◌, List, [], ◌∷◌,
  Option, none, some, any, Option-cases, ==_iff, Result, ok, err, arith,
}
use beautypos.Prelude.Int.{ℤ, negate}
use beautypos.Text.{Text}
use beautypos.Credit.State.{
  Db, Entry, Refund, rejected, Memo, EntryType, Dialect, find_credit, balance_of, ledger_total,
  sum_for,
}
use beautypos.Credit.Operations.{Error, charge, use_credit, reverse_use, adjust}
use beautypos.Credit.Refunds.{
  is_pending, pending_for, write_refund, request_refund, approve_refund, reject_refund, processed,
  rejected_processed,
}
use beautypos.Credit.Balance.{IsConsistent, Outcome, Applied-IsConsistent, moved-IsConsistent}
use beautypos.Credit.Outcomes.{
  charge-Outcome, Uses, use_credit-Uses, reverse_use-Outcome, adjust-Outcome,
}
use beautypos.Credit.RefundOutcomes.{
  Requests, request_refund-Requests, Approves, approve_refund-payable,
}

unfoldable pub find_refund : ℕ → List Refund → Option Refund
find_refund i [] = none
find_refund i (r ∷ rs) = if r.id == i then some r else find_refund i rs

-- The requests, with amounts of whole hundredths
pub data Request : Type 0 where
  charging : ℕ → ℤ → Option Memo → Option ℕ → Request
  using_credit : ℕ → ℤ → Option ℕ → Option Memo → Option ℕ → Request
  reversing : ℕ → ℤ → Option ℕ → Option Memo → Option ℕ → Request
  adjusting : ℕ → ℤ → Option Text → Option ℕ → Request
  requesting : ℕ → Option Text → ℕ → Request
  approving : ℕ → ℕ → ℕ → Option Text → Request
  rejecting : ℕ → ℕ → ℕ → Option Text → Request

-- A request that raises is rolled back.
abbrev pub after {ℓ} : {A : Type ℓ} → Db → Result Error (Db × A) → Db
after db (ok r) = r.0
after db (err e) = db

approve_found : Db → Option Refund → ℕ → ℕ → Option Text → Db
approve_found db none admin now memo = db
approve_found db (some r) admin now memo = after db (approve_refund db r admin now memo)

reject_found : Db → Option Refund → ℕ → ℕ → Option Text → Db
reject_found db none admin now memo = db
reject_found db (some r) admin now memo = after db (reject_refund db r admin now memo)

unfoldable pub step : Db → Request → Db
unfolding approve_found reject_found
step db (charging m value memo actor) = after db (charge db m value memo actor)
step db (using_credit m value order memo actor) = after db (use_credit db m value order memo actor)
step db (reversing m value order memo actor) = after db (reverse_use db m value order memo actor)
step db (adjusting m delta memo actor) = after db (adjust db m delta memo actor)
step db (requesting m reason user) = after db (request_refund db m reason user)
step db (approving i admin now memo) = approve_found db (find_refund i db.refunds) admin now memo
step db (rejecting i admin now memo) = reject_found db (find_refund i db.refunds) admin now memo

unfoldable pub run : Db → List Request → Db
run db [] = db
run db (q ∷ qs) = run (step db q) qs

Outcome-IsConsistent :
    (db : Db) (m : ℕ) (t : EntryType) (delta : ℤ) (Allowed : Type 0) (r : Result Error (Db × Entry))
    → Outcome db m t delta Allowed r
    → IsConsistent db
    → IsConsistent (after db r)
Outcome-IsConsistent db m t delta Allowed (ok r) o h = Applied-IsConsistent db m t delta r o.1 h
Outcome-IsConsistent db m t delta Allowed (err e) o h = h

Uses-IsConsistent :
    (db : Db) (m : ℕ) (value : ℤ) (r : Result Error (Db × Entry))
    → Uses db m value r
    → IsConsistent db
    → IsConsistent (after db r)
Uses-IsConsistent db m value (ok r) u h = Applied-IsConsistent db m _ (negate value) r u.2 h
Uses-IsConsistent db m value (err e) u h = h

Requests-IsConsistent :
    (db : Db) (m : ℕ) (r : Result Error (Db × Refund))
    → Requests db m r
    → IsConsistent db
    → IsConsistent (after db r)
unfolding balance_of ledger_total
Requests-IsConsistent db m (ok r) q h = rw q.after (λ j. h j)
Requests-IsConsistent db m (err e) q h = h

Approves-IsConsistent :
    (db : Db) (r : Refund) (paid : ℤ) (x : Result Error (Db × Refund))
    → Approves db r paid x
    → IsConsistent db
    → IsConsistent (after db x)
Approves-IsConsistent db r paid (err e) a = λ h. h
Approves-IsConsistent db r paid (ok s) a =
    moved-IsConsistent db s.0 r.merchant_id (negate paid) a.entry a.balances a.ledger a.entry_is.0
      a.entry_is.2 a.covered

rejected-IsConsistent :
    (db : Db) (r : Refund) (admin now : ℕ) (memo : Option Text)
    → IsConsistent db
    → IsConsistent (after db (reject_refund db r admin now memo))
unfolding reject_refund balance_of ledger_total
rejected-IsConsistent db r admin now memo h = elim (Bool-cases (is_pending r.status)) [
  | inl e ↦ rw e (λ j. h j)
  | inr e ↦ rw e h
]

-- A request keeps every balance equal to the merchant's ledger total, and not below zero.
pub step-IsConsistent : (db : Db) (q : Request) → IsConsistent db → IsConsistent (step db q)
unfolding step
step-IsConsistent db (charging m value memo actor) h =
    Outcome-IsConsistent db m _ value _ _ (charge-Outcome db m value memo actor h) h
step-IsConsistent db (using_credit m value order memo actor) h =
    Uses-IsConsistent db m value _ (use_credit-Uses db m value order memo actor) h
step-IsConsistent db (reversing m value order memo actor) h =
    Outcome-IsConsistent db m _ value _ _ (reverse_use-Outcome db m value order memo actor h) h
step-IsConsistent db (adjusting m delta memo actor) h =
    Outcome-IsConsistent db m _ delta _ _ (adjust-Outcome db m delta memo actor) h
step-IsConsistent db (requesting m reason user) h =
    Requests-IsConsistent db m _ (request_refund-Requests db m reason user) h
step-IsConsistent db (approving i admin now memo) h =
    elim (Option-cases (find_refund i db.refunds)) [
      | inl e ↦ rw (e, approve_found) h
      | inr (r, e) ↦
          rw (e, approve_found)
            (Approves-IsConsistent db r _ _ (approve_refund-payable db r admin now memo) h)
    ]
step-IsConsistent db (rejecting i admin now memo) h =
    elim (Option-cases (find_refund i db.refunds)) [
      | inl e ↦ rw (e, reject_found) h
      | inr (r, e) ↦ rw (e, reject_found) (rejected-IsConsistent db r admin now memo h)
    ]

pub run-IsConsistent : (db : Db) (qs : List Request) → IsConsistent db → IsConsistent (run db qs)
unfolding run
run-IsConsistent db [] h = h
run-IsConsistent db (q ∷ qs) h = run-IsConsistent (step db q) qs (step-IsConsistent db q h)

abbrev pub fresh : Dialect → Db
fresh d = record { dialect = d; credits = []; ledger = []; refunds = [] }

pub fresh-IsConsistent : (d : Dialect) → IsConsistent (fresh d)
unfolding balance_of find_credit ledger_total sum_for
fresh-IsConsistent d j = (refl, omega arith)

-- How many refunds of a merchant are pending.
pub pending_count : ℕ → List Refund → ℕ
pending_count m [] = 0
pending_count m (r ∷ rs) = (if pending_for m r then 1 else 0) + pending_count m rs

abbrev pub OnePending : Db → Type 0
OnePending db = (m : ℕ) → pending_count m db.refunds ≤ 1

pending_count-none :
    (m : ℕ) (rs : List Refund) → any (pending_for m) rs ≡ false → pending_count m rs ≡ 0
unfolding pending_count
pending_count-none m [] h = refl
pending_count-none m (r ∷ rs) h = ground (arith, pending_count-none m rs)

pending_count-write :
    (m : ℕ) (r : Refund) (rs : List Refund)
    → is_pending r.status ≡ false
    → pending_count m (write_refund r rs) ≤ pending_count m rs
unfolding pending_count write_refund
pending_count-write m r [] h = omega arith
pending_count-write m r (q ∷ qs) h = ground (arith, pending_count-write m r qs h)

Requests-OnePending :
    (db : Db) (m : ℕ) (x : Result Error (Db × Refund))
    → Requests db m x
    → OnePending db
    → OnePending (after db x)
unfolding pending_count
Requests-OnePending db m (err e) q h j = h j
Requests-OnePending db m (ok r) q h j =
    rw (ap (λ (d : Db). d.refunds) q.after) (elim (Bool-cases (m == j)) [
      | inl t ↦
          let same : m ≡ j = (==_iff m j).0 t in
          let none_before : pending_count j db.refunds ≡ 0 =
            pending_count-none j db.refunds (rw same at q.none_pending) in
          ground (arith, none_before)
      | inr t ↦ rw (q.merchant, t) (omega (arith, h j))
    ])

Approves-OnePending :
    (db : Db) (r : Refund) (paid : ℤ) (x : Result Error (Db × Refund))
    → Approves db r paid x
    → OnePending db
    → OnePending (after db x)
Approves-OnePending db r paid (err e) a h j = h j
Approves-OnePending db r paid (ok s) a h j =
    rw a.refunds (omega (arith, h j, pending_count-write j s.1 db.refunds (rw a.status refl)))

rejected-OnePending :
    (db : Db) (r : Refund) (admin now : ℕ) (memo : Option Text)
    → OnePending db
    → OnePending (after db (reject_refund db r admin now memo))
unfolding reject_refund
rejected-OnePending db r admin now memo h = elim (Bool-cases (is_pending r.status)) [
  | inl e ↦ rw e (λ j. omega (
    arith,
    h j,
    pending_count-write j (processed r rejected admin now memo) db.refunds
        (rejected_processed r admin now memo),
  ))
  | inr e ↦ rw e h
]

Outcome-OnePending :
    (db : Db) (m : ℕ) (t : EntryType) (delta : ℤ) (Allowed : Type 0) (r : Result Error (Db × Entry))
    → Outcome db m t delta Allowed r
    → OnePending db
    → OnePending (after db r)
Outcome-OnePending db m t delta Allowed (ok r) o h j = rw o.1.refunds (h j)
Outcome-OnePending db m t delta Allowed (err e) o h j = h j

Uses-OnePending :
    (db : Db) (m : ℕ) (value : ℤ) (r : Result Error (Db × Entry))
    → Uses db m value r
    → OnePending db
    → OnePending (after db r)
Uses-OnePending db m value (ok r) u h j = rw u.2.refunds (h j)
Uses-OnePending db m value (err e) u h j = h j

-- A request leaves every merchant with one pending refund at most.
pub step-OnePending :
    (db : Db) (q : Request) → IsConsistent db → OnePending db → OnePending (step db q)
unfolding step
step-OnePending db (charging m value memo actor) c h =
    Outcome-OnePending db m _ value _ _ (charge-Outcome db m value memo actor c) h
step-OnePending db (using_credit m value order memo actor) c h =
    Uses-OnePending db m value _ (use_credit-Uses db m value order memo actor) h
step-OnePending db (reversing m value order memo actor) c h =
    Outcome-OnePending db m _ value _ _ (reverse_use-Outcome db m value order memo actor c) h
step-OnePending db (adjusting m delta memo actor) c h =
    Outcome-OnePending db m _ delta _ _ (adjust-Outcome db m delta memo actor) h
step-OnePending db (requesting m reason user) c h =
    Requests-OnePending db m _ (request_refund-Requests db m reason user) h
step-OnePending db (approving i admin now memo) c h =
    elim (Option-cases (find_refund i db.refunds)) [
      | inl e ↦ rw (e, approve_found) h
      | inr (r, e) ↦
          rw (e, approve_found)
            (Approves-OnePending db r _ _ (approve_refund-payable db r admin now memo) h)
    ]
step-OnePending db (rejecting i admin now memo) c h =
    elim (Option-cases (find_refund i db.refunds)) [
      | inl e ↦ rw (e, reject_found) h
      | inr (r, e) ↦ rw (e, reject_found) (rejected-OnePending db r admin now memo h)
    ]

run-Good : (db : Db) (qs : List Request) → IsConsistent db → OnePending db → OnePending (run db qs)
unfolding run
run-Good db [] c h = h
run-Good db (q ∷ qs) c h =
    run-Good (step db q) qs (step-IsConsistent db q c) (step-OnePending db q c h)

-- After any history no merchant has two pending refunds.
pub run-OnePending :
    (d : Dialect) (qs : List Request) (m : ℕ) → pending_count m (run (fresh d) qs).refunds ≤ 1
unfolding pending_count
run-OnePending d qs = run-Good (fresh d) qs (fresh-IsConsistent d) (λ m. omega arith)
