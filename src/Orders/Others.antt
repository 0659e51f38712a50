-- ===== src/Orders/Others.antt =====
-- Requests to the credit that are about no order leave the total of every order as it is.
use beautypos.Prelude.{
  ℕ, ◌≡◌, refl, ap, inl, inr, true, Bool-cases, not, Option, none, Option-cases, Result, ok, err,
}
use beautypos.Prelude.Int.{ℤ, negate}
use beautypos.Text.{Text}
use beautypos.Credit.State.{Db, Refund, lock_credit}
use beautypos.Credit.Operations.{Error}
use beautypos.Credit.Refunds.{is_pending, payable, reject_refund}
use beautypos.Credit.RefundOutcomes.{Requests, request_refund-Requests}
use beautypos.Credit.History.{
  Request, charging, using_credit, reversing, adjusting, requesting, approving, rejecting, step,
  find_refund, after,
}
use beautypos.Orders.Status.{order_sum}
use beautypos.Orders.Requests.{is_routed}
use beautypos.Orders.Sums.{Adds, charge-Adds, adjust-Adds, approve_refund-Adds}

abbrev pub Keeps : Db → Db → Type 0
Keeps db db' = (i : ℕ) → order_sum i db'.ledger ≡ order_sum i db.ledger

Adds-Keeps :
    {A : Type 0} (db : Db) (delta : ℤ) (r : Result Error (Db × A))
    → Adds db none delta r
    → Keeps db (after db r)
Adds-Keeps db delta (ok r) a = a
Adds-Keeps db delta (err e) a = λ i. refl

Requests-Keeps :
    (db : Db) (m : ℕ) (r : Result Error (Db × Refund)) → Requests db m r → Keeps db (after db r)
Requests-Keeps db m (ok r) q = λ i. ap (λ (d : Db). order_sum i d.ledger) q.after
Requests-Keeps db m (err e) q = λ i. refl

rejected-Keeps :
    (db : Db) (r : Refund) (admin now : ℕ) (memo : Option Text)
    → Keeps db (after db (reject_refund db r admin now memo))
unfolding reject_refund
rejected-Keeps db r admin now memo = elim (Bool-cases (not (is_pending r.status))) [
  | inl e ↦ rw e (λ i. refl)
  | inr e ↦ rw e (λ i. refl)
]

pub step-Keeps : (db : Db) (q : Request) → is_routed q ≡ true → Keeps db (step db q)
unfolding step
step-Keeps db (charging m value memo actor) e =
    Adds-Keeps db value _ (charge-Adds db m value memo actor)
step-Keeps db (using_credit m value order memo actor) e = cc
step-Keeps db (reversing m value order memo actor) e = cc
step-Keeps db (adjusting m delta memo actor) e =
    Adds-Keeps db delta _ (adjust-Adds db m delta memo actor)
step-Keeps db (requesting m reason user) e =
    Requests-Keeps db m _ (request_refund-Requests db m reason user)
step-Keeps db (approving i admin now memo) e = elim (Option-cases (find_refund i db.refunds)) [
  | inl f ↦ rw (f, step) (λ j. refl)
  | inr (r, f) ↦
      rw (f, step)
        (Adds-Keeps db (negate (payable (lock_credit db r.merchant_id).1.balance r.amount)) _
          (approve_refund-Adds db r admin now memo))
]
step-Keeps db (rejecting i admin now memo) e = elim (Option-cases (find_refund i db.refunds)) [
  | inl f ↦ rw (f, step) (λ j. refl)
  | inr (r, f) ↦ rw (f, step) (rejected-Keeps db r admin now memo)
]
