-- ===== src/Orders/Sums.antt =====
-- What each operation on the credit adds to the ledger's total of an order
-- (app/services/ad_credit.py).
use beautypos.Prelude.{
  ℕ, ◌≡◌, refl, ap, ◌∙◌, inl, inr, Bool-cases, not, if◌then◌else◌, Option, none, some, Result, ok,
  err, ◌>>=◌,
}
use beautypos.Prelude.Int.{ℤ, pos, ◌+ℤ◌, negate, ltb_ℤ, leb_ℤ, eqb_ℤ}
use beautypos.Text.{Text, strip, is_empty, or_empty}
use beautypos.Credit.State.{
  Db, Credit, Entry, EntryType, Memo, Refund, lock_credit, charge_entry, use_entry, reverse_entry,
  adjust_entry, refund_entry, written, refund_request,
}
use beautypos.Credit.Refunds.{is_pending, payable, approve_refund}
use beautypos.Credit.Operations.{
  Error, apply, charge, use_credit, reverse_use, adjust, max_charge_amount,
}
use beautypos.Credit.Balance.{lock_credit-Locked}
use beautypos.Orders.Status.{order_sum, is_of_order}

-- The total of the order grows by an amount, and that of the others stays.
abbrev pub Adds : {A : Type 0} → Db → Option ℕ → ℤ → Result Error (Db × A) → Type 0
Adds db order delta (err e) = Unit
Adds db order delta (ok r) =
    (i : ℕ)
    → order_sum i r.0.ledger
      ≡ (if is_of_order i order then delta +ℤ order_sum i db.ledger else order_sum i db.ledger)

apply-Adds :
    (db db' : Db) (m : ℕ) (t : EntryType) (delta : ℤ) (memo : Option Memo) (actor order : Option ℕ)
    (c : Credit)
    → db'.ledger ≡ db.ledger
    → Adds db order delta (apply db' m t delta memo actor order (some c))
unfolding apply order_sum
apply-Adds db db' m t delta memo actor order c l =
    elim (Bool-cases (ltb_ℤ (c.balance +ℤ delta) (pos 0))) [
      | inl e ↦ rw e tt
      | inr e ↦ rw e (λ i. rw l refl)
    ]

apply_fresh-Adds :
    (db : Db) (m : ℕ) (t : EntryType) (delta : ℤ) (memo : Option Memo) (actor order : Option ℕ)
    → Adds db order delta (apply db m t delta memo actor order none)
unfolding apply
apply_fresh-Adds db m t delta memo actor order =
    let (db', c) = lock_credit db m in
    apply-Adds db db' m t delta memo actor order c (lock_credit-Locked db m).ledger

pub use_credit-Adds :
    (db : Db) (m : ℕ) (value : ℤ) (order : Option ℕ) (memo : Option Memo) (actor : Option ℕ)
    → Adds db order (negate value) (use_credit db m value order memo actor)
unfolding use_credit
use_credit-Adds db m value order memo actor = elim (Bool-cases (leb_ℤ value (pos 0))) [
  | inl e ↦ rw e tt
  | inr e ↦ elim (Bool-cases (ltb_ℤ (lock_credit db m).1.balance value)) [
    | inl f ↦ rw (e, f) tt
    | inr f ↦
        rw (e, f)
          (apply-Adds db (lock_credit db m).0 m use_entry (negate value) memo actor order
            (lock_credit db m).1 (lock_credit-Locked db m).ledger)
  ]
]

pub reverse_use-Adds :
    (db : Db) (m : ℕ) (value : ℤ) (order : Option ℕ) (memo : Option Memo) (actor : Option ℕ)
    → Adds db order value (reverse_use db m value order memo actor)
unfolding reverse_use
reverse_use-Adds db m value order memo actor = elim (Bool-cases (leb_ℤ value (pos 0))) [
  | inl e ↦ rw e tt
  | inr e ↦ rw e (apply_fresh-Adds db m reverse_entry value memo actor order)
]

pub charge-Adds :
    (db : Db) (m : ℕ) (value : ℤ) (memo : Option Memo) (actor : Option ℕ)
    → Adds db none value (charge db m value memo actor)
unfolding charge
charge-Adds db m value memo actor = elim (Bool-cases (leb_ℤ value (pos 0))) [
  | inl e ↦ rw e tt
  | inr e ↦ elim (Bool-cases (ltb_ℤ max_charge_amount value)) [
    | inl f ↦ rw (e, f) tt
    | inr f ↦ rw (e, f) (apply_fresh-Adds db m charge_entry value memo actor none)
  ]
]

pub adjust-Adds :
    (db : Db) (m : ℕ) (delta : ℤ) (memo : Option Text) (actor : Option ℕ)
    → Adds db none delta (adjust db m delta memo actor)
unfolding adjust
adjust-Adds db m delta memo actor = elim (Bool-cases (is_empty (strip (or_empty memo)))) [
  | inl e ↦ rw e tt
  | inr e ↦ elim (Bool-cases (eqb_ℤ delta (pos 0))) [
    | inl f ↦ rw (e, f) tt
    | inr f ↦
        rw (e, f)
          (apply_fresh-Adds db m adjust_entry delta (some (written (strip (or_empty memo)))) actor
            none)
  ]
]

-- What follows a change may write the refunds.
bind-Adds :
    (db : Db) (order : Option ℕ) (delta : ℤ) (x : Result Error (Db × Entry))
    (f : Db × Entry → Db × Refund)
    → ((p : Db × Entry) → (f p).0.ledger ≡ p.0.ledger)
    → Adds db order delta x
    → Adds db order delta (x >>= λ p. ok (f p))
bind-Adds db order delta (err e) f same a = tt
bind-Adds db order delta (ok p) f same a = λ i. ap (order_sum i) (same p) ∙ a i

pub approve_refund-Adds :
    (db : Db) (r : Refund) (admin now : ℕ) (memo : Option Text)
    → Adds db none
        (negate (payable (lock_credit db r.merchant_id).1.balance r.amount))
        (approve_refund db r admin now memo)
unfolding approve_refund
approve_refund-Adds db r admin now memo = elim (Bool-cases (not (is_pending r.status))) [
  | inl e ↦ rw e tt
  | inr e ↦
      let (db', c) = lock_credit db r.merchant_id in
      let amount = payable c.balance r.amount in
      elim (Bool-cases (leb_ℤ amount (pos 0))) [
        | inl f ↦ rw (e, f) tt
        | inr f ↦
            rw (e, f)
              (bind-Adds db none (negate amount) _ _ (λ p. refl)
                (apply-Adds db db' r.merchant_id refund_entry (negate amount)
                  (some (refund_request r.id)) (some admin) none c
                  (lock_credit-Locked db r.merchant_id).ledger))
      ]
]
