-- ===== src/Orders/Synced.antt =====
-- What `_sync_order_credit` does to the credit (app/api/admin/_helpers.py).
use beautypos.Prelude.{
  ℕ, ◌≡◌, refl, sym, ap, ◌∙◌, subst, inl, inr, false, Bool-cases, ◌==◌, ==_refl, if◌then◌else◌,
  Option, some, Result-cases, Returns, ok,
}
use beautypos.Prelude.Int.{
  ℤ, pos, ◌+ℤ◌, ◌≤ℤ◌, negate, ltb_ℤ, ltb_ℤ→le, int_laws, +ℤ_comm, +ℤ_zero_left,
}
use beautypos.Credit.State.{Db, Memo, reverse_entry}
use beautypos.Credit.Operations.{use_credit, reverse_use}
use beautypos.Credit.Balance.{IsConsistent, Applied-IsConsistent, Outcome}
use beautypos.Credit.Outcomes.{Uses, use_credit-Uses, reverse_use-Outcome}
use beautypos.Dispatch.State.{OrderStatus}
use beautypos.Orders.State.{AdOrder}
use beautypos.Orders.Status.{
  order_sum, order_credit_outstanding, Undo, nothing, use_again, give_back, returned, undo_credit,
}
use beautypos.Orders.Sums.{Adds, use_credit-Adds, reverse_use-Adds}
use beautypos.Orders.Held.{held}
use beautypos.Orders.Undone.{Restored, use_again-Restored, give_back-Restored}

-- The order holds what it is to hold in its new state, the others what they held, and what is to be
-- undone would restore everything.
pub record Synced (db : Db) (o : AdOrder) (s : OrderStatus) (actor : ℕ) (memo : Option Memo)
    (r : Db × Undo) : Type 0 where
  pub consistent : IsConsistent r.0
  pub own : order_sum o.id r.0.ledger ≡ negate (held (record o { status = s }))
  pub others : (i : ℕ) → (o.id == i) ≡ false → order_sum i r.0.ledger ≡ order_sum i db.ledger
  pub undone : Restored db (undo_credit r.0 o actor memo r.1)

pub unchanged-Synced :
    (db : Db) (o : AdOrder) (s : OrderStatus) (actor : ℕ) (memo : Option Memo)
    → IsConsistent db
    → order_sum o.id db.ledger ≡ negate (held (record o { status = s }))
    → Synced db o s actor memo (db, nothing)
unfolding undo_credit
unchanged-Synced db o s actor memo h e = record {
  consistent = h;
  own = e;
  others = λ i x. refl;
  undone = record { consistent = h; sums = λ i. refl; balances = λ j. refl };
}

pub returned-Synced :
    (db : Db) (o : AdOrder) (s : OrderStatus) (actor : ℕ) (memo : Option Memo)
    → IsConsistent db
    → order_sum o.id db.ledger ≡ negate o.credit_amount
    → held (record o { status = s }) ≡ pos 0
    → Returns (Synced db o s actor memo) (
        returned
          (use_again o.credit_amount)
          (reverse_use db o.merchant_id o.credit_amount (some o.id) memo (some actor)))
unfolding undo_credit
returned-Synced db o s actor memo h e nothing_held =
    elim (Result-cases
      (reverse_use db o.merchant_id o.credit_amount (some o.id) memo (some actor))) [
        | inr (f, x) ↦ rw x tt
        | inl (r, x) ↦
            let adds : Adds db (some o.id) o.credit_amount (ok r) =
              subst (Adds db (some o.id) o.credit_amount) x
                (reverse_use-Adds db o.merchant_id o.credit_amount (some o.id) memo (some actor)) in
            let back : Outcome db o.merchant_id reverse_entry o.credit_amount
                (pos 1 ≤ℤ o.credit_amount) (ok r) =
              subst
                (Outcome db o.merchant_id reverse_entry o.credit_amount (pos 1 ≤ℤ o.credit_amount))
                x
                (reverse_use-Outcome db o.merchant_id o.credit_amount (some o.id) memo (some actor)
                  h) in
            rw x (record {
              consistent = Applied-IsConsistent db o.merchant_id _ o.credit_amount r back.1 h;
              own =
                  (rw (==_refl o.id) at (adds o.id))
                  ∙ ap (λ n. o.credit_amount +ℤ n) e
                  ∙ none_left o.credit_amount
                  ∙ ap negate (sym nothing_held);
              others = λ i y. rw y at (adds i);
              undone =
                  use_again-Restored db o.merchant_id o.id o.credit_amount memo (some actor) r h x;
            })
      ]
  where
    none_left : (a : ℤ) → a +ℤ negate a ≡ negate (pos 0)
    none_left a = omega int_laws

pub used-Synced :
    (db : Db) (o : AdOrder) (s : OrderStatus) (actor : ℕ) (memo : Option Memo)
    → IsConsistent db
    → order_sum o.id db.ledger ≡ pos 0
    → held (record o { status = s }) ≡ o.credit_amount
    → Returns (Synced db o s actor memo) (
        returned
          (give_back o.credit_amount)
          (use_credit db o.merchant_id o.credit_amount (some o.id) memo (some actor)))
unfolding undo_credit
used-Synced db o s actor memo h e all_held =
    elim (Result-cases
      (use_credit db o.merchant_id o.credit_amount (some o.id) memo (some actor))) [
        | inr (f, x) ↦ rw x tt
        | inl (r, x) ↦
            let adds : Adds db (some o.id) (negate o.credit_amount) (ok r) =
              subst (Adds db (some o.id) (negate o.credit_amount)) x
                (use_credit-Adds db o.merchant_id o.credit_amount (some o.id) memo (some actor)) in
            let used : Uses db o.merchant_id o.credit_amount (ok r) =
              subst (Uses db o.merchant_id o.credit_amount) x
                (use_credit-Uses db o.merchant_id o.credit_amount (some o.id) memo (some actor)) in
            rw x (record {
              consistent =
                  Applied-IsConsistent db o.merchant_id _ (negate o.credit_amount) r used.2 h;
              own =
                  (rw (==_refl o.id) at (adds o.id))
                  ∙ ap (λ n. negate o.credit_amount +ℤ n) e
                  ∙ +ℤ_comm (negate o.credit_amount) (pos 0)
                  ∙ +ℤ_zero_left (negate o.credit_amount)
                  ∙ ap negate (sym all_held);
              others = λ i y. rw y at (adds i);
              undone =
                  give_back-Restored db o.merchant_id o.id o.credit_amount memo (some actor) r h x;
            })
      ]

-- What the ledger says is what the order holds.
pub outstanding-held :
    (db : Db) (o : AdOrder)
    → order_sum o.id db.ledger ≡ negate (held o)
    → pos 0 ≤ℤ held o
    → order_credit_outstanding db o.id ≡ held o
unfolding order_credit_outstanding
outstanding-held db o e h = rw e (clamped (held o) h)
  where
    clamped :
        (a : ℤ)
        → pos 0 ≤ℤ a
        → (if ltb_ℤ (pos 0) (negate (negate a)) then negate (negate a) else pos 0) ≡ a
    clamped a h = elim (Bool-cases (ltb_ℤ (pos 0) (negate (negate a)))) [
      | inl x ↦ rw x (omega int_laws)
      | inr x ↦ rw x (omega (int_laws, ltb_ℤ→le (pos 0) (negate (negate a)) x))
    ]
