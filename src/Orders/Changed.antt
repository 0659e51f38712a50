-- ===== src/Orders/Changed.antt =====
-- A change of state keeps what the orders hold (app/api/admin/ad_routes.py).
use beautypos.Prelude.{
  ℕ, ◌≡◌, refl, sym, ap, ◌∙◌, subst, inl, inr, true, false, Bool-cases, ◌==◌, ==_iff, if◌then◌else◌,
  not, Option, none, some, Option-cases, Result, Returns, ok, err, arith,
}
use beautypos.Prelude.Int.{ℤ, pos, negate, ltb_ℤ, leb_ℤ, leb_ℤ→lt, ltb_ℤ→le}
use beautypos.Credit.State.{Db, Memo, balance_of}
use beautypos.Credit.Balance.{IsConsistent}
use beautypos.Dispatch.State.{OrderStatus}
use beautypos.Orders.State.{AdOrder, Books, is_rejected, is_credit, find_order, write_order}
use beautypos.Orders.Status.{
  order_sum, order_credit_outstanding, sync_order_credit, Undo, is_allowed, StatusRequest,
  StatusError, no_order, invalid_status, no_transition, finish_change, change_synced, change_found,
  change_ad_order_status, changed_order,
}
use beautypos.Orders.Held.{held, held_of, IsHeld, found-id, write-same, write-other}
use beautypos.Orders.Synced.{
  Synced, unchanged-Synced, returned-Synced, used-Synced, outstanding-held,
}

-- An order that the credit pays for holds its price, or nothing if it is rejected.
pub held-paid :
    (o : AdOrder)
    → is_credit o.payment_source ≡ true
    → leb_ℤ o.credit_amount (pos 0) ≡ false
    → held o ≡ (if is_rejected o.status then pos 0 else o.credit_amount)
held-paid o paid large = rw (paid, large) refl

-- One that the plan pays for, or that has no price, holds nothing.
pub held-unpaid : (o : AdOrder) → is_credit o.payment_source ≡ false → held o ≡ pos 0
held-unpaid o x = rw x refl

pub held-free :
    (o : AdOrder)
    → is_credit o.payment_source ≡ true
    → leb_ℤ o.credit_amount (pos 0) ≡ true
    → held o ≡ pos 0
held-free o x y = elim (Bool-cases (is_rejected o.status)) [
  | inl z ↦ rw (x, z) refl
  | inr z ↦ rw (x, y, z) refl
]

pub positive : (a : ℤ) → leb_ℤ a (pos 0) ≡ false → ltb_ℤ (pos 0) a ≡ true
positive a e = elim (Bool-cases (ltb_ℤ (pos 0) a)) [
  | inl x ↦ x
  | inr x ↦ absurd (omega (arith, leb_ℤ→lt a (pos 0) e, ltb_ℤ→le (pos 0) a x))
]

sync-paid :
    (db : Db) (o : AdOrder) (s : OrderStatus) (actor : ℕ) (memo : Option Memo)
    → is_credit o.payment_source ≡ true
    → leb_ℤ o.credit_amount (pos 0) ≡ false
    → IsConsistent db
    → order_sum o.id db.ledger ≡ negate (held o)
    → Returns (Synced db o s actor memo) (sync_order_credit db o s actor memo)
unfolding sync_order_credit negate
sync-paid db o s actor memo paid large h e = elim (Bool-cases (is_rejected o.status)) [
  | inl x ↦
      let none_held : held o ≡ pos 0 = held-paid o paid large ∙ rw x refl in
      let left : order_credit_outstanding db o.id ≡ pos 0 =
        outstanding-held db o e (rw none_held (omega arith)) ∙ none_held in
      elim (Bool-cases (is_rejected s)) [
        | inl y ↦
            rw (paid, large, x, y, left)
              (unchanged-Synced db o s actor memo h
                (e ∙ ap negate (none_held ∙ sym (rejected_holds y))))
        | inr y ↦
            rw (paid, large, x, y, left)
              (used-Synced db o s actor memo h (e ∙ ap negate none_held) (open_holds y))
      ]
  | inr x ↦
      let all_held : held o ≡ o.credit_amount = held-paid o paid large ∙ rw x refl in
      let left : order_credit_outstanding db o.id ≡ o.credit_amount =
        outstanding-held db o e
          (rw all_held (omega (arith, leb_ℤ→lt o.credit_amount (pos 0) large)))
        ∙ all_held in
      elim (Bool-cases (is_rejected s)) [
        | inl y ↦
            rw (paid, large, x, y, left, positive o.credit_amount large)
              (returned-Synced db o s actor memo h (e ∙ ap negate all_held) (rejected_holds y))
        | inr y ↦
            rw (paid, large, x, y)
              (unchanged-Synced db o s actor memo h (e ∙ ap negate (all_held ∙ sym (open_holds y))))
      ]
]
  where
    rejected_holds : is_rejected s ≡ true → held (record o { status = s }) ≡ pos 0
    rejected_holds y = held-paid (record o { status = s }) paid large ∙ rw y refl

    open_holds : is_rejected s ≡ false → held (record o { status = s }) ≡ o.credit_amount
    open_holds y = held-paid (record o { status = s }) paid large ∙ rw y refl

sync_order_credit-Synced :
    (db : Db) (o : AdOrder) (s : OrderStatus) (actor : ℕ) (memo : Option Memo)
    → IsConsistent db
    → order_sum o.id db.ledger ≡ negate (held o)
    → Returns (Synced db o s actor memo) (sync_order_credit db o s actor memo)
unfolding sync_order_credit
sync_order_credit-Synced db o s actor memo h e = elim (Bool-cases (is_credit o.payment_source)) [
  | inr x ↦ rw x (
      unchanged-Synced db o s actor memo h
        (e ∙ ap negate (held-unpaid o x ∙ sym (held-unpaid (record o { status = s }) x))))
  | inl x ↦ elim (Bool-cases (leb_ℤ o.credit_amount (pos 0))) [
    | inl y ↦
        rw (x, y)
          (unchanged-Synced db o s actor memo h
            (e ∙ ap negate (held-free o x y ∙ sym (held-free (record o { status = s }) x y))))
    | inr y ↦ sync-paid db o s actor memo x y h e
  ]
]

-- What a change may leave: what the orders hold is right, and unless it succeeds the orders and all
-- balances are those of before.
abbrev pub Safe : Books → Books × Result StatusError AdOrder → Type 0
Safe b (b', ok o) = IsHeld b'
Safe b (b', err e) =
    IsHeld b'
    × ((b'.orders ≡ b.orders) × ((j : ℕ) → balance_of b'.credit j ≡ balance_of b.credit j))

finish_change-Safe :
    (b : Books) (o : AdOrder) (s : OrderStatus) (q : StatusRequest) (r : Db × Undo)
    → IsHeld b
    → find_order o.id b.orders ≡ some o
    → Synced b.credit o s q.admin q.memo r
    → Safe b (finish_change b o s q r)
unfolding finish_change
finish_change-Safe b o s q r h found y = elim (Bool-cases q.commits) [
  | inl x ↦ rw x (record {
    consistent = y.consistent;
    sums = λ i. elim (Bool-cases (o.id == i)) [
      | inl t ↦
          subst
            (λ j.
              order_sum j r.0.ledger
              ≡ negate (held_of (find_order j (write_order (changed_order o s q) b.orders))))
            ((==_iff o.id i).0 t)
            (y.own
              ∙ ap (λ f. negate (held_of f))
                  (sym (write-same (changed_order o s q) o b.orders found)))
      | inr t ↦
          y.others i t
          ∙ h.sums i
          ∙ ap (λ f. negate (held_of f)) (sym (write-other (changed_order o s q) i b.orders t))
    ];
    unused = λ i l. elim (Bool-cases (o.id == i)) [
      | inl t ↦ absurd (
          none_some o (
            sym
              (subst (λ j. find_order j b.orders ≡ none) (sym ((==_iff o.id i).0 t)) (h.unused i l))
            ∙ found))
      | inr t ↦ write-other (changed_order o s q) i b.orders t ∙ h.unused i l
    ];
  })
  | inr x ↦ rw x (
    (record {
      consistent = y.undone.consistent;
      sums = λ i. y.undone.sums i ∙ h.sums i;
      unused = h.unused;
    }),
    (refl, y.undone.balances),
  )
]
  where
    none_some : (o : AdOrder) → none ≡ some o → ⊥
    none_some o e = cc

refused-Safe : (b : Books) (e : StatusError) → IsHeld b → Safe b (b, err e)
refused-Safe b e h = (h, (refl, λ j. refl))

change_synced-Safe :
    (b : Books) (o : AdOrder) (s : OrderStatus) (q : StatusRequest)
    (x : Result StatusError (Db × Undo))
    → IsHeld b
    → find_order o.id b.orders ≡ some o
    → Returns (Synced b.credit o s q.admin q.memo) x
    → Safe b (change_synced b o s q x)
change_synced-Safe b o s q (err e) h found y = refused-Safe b e h
change_synced-Safe b o s q (ok r) h found y = finish_change-Safe b o s q r h found y

change_found-Safe :
    (b : Books) (o : AdOrder) (new : Option OrderStatus) (q : StatusRequest)
    → IsHeld b
    → find_order o.id b.orders ≡ some o
    → Safe b (change_found b (some o) new q)
unfolding change_found
change_found-Safe b o none q h found = refused-Safe b invalid_status h
change_found-Safe b o (some s) q h found = elim (Bool-cases (not (is_allowed o.status s))) [
  | inl x ↦ rw x (refused-Safe b no_transition h)
  | inr x ↦ rw x (
      change_synced-Safe b o s q (sync_order_credit b.credit o s q.admin q.memo) h found (
        sync_order_credit-Synced b.credit o s q.admin q.memo h.consistent
          (h.sums o.id ∙ ap (λ f. negate (held_of f)) found)))
]

-- A change of state leaves every order with what it is to hold: its price, taken from the credit of
-- its merchant, or nothing once it is rejected. If it is refused, or if its commit fails and the
-- credit has to be put back, the orders and all balances are those of before.
pub change_ad_order_status-Safe :
    (b : Books) (i : ℕ) (q : StatusRequest) → IsHeld b → Safe b (change_ad_order_status b i q)
unfolding change_ad_order_status
change_ad_order_status-Safe b i q h = elim (Option-cases (find_order i b.orders)) [
  | inl e ↦ rw (e, change_ad_order_status) (refused-Safe b no_order h)
  | inr (o, e) ↦
      rw (e, change_ad_order_status)
        (change_found-Safe b o q.new_status q h
          (subst (λ j. find_order j b.orders ≡ some o) (sym (found-id i b.orders o e)) e))
]
