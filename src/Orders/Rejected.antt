-- ===== src/Orders/Rejected.antt =====
-- An order that is not done can always be rejected, and its price comes back.
use beautypos.Prelude.{
  ℕ, ◌≡◌, refl, sym, ap, ◌∙◌, subst, inl, inr, true, false, Bool-cases, ◌==◌, ==_iff, if◌then◌else◌,
  Option, some, Result, Result-cases, ok, arith,
}
use beautypos.Prelude.Int.{pos, ◌+ℤ◌, ◌≤ℤ◌, negate, leb_ℤ, leb_ℤ→lt, +ℤ_comm, +ℤ_zero_left}
use beautypos.Credit.State.{Db, Entry, Memo, balance_of, reverse_entry}
use beautypos.Credit.Operations.{Error, reverse_use}
use beautypos.Credit.Balance.{IsConsistent, Outcome}
use beautypos.Credit.Outcomes.{reverse_use-Outcome}
use beautypos.Dispatch.State.{order_rejected}
use beautypos.Orders.State.{AdOrder, Books, is_rejected, is_credit, find_order}
use beautypos.Orders.Status.{
  order_sum, order_credit_outstanding, sync_order_credit, Undo, nothing, use_again, returned,
  is_allowed, StatusRequest, StatusError, finish_change, change_synced, change_found,
  change_ad_order_status, changed_order,
}
use beautypos.Orders.Held.{held, held_of, IsHeld, found-id, write-same}
use beautypos.Orders.Synced.{outstanding-held}
use beautypos.Orders.Changed.{held-paid, held-unpaid, held-free, positive}

-- The merchant of the order has back what the order held.
abbrev pub PaidBack : Db → AdOrder → Db → Type 0
PaidBack db o db' =
    (j : ℕ)
    → balance_of db' j
      ≡ (if o.merchant_id == j then balance_of db o.merchant_id +ℤ held o else balance_of db j)

abbrev Rejects : Db → AdOrder → Result StatusError (Db × Undo) → Type 0
Rejects db o x = (r : Db × Undo) × ((x ≡ ok r) × PaidBack db o r.0)

unchanged-PaidBack : (db : Db) (o : AdOrder) → held o ≡ pos 0 → PaidBack db o db
unchanged-PaidBack db o e j = elim (Bool-cases (o.merchant_id == j)) [
  | inl x ↦
      rw (x, e)
        (sym (
          +ℤ_comm (balance_of db o.merchant_id) (pos 0)
          ∙ +ℤ_zero_left (balance_of db o.merchant_id)
          ∙ ap (balance_of db) ((==_iff o.merchant_id j).0 x)))
  | inr x ↦ rw x refl
]

kept-Rejects :
    (db : Db) (o : AdOrder) (x : Result StatusError (Db × Undo))
    → x ≡ ok (db, nothing)
    → held o ≡ pos 0
    → Rejects db o x
kept-Rejects db o x e zero = ((db, nothing), (e, unchanged-PaidBack db o zero))

reversed-Rejects :
    (db : Db) (o : AdOrder) (actor : ℕ) (memo : Option Memo)
    → IsConsistent db
    → leb_ℤ o.credit_amount (pos 0) ≡ false
    → held o ≡ o.credit_amount
    → Rejects db o (
        returned
          (use_again o.credit_amount)
          (reverse_use db o.merchant_id o.credit_amount (some o.id) memo (some actor)))
reversed-Rejects db o actor memo h large e =
    elim (Result-cases
      (reverse_use db o.merchant_id o.credit_amount (some o.id) memo (some actor))) [
        | inl (r, x) ↦ (
          (r.0, use_again o.credit_amount),
          (rw x refl, λ j. rw e ((subst Back x outcome).1.balances j)),
        )
        | inr (f, x) ↦
            absurd ((subst Back x outcome) (omega (arith, leb_ℤ→lt o.credit_amount (pos 0) large)))
      ]
  where
    Back : Result Error (Db × Entry) → Type 0
    Back = Outcome db o.merchant_id reverse_entry o.credit_amount (pos 1 ≤ℤ o.credit_amount)

    outcome : Back (reverse_use db o.merchant_id o.credit_amount (some o.id) memo (some actor))
    outcome = reverse_use-Outcome db o.merchant_id o.credit_amount (some o.id) memo (some actor) h

sync-Rejects :
    (db : Db) (o : AdOrder) (actor : ℕ) (memo : Option Memo)
    → IsConsistent db
    → order_sum o.id db.ledger ≡ negate (held o)
    → Rejects db o (sync_order_credit db o order_rejected actor memo)
unfolding sync_order_credit
sync-Rejects db o actor memo h e = elim (Bool-cases (is_credit o.payment_source)) [
  | inr x ↦ kept-Rejects db o _ (rw x refl) (held-unpaid o x)
  | inl x ↦ elim (Bool-cases (leb_ℤ o.credit_amount (pos 0))) [
    | inl y ↦ kept-Rejects db o _ (rw (x, y) refl) (held-free o x y)
    | inr y ↦ elim (Bool-cases (is_rejected o.status)) [
      | inl z ↦
          let none_held : held o ≡ pos 0 = held-paid o x y ∙ rw z refl in
          let left : order_credit_outstanding db o.id ≡ pos 0 =
            outstanding-held db o e (rw none_held (omega arith)) ∙ none_held in
          kept-Rejects db o _ (rw (x, y, z, left) refl) none_held
      | inr z ↦
          let all_held : held o ≡ o.credit_amount = held-paid o x y ∙ rw z refl in
          let left : order_credit_outstanding db o.id ≡ o.credit_amount =
            outstanding-held db o e
              (rw all_held (omega (arith, leb_ℤ→lt o.credit_amount (pos 0) y)))
            ∙ all_held in
          subst (Rejects db o) (sym (rw (x, y, z, left, positive o.credit_amount y) refl))
            (reversed-Rejects db o actor memo h y all_held)
    ]
  ]
]

-- The rejection has gone through: the order is returned as rejected, the table holds it so, nothing but
-- its state, admin and note has changed, and its merchant has back what it held.
pub record Rejection (b : Books) (o : AdOrder) (r : Books × Result StatusError AdOrder)
    : Type 0 where
  pub new : AdOrder
  pub returned : r.1 ≡ ok new
  pub status : new.status ≡ order_rejected
  pub same :
      (new.id ≡ o.id) × (new.merchant_id ≡ o.merchant_id) × (new.credit_amount ≡ o.credit_amount)
  pub stored : find_order o.id (r.0).orders ≡ some new
  pub paid_back : PaidBack b.credit o (r.0).credit

found-Rejection :
    (b : Books) (o : AdOrder) (q : StatusRequest) (x : Result StatusError (Db × Undo))
    → q.commits ≡ true
    → find_order o.id b.orders ≡ some o
    → Rejects b.credit o x
    → Rejection b o (change_synced b o order_rejected q x)
unfolding finish_change
found-Rejection b o q x c found (r, (e, p)) =
    rw (e, change_synced, c)
      (record {
        new = changed_order o order_rejected q;
        returned = refl;
        status = refl;
        same = (refl, refl, refl);
        stored = write-same (changed_order o order_rejected q) o b.orders found;
        paid_back = p;
      })

-- Where the orders hold what they are to hold, an order from whose state the rejection is allowed is
-- rejected, if the commit succeeds: the request returns it with the state `rejected`, the table holds
-- it so, with its merchant and price as they were, and its merchant has back what it held.
pub reject-PaidBack :
    (b : Books) (i : ℕ) (o : AdOrder) (q : StatusRequest)
    → IsHeld b
    → find_order i b.orders ≡ some o
    → is_allowed o.status order_rejected ≡ true
    → q.new_status ≡ some order_rejected
    → q.commits ≡ true
    → Rejection b o (change_ad_order_status b i q)
unfolding change_ad_order_status change_found
reject-PaidBack b i o q h found allowed new c =
    let own : find_order o.id b.orders ≡ some o =
      subst (λ j. find_order j b.orders ≡ some o) (sym (found-id i b.orders o found)) found in
    rw (found, new, change_found, allowed)
      (found-Rejection b o q (sync_order_credit b.credit o order_rejected q.admin q.memo) c own (
        sync-Rejects b.credit o q.admin q.memo h.consistent
          (h.sums o.id ∙ ap (λ f. negate (held_of f)) own)))
