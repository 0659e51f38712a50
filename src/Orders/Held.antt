-- ===== src/Orders/Held.antt =====
-- An order holds its price out of the credit until it is rejected.
use beautypos.Prelude.{
  ℕ, ◌≤◌, ◌≡◌, refl, sym, ap, ◌∙◌, inl, inr, true, false, Bool-cases, ◌==◌, ==_refl, ==_iff,
  if◌then◌else◌, List, [], ◌∷◌, Option, none, some, arith,
}
use beautypos.Prelude.Int.{ℤ, pos, ◌≤ℤ◌, negate, leb_ℤ, leb_ℤ→le}
use beautypos.Credit.Balance.{IsConsistent}
use beautypos.Orders.State.{AdOrder, Books, is_rejected, is_credit, find_order, write_order}
use beautypos.Orders.Status.{order_sum}

-- What an order is to hold: its price if the credit pays for it, and nothing once it is rejected
abbrev pub held : AdOrder → ℤ
held o =
    if is_credit o.payment_source
    then (if is_rejected o.status
        then pos 0
        else if leb_ℤ o.credit_amount (pos 0)
        then pos 0
        else o.credit_amount)
    else pos 0

abbrev pub held_of : Option AdOrder → ℤ
held_of none = pos 0
held_of (some o) = held o

-- The ledger's total of every order is what it holds, and numbers to come are free.
pub record IsHeld (b : Books) : Type 0 where
  pub consistent : IsConsistent b.credit
  pub sums : (i : ℕ) → order_sum i b.credit.ledger ≡ negate (held_of (find_order i b.orders))
  pub unused : (i : ℕ) → b.next_id ≤ i → find_order i b.orders ≡ none

pub found-id : (i : ℕ) (os : List AdOrder) (o : AdOrder) → find_order i os ≡ some o → o.id ≡ i
unfolding find_order
found-id i [] o e = cc
found-id i (q ∷ qs) o e = elim (Bool-cases (q.id == i)) [
  | inl x ↦ ap (λ (z : AdOrder). z.id) (sym (head_of q o (rw x at e))) ∙ (==_iff q.id i).0 x
  | inr x ↦ found-id i qs o (rw x at e)
]
  where
    head_of : (q r : AdOrder) → some q ≡ some r → q ≡ r
    head_of q r e = ap (λ (o : Option AdOrder). elim o [ none ↦ q | some x ↦ x ]) e

pub write-same :
    (x o : AdOrder) (os : List AdOrder)
    → find_order x.id os ≡ some o
    → find_order x.id (write_order x os) ≡ some x
unfolding find_order write_order
write-same x o [] e = cc
write-same x o (q ∷ qs) e = elim (Bool-cases (q.id == x.id)) [
  | inl f ↦ rw (f, ==_refl x.id) refl
  | inr f ↦ rw (f, f) (write-same x o qs (rw f at e))
]

pub write-other :
    (x : AdOrder) (i : ℕ) (os : List AdOrder)
    → (x.id == i) ≡ false
    → find_order i (write_order x os) ≡ find_order i os
unfolding find_order write_order
write-other x i [] h = refl
write-other x i (q ∷ qs) h = elim (Bool-cases (q.id == x.id)) [
  | inl f ↦ rw (f, h) (ap (λ c. if c then some q else find_order i qs) (sym (differs f)))
  | inr f ↦ rw f (ap (λ r. if q.id == i then some q else r) (write-other x i qs h))
]
  where
    differs : (q.id == x.id) ≡ true → (q.id == i) ≡ false
    differs f = ap (λ k. k == i) ((==_iff q.id x.id).0 f) ∙ h

pub held-full :
    (o : AdOrder)
    → is_credit o.payment_source ≡ true
    → is_rejected o.status ≡ false
    → pos 1 ≤ℤ o.credit_amount
    → held o ≡ o.credit_amount
held-full o paid open_ large = elim (Bool-cases (leb_ℤ o.credit_amount (pos 0))) [
  | inl e ↦ absurd (omega (arith, large, leb_ℤ→le o.credit_amount (pos 0) e))
  | inr e ↦ rw (paid, open_, e) refl
]
