-- ===== src/Orders/Ordered.antt =====
-- An order that is placed holds its price (app/api/owner/ad_owner_routes.py).
use beautypos.Prelude.{
  ℕ, suc, ◌≤◌, ◌≡◌, refl, sym, ap, ◌∙◌, subst, inl, inr, true, false, Bool-cases, ◌==◌, ==_iff,
  List, ◌∷◌, Option, some, Result-cases, Returns, ok, arith,
}
use beautypos.Prelude.Int.{pos, ◌+ℤ◌, negate, +ℤ_comm, +ℤ_zero_left}
use beautypos.Text.{Text}
use beautypos.Credit.State.{Db, Entry, Memo}
use beautypos.Credit.Operations.{use_credit}
use beautypos.Credit.Balance.{Applied-IsConsistent}
use beautypos.Credit.Outcomes.{Uses, use_credit-Uses}
use beautypos.Orders.State.{
  AdOrder, Books, PaymentSource, by_plan, by_credit, OrderType, Detail, is_rejected, is_credit,
  find_order,
}
use beautypos.Orders.Create.{
  Shop, store_order, new_order, place_order, assert_credit_available, create_blog_order,
  create_place_traffic_order,
}
use beautypos.Orders.Shorts.{ShortsRequest, create_shorts_order}
use beautypos.Orders.Guards.{
  then-Returns, create_blog_order-Placed, create_place_traffic_order-Placed,
  create_shorts_order-Placed,
}
use beautypos.Orders.Status.{order_sum}
use beautypos.Orders.Sums.{Adds, use_credit-Adds}
use beautypos.Orders.Held.{held, held_of, held-full, IsHeld}

-- The amount that a use has taken is positive, so the order holds it.
used-Held :
    (b : Books) (o : AdOrder) (memo : Option Memo) (r : Db × Entry)
    → IsHeld b
    → o.id ≡ b.next_id
    → is_credit o.payment_source ≡ true
    → is_rejected o.status ≡ false
    → use_credit b.credit o.merchant_id o.credit_amount (some o.id) memo (some o.created_by) ≡ ok r
    → IsHeld (record b { credit = r.0; orders = o ∷ b.orders; next_id = suc b.next_id })
unfolding find_order negate
used-Held b o memo r h fresh paid new e = record {
  consistent =
      Applied-IsConsistent b.credit o.merchant_id _ (negate o.credit_amount) r uses.2 h.consistent;
  sums = λ i. elim (Bool-cases (o.id == i)) [
    | inl x ↦ rw x (
        (rw x at (adds i))
        ∙ ap (λ n. negate o.credit_amount +ℤ n)
            (before i (omega (arith, (==_iff o.id i).0 x, fresh)))
        ∙ +ℤ_comm (negate o.credit_amount) (pos 0)
        ∙ +ℤ_zero_left (negate o.credit_amount)
        ∙ ap negate (sym (held-full o paid new uses.0)))
    | inr x ↦ rw x ((rw x at (adds i)) ∙ h.sums i)
  ];
  unused = λ i l. elim (Bool-cases (o.id == i)) [
    | inl x ↦ absurd (omega (arith, (==_iff o.id i).0 x, fresh, l))
    | inr x ↦ rw x (h.unused i (omega (arith, l)))
  ];
}
  where
    uses : Uses b.credit o.merchant_id o.credit_amount (ok r)
    uses = subst (Uses b.credit o.merchant_id o.credit_amount) e (
        use_credit-Uses b.credit o.merchant_id o.credit_amount (some o.id) memo (some o.created_by))

    adds : Adds b.credit (some o.id) (negate o.credit_amount) (ok r)
    adds = subst (Adds b.credit (some o.id) (negate o.credit_amount)) e (
        use_credit-Adds b.credit o.merchant_id o.credit_amount (some o.id) memo (some o.created_by))

    before : (i : ℕ) → b.next_id ≤ i → order_sum i b.credit.ledger ≡ pos 0
    before i l = h.sums i ∙ ap (λ f. negate (held_of f)) (h.unused i l)

-- An order that the plan pays for holds nothing.
planned-Held :
    (b : Books) (o : AdOrder)
    → IsHeld b
    → o.id ≡ b.next_id
    → held o ≡ pos 0
    → IsHeld (record b { orders = o ∷ b.orders; next_id = suc b.next_id })
unfolding find_order
planned-Held b o h fresh holds = record {
  consistent = h.consistent;
  sums = λ i. elim (Bool-cases (o.id == i)) [
    | inl x ↦ rw x (
        h.sums i
        ∙ ap (λ f. negate (held_of f)) (h.unused i (omega (arith, (==_iff o.id i).0 x, fresh)))
        ∙ ap negate (sym holds))
    | inr x ↦ rw x (h.sums i)
  ];
  unused = λ i l. elim (Bool-cases (o.id == i)) [
    | inl x ↦ absurd (omega (arith, (==_iff o.id i).0 x, fresh, l))
    | inr x ↦ rw x (h.unused i (omega (arith, l)))
  ];
}

abbrev pub Good : Books × AdOrder → Type 0
Good r = IsHeld r.0

store_order-Held :
    (b : Books) (o : AdOrder) (memo : Option Memo) (source : PaymentSource)
    → IsHeld b
    → o.id ≡ b.next_id
    → o.payment_source ≡ source
    → is_rejected o.status ≡ false
    → Returns Good (store_order b o memo source)
unfolding store_order
store_order-Held b o memo by_plan h fresh paid new = planned-Held b o h fresh (rw paid refl)
store_order-Held b o memo by_credit h fresh paid new =
    elim (Result-cases
      (use_credit b.credit o.merchant_id o.credit_amount (some o.id) memo (some o.created_by))) [
        | inl (r, e) ↦ rw (e, store_order) (used-Held b o memo r h fresh (rw paid refl) new e)
        | inr (f, e) ↦ rw (e, store_order) tt
      ]

place_order-Held :
    (b : Books) (shop : Shop) (m user : ℕ) (order_type : OrderType) (source : PaymentSource)
    (cost : ℕ) (detail : Detail) (memo : Option Memo)
    → IsHeld b
    → Returns Good (place_order b shop m user order_type source cost detail memo)
unfolding place_order new_order
place_order-Held b shop m user order_type source cost detail memo h =
    then-Returns Good (assert_credit_available b m source cost) _ (
      store_order-Held b (new_order b shop m user order_type source cost detail) memo source h refl
        refl refl)

pub create_blog_order-Held :
    (b : Books) (shop : Shop) (m user n : ℕ) (keywords : List Text) (memo : Option Memo)
    → IsHeld b
    → Returns Good (create_blog_order b shop m user n keywords memo)
create_blog_order-Held b shop m user n keywords memo h =
    create_blog_order-Placed Good b shop m user n keywords memo
      (place_order-Held b shop m user _ _ _ _ memo h)

pub create_place_traffic_order-Held :
    (b : Books) (shop : Shop) (m user n : ℕ) (keywords : List Text) (memo : Option Memo)
    → IsHeld b
    → Returns Good (create_place_traffic_order b shop m user n keywords memo)
create_place_traffic_order-Held b shop m user n keywords memo h =
    create_place_traffic_order-Placed Good b shop m user n keywords memo
      (place_order-Held b shop m user _ _ _ _ memo h)

pub create_shorts_order-Held :
    (b : Books) (shop : Shop) (m user : ℕ) (q : ShortsRequest) (memo : Option Memo)
    → IsHeld b
    → Returns Good (create_shorts_order b shop m user q memo)
create_shorts_order-Held b shop m user q memo h =
    create_shorts_order-Placed Good b shop m user q memo
      (λ uses platforms tier e. place_order-Held b shop m user _ _ _ _ memo h)
