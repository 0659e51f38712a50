-- ===== src/Orders/History.antt =====
-- After any sequence of requests every order holds what it is to hold.
use beautypos.Prelude.{
  ℕ, ◌≡◌, refl, ◌∙◌, inl, inr, Bool-cases, List, [], ◌∷◌, Result, Returns, ok, err,
}
use beautypos.Prelude.Int.{negate}
use beautypos.Credit.State.{Dialect}
use beautypos.Credit.History.{step-IsConsistent, fresh-IsConsistent}
use beautypos.Orders.State.{AdOrder, Books, find_order}
use beautypos.Orders.Create.{OrderError}
use beautypos.Orders.Status.{StatusError, order_sum}
use beautypos.Orders.Requests.{
  Event, ordering_blog, ordering_place_traffic, ordering_shorts, changing, crediting, is_routed,
  after_order, step, steps, empty_books,
}
use beautypos.Orders.Others.{step-Keeps}
use beautypos.Orders.Held.{held_of, IsHeld}
use beautypos.Orders.Ordered.{
  Good, create_blog_order-Held, create_place_traffic_order-Held, create_shorts_order-Held,
}
use beautypos.Orders.Changed.{Safe, change_ad_order_status-Safe}

after-Held :
    (b : Books) (r : Result OrderError (Books × AdOrder))
    → Returns Good r
    → IsHeld b
    → IsHeld (after_order b r)
after-Held b (ok r) g h = g
after-Held b (err e) g h = h

Safe-Held : (b : Books) (r : Books × Result StatusError AdOrder) → Safe b r → IsHeld r.0
Safe-Held b (b', ok o) s = s
Safe-Held b (b', err e) s = s.0

pub step-Held : (b : Books) (e : Event) → IsHeld b → IsHeld (step b e)
unfolding step
step-Held b (ordering_blog shop m user n keywords memo) h =
    after-Held b _ (create_blog_order-Held b shop m user n keywords memo h) h
step-Held b (ordering_place_traffic shop m user n keywords memo) h =
    after-Held b _ (create_place_traffic_order-Held b shop m user n keywords memo h) h
step-Held b (ordering_shorts shop m user q memo) h =
    after-Held b _ (create_shorts_order-Held b shop m user q memo h) h
step-Held b (changing i q) h = Safe-Held b _ (change_ad_order_status-Safe b i q h)
step-Held b (crediting q) h = elim (Bool-cases (is_routed q)) [
  | inr x ↦ rw x h
  | inl x ↦ rw x (record {
    consistent = step-IsConsistent b.credit q h.consistent;
    sums = λ i. step-Keeps b.credit q x i ∙ h.sums i;
    unused = h.unused;
  })
]

pub steps-Held : (b : Books) (es : List Event) → IsHeld b → IsHeld (steps b es)
unfolding steps
steps-Held b [] h = h
steps-Held b (e ∷ es) h = steps-Held (step b e) es (step-Held b e h)

pub empty-Held : (d : Dialect) → IsHeld (empty_books d)
unfolding find_order order_sum negate
empty-Held d = record { consistent = fresh-IsConsistent d; sums = λ i. refl; unused = λ i l. refl }

-- After any sequence of orders, changes of state and requests to the credit, whether their commits
-- succeed or fail, the entries of the ledger for an order add up to its price, taken, if the credit
-- pays for it and it is not rejected, and to nothing otherwise, also for a number that is no order's.
pub steps-order_sum :
    (d : Dialect) (es : List Event) (i : ℕ)
    → order_sum i (steps (empty_books d) es).credit.ledger
      ≡ negate (held_of (find_order i (steps (empty_books d) es).orders))
steps-order_sum d es = (steps-Held (empty_books d) es (empty-Held d)).sums
