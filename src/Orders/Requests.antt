-- ===== src/Orders/Requests.antt =====
-- Any sequence of requests about orders and credit. Credit is used and reversed for orders alone.
use beautypos.Prelude.{ℕ, Bool, true, false, if◌then◌else◌, List, [], ◌∷◌, Option, Result, ok, err}
use beautypos.Text.{Text}
use beautypos.Credit.State.{Memo, Dialect}
use beautypos.Credit.History
use beautypos.Credit.History.{
  Request, charging, using_credit, reversing, adjusting, requesting, approving, rejecting, fresh,
}
use beautypos.Orders.State.{AdOrder, Books}
use beautypos.Orders.Create.{Shop, OrderError, create_blog_order, create_place_traffic_order}
use beautypos.Orders.Shorts.{ShortsRequest, create_shorts_order}
use beautypos.Orders.Status.{StatusRequest, change_ad_order_status}

pub data Event : Type 0 where
  ordering_blog ordering_place_traffic : Shop → ℕ → ℕ → ℕ → List Text → Option Memo → Event
  ordering_shorts : Shop → ℕ → ℕ → ShortsRequest → Option Memo → Event
  changing : ℕ → StatusRequest → Event
  crediting : Request → Event

-- The requests to the credit that have a route of their own
abbrev pub is_routed : Request → Bool
is_routed (using_credit m value order memo actor) = false
is_routed (reversing m value order memo actor) = false
is_routed _ = true

abbrev pub after_order : Books → Result OrderError (Books × AdOrder) → Books
after_order b (ok r) = r.0
after_order b (err e) = b

unfoldable pub step : Books → Event → Books
unfolding create_blog_order create_place_traffic_order create_shorts_order change_ad_order_status
step b (ordering_blog shop m user n keywords memo) =
    after_order b (create_blog_order b shop m user n keywords memo)
step b (ordering_place_traffic shop m user n keywords memo) =
    after_order b (create_place_traffic_order b shop m user n keywords memo)
step b (ordering_shorts shop m user q memo) =
    after_order b (create_shorts_order b shop m user q memo)
step b (changing i q) = (change_ad_order_status b i q).0
step b (crediting q) = if is_routed q then record b { credit = History.step b.credit q } else b

unfoldable pub steps : Books → List Event → Books
unfolding step
steps b [] = b
steps b (e ∷ es) = steps (step b e) es

abbrev pub empty_books : Dialect → Books
empty_books d = record { credit = fresh d; orders = []; next_id = 1 }
