-- ===== src/Orders/Status.antt =====
-- Changing the state of an order, with the credit that it holds (`_change_ad_order_status` of
-- app/api/admin/ad_routes.py, and app/api/admin/_helpers.py).
use beautypos.Prelude.{
  ℕ, Bool, false, ◌&&◌, not, ◌==◌, if◌then◌else◌, List, [], ◌∷◌, ◌++◌, Option, none, some, any,
  Result, ok, err,
}
use beautypos.Prelude.Int.{ℤ, pos, ◌+ℤ◌, negate, ltb_ℤ, leb_ℤ}
use beautypos.Credit.State
use beautypos.Credit.State.{Entry, Memo, balance_of}
use beautypos.Credit.Operations
use beautypos.Credit.Operations.{use_credit, reverse_use}
use beautypos.Text.{Text, codes, or_empty}
use beautypos.Dispatch.State.{
  OrderStatus, order_requested, order_reviewing, order_running, order_done, order_rejected,
}
use beautypos.Orders.State.{AdOrder, Books, is_rejected, is_credit, find_order, write_order}

pub data StatusError : Type 0 where
  no_order invalid_status no_transition commit_failed : StatusError
  credit_error : Operations.Error → StatusError

abbrev pub status_number : OrderStatus → ℕ
status_number order_requested = 0
status_number order_reviewing = 1
status_number order_running = 2
status_number order_done = 3
status_number order_rejected = 4

-- `AD_ORDER_TRANSITIONS`
unfoldable pub allowed_ad_order_statuses : OrderStatus → List OrderStatus
allowed_ad_order_statuses order_requested = order_reviewing ∷ order_rejected ∷ []
allowed_ad_order_statuses order_reviewing = order_running ∷ order_rejected ∷ []
allowed_ad_order_statuses order_running = order_done ∷ order_rejected ∷ []
allowed_ad_order_statuses order_done = []
allowed_ad_order_statuses order_rejected = order_reviewing ∷ []

unfoldable pub is_allowed : OrderStatus → OrderStatus → Bool
unfolding allowed_ad_order_statuses
is_allowed current requested =
    any (λ s. status_number s == status_number requested) (allowed_ad_order_statuses current)

abbrev pub is_of_order : ℕ → Option ℕ → Bool
is_of_order i none = false
is_of_order i (some j) = j == i

-- The ledger's total of an order
unfoldable pub order_sum : ℕ → List Entry → ℤ
order_sum i [] = pos 0
order_sum i (e ∷ es) =
    if is_of_order i e.ad_order_id then e.amount +ℤ order_sum i es else order_sum i es

unfoldable pub order_credit_outstanding : State.Db → ℕ → ℤ
unfolding order_sum
order_credit_outstanding db i =
    let outstanding = negate (order_sum i db.ledger) in
    if ltb_ℤ (pos 0) outstanding then outstanding else pos 0

-- What a failed commit has to undo: a return or a use of an amount
pub data Undo : Type 0 where
  nothing : Undo
  use_again give_back : ℤ → Undo

abbrev pub returned :
    Undo → Result Operations.Error (State.Db × Entry) → Result StatusError (State.Db × Undo)
returned undo (err e) = err (credit_error e)
returned undo (ok r) = ok (r.0, undo)

unfoldable pub sync_order_credit :
    State.Db → AdOrder → OrderStatus → ℕ → Option Memo → Result StatusError (State.Db × Undo)
unfolding order_credit_outstanding
sync_order_credit db o new_status actor memo =
    if not (is_credit o.payment_source)
    then ok (db, nothing)
    else if leb_ℤ o.credit_amount (pos 0)
    then ok (db, nothing)
    else let outstanding = order_credit_outstanding db o.id in
      if is_rejected new_status && ltb_ℤ (pos 0) outstanding
      then returned (use_again outstanding)
          (reverse_use db o.merchant_id outstanding (some o.id) memo (some actor))
      else if is_rejected o.status && (not (is_rejected new_status) && leb_ℤ outstanding (pos 0))
      then returned (give_back o.credit_amount)
          (use_credit db o.merchant_id o.credit_amount (some o.id) memo (some actor))
      else ok (db, nothing)

abbrev pub kept_db : State.Db → Result Operations.Error (State.Db × Entry) → State.Db
kept_db db (ok r) = r.0
kept_db db (err e) = db

-- The function that `_sync_order_credit` returns. If it raises itself, the tables stay as they are.
unfoldable pub undo_credit : State.Db → AdOrder → ℕ → Option Memo → Undo → State.Db
undo_credit db o actor memo nothing = db
undo_credit db o actor memo (use_again amount) =
    kept_db db (use_credit db o.merchant_id amount (some o.id) memo (some actor))
undo_credit db o actor memo (give_back amount) =
    kept_db db (reverse_use db o.merchant_id amount (some o.id) memo (some actor))

-- The state is a text that may be none of the five. With a time stamp the administrator's memo is
-- appended to the one before. Whether the commit succeeds is given.
pub record StatusRequest : Type 0 where
  pub new_status : Option OrderStatus
  pub admin : ℕ
  pub admin_memo : Option Text
  pub append_memo : Option Text
  pub memo : Option Memo
  pub commits : Bool

abbrev pub stamped : Option Text → Option Text → Text → Text
stamped none before memo = memo
stamped (some stamp) before memo = or_empty before ++ codes "\n[" ++ stamp ++ codes " KST] " ++ memo

-- `if admin_memo:`
abbrev pub new_memo : Option Text → Option Text → Text → Option Text
new_memo stamp before [] = before
new_memo stamp before (c ∷ memo) = some (stamped stamp before (c ∷ memo))

abbrev pub changed_order : AdOrder → OrderStatus → StatusRequest → AdOrder
changed_order o s q = record o {
  status = s;
  assigned_admin_id = some q.admin;
  admin_memo = new_memo q.append_memo o.admin_memo (or_empty q.admin_memo);
}

-- The state changes, and if the commit fails the credit is put back.
unfoldable pub finish_change :
    Books
    → AdOrder
    → OrderStatus
    → StatusRequest
    → State.Db × Undo
    → Books × Result StatusError AdOrder
unfolding undo_credit
finish_change b o s q (credit, undo) =
    if q.commits
    then (
      record b { credit = credit; orders = write_order (changed_order o s q) b.orders },
      ok (changed_order o s q),
    )
    else (record b { credit = undo_credit credit o q.admin q.memo undo }, err commit_failed)

abbrev pub change_synced :
    Books
    → AdOrder
    → OrderStatus
    → StatusRequest
    → Result StatusError (State.Db × Undo)
    → Books × Result StatusError AdOrder
change_synced b o s q (err e) = (b, err e)
change_synced b o s q (ok synced) = finish_change b o s q synced

unfoldable pub change_found :
    Books → Option AdOrder → Option OrderStatus → StatusRequest → Books × Result StatusError AdOrder
unfolding is_allowed sync_order_credit finish_change
change_found b none s q = (b, err no_order)
change_found b (some o) none q = (b, err invalid_status)
change_found b (some o) (some s) q =
    if not (is_allowed o.status s)
    then (b, err no_transition)
    else change_synced b o s q (sync_order_credit b.credit o s q.admin q.memo)

-- `_change_ad_order_status`
unfoldable pub change_ad_order_status :
    Books → ℕ → StatusRequest → Books × Result StatusError AdOrder
unfolding change_found find_order
change_ad_order_status b i q = change_found b (find_order i b.orders) q.new_status q
