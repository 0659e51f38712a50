-- ===== src/Payout/Requests.antt =====
-- Asking for a payout, approving and rejecting it (app/api/owner/misc_routes.py,
-- app/api/sales_routes.py, app/api/admin/payout_routes.py).
use beautypos.Prelude.{
  ℕ, suc, Bool, true, false, not, ltb, ◌==◌, if◌then◌else◌, List, [], ◌∷◌, length, Option, none,
  some, Result, ok, err, ◌>>=◌, ◌>>◌, raise_if,
}
use beautypos.Accounts.{Role, admin, sales, owner}
use beautypos.Payout.Available.{
  PayoutStatus, pending, approved, rejected, PayoutRequest, Tables, merchant_ids_of,
  get_available_payout,
}

pub data PayoutError : Type 0 where
  forbidden not_found above_available already_processed not_covered : PayoutError

-- From the reading of the balance to the new row, which the two routes share.
unfoldable pub add_request :
    Tables → List PayoutRequest → ℕ → Role → ℕ → Result PayoutError (List PayoutRequest)
unfolding get_available_payout
add_request t requests u role amount = do
  raise_if (ltb (get_available_payout t requests u role none) amount) above_available
  ok (
      (record {
        id = suc (length requests);
        requester_user_id = u;
        role = role;
        amount = amount;
        status = pending;
        reviewed_at = none;
        reviewed_by = none;
      })
      ∷ requests)

-- The roles that `require_owner` and `require_sales` let in
abbrev pub is_owner_side : Role → Bool
is_owner_side admin = true
is_owner_side owner = true
is_owner_side _ = false

abbrev pub is_sales_side : Role → Bool
is_sales_side admin = true
is_sales_side sales = true
is_sales_side _ = false

abbrev pub has_none : List ℕ → Bool
has_none [] = true
has_none (m ∷ ms) = false

unfoldable pub create_owner_payout_request :
    Tables → List PayoutRequest → ℕ → Role → ℕ → Result PayoutError (List PayoutRequest)
unfolding add_request merchant_ids_of
create_owner_payout_request t requests u role amount = do
  raise_if (not (is_owner_side role)) forbidden
  raise_if (has_none (merchant_ids_of t u)) not_found
  add_request t requests u role amount

unfoldable pub create_payout_request :
    Tables → List PayoutRequest → ℕ → Role → ℕ → Result PayoutError (List PayoutRequest)
unfolding add_request
create_payout_request t requests u role amount = do
  raise_if (not (is_sales_side role)) forbidden
  add_request t requests u role amount

unfoldable pub find_request : ℕ → List PayoutRequest → Option PayoutRequest
find_request pid [] = none
find_request pid (r ∷ rs) = let rest = find_request pid rs in if r.id == pid then some r else rest

-- The changed row is written back to its place.
unfoldable pub review : ℕ → PayoutStatus → ℕ → ℕ → List PayoutRequest → List PayoutRequest
review pid status now reviewer [] = []
review pid status now reviewer (r ∷ rs) =
    let rest = review pid status now reviewer rs in
    if r.id == pid
    then (record r { status = status; reviewed_at = some now; reviewed_by = some reviewer }) ∷ rs
    else r ∷ rest

abbrev pub is_pending : PayoutStatus → Bool
is_pending pending = true
is_pending _ = false

abbrev pub or_404 : Option PayoutRequest → Result PayoutError PayoutRequest
or_404 none = err not_found
or_404 (some r) = ok r

unfoldable pub approve_payout :
    Tables → List PayoutRequest → ℕ → ℕ → ℕ → Result PayoutError (List PayoutRequest)
unfolding find_request review get_available_payout
approve_payout t requests pid now reviewer = do
  pr ← or_404 (find_request pid requests)
  raise_if (not (is_pending pr.status)) already_processed
  raise_if
      (ltb (get_available_payout t requests pr.requester_user_id pr.role (some pr.id)) pr.amount)
      not_covered
  ok (review pid approved now reviewer requests)

unfoldable pub reject_payout :
    List PayoutRequest → ℕ → ℕ → ℕ → Result PayoutError (List PayoutRequest)
unfolding find_request review
reject_payout requests pid now reviewer = do
  pr ← or_404 (find_request pid requests)
  raise_if (not (is_pending pr.status)) already_processed
  ok (review pid rejected now reviewer requests)
