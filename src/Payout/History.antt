-- ===== src/Payout/History.antt =====
-- Any sequence of calls of the routes for payouts (app/api/admin/payout_routes.py,
-- app/api/owner/misc_routes.py, app/api/sales_routes.py).
use beautypos.Prelude.{ℕ, List, [], ◌∷◌, Result, ok, err, Returns}
use beautypos.Accounts.{Role}
use beautypos.Payout.Available.{PayoutRequest, Tables}
use beautypos.Payout.Requests.{
  PayoutError, create_owner_payout_request, create_payout_request, approve_payout, reject_payout,
}
use beautypos.Payout.Covered.{
  Covered, approve_payout-Covered, reject_payout-Covered, create_owner_payout_request-Covered,
  create_payout_request-Covered,
}

-- A call of one of the four routes.
pub data Call : Type 0 where
  owner_asks sales_asks : ℕ → ℕ → Call
  approves rejects : ℕ → ℕ → ℕ → Call

-- A call that raises leaves the table.
abbrev kept : List PayoutRequest → Result PayoutError (List PayoutRequest) → List PayoutRequest
kept requests (ok requests') = requests'
kept requests (err e) = requests

unfoldable pub call : Tables → (ℕ → Role) → List PayoutRequest → Call → List PayoutRequest
call t roles rs (owner_asks u amount) =
    kept rs (create_owner_payout_request t rs u (roles u) amount)
call t roles rs (sales_asks u amount) = kept rs (create_payout_request t rs u (roles u) amount)
call t roles rs (approves pid now by) = kept rs (approve_payout t rs pid now by)
call t roles rs (rejects pid now by) = kept rs (reject_payout rs pid now by)

unfoldable pub calls : Tables → (ℕ → Role) → List PayoutRequest → List Call → List PayoutRequest
unfolding call
calls t roles rs [] = rs
calls t roles rs (c ∷ cs) = calls t roles (call t roles rs c) cs

kept-Covered :
    (t : Tables) (roles : ℕ → Role) (requests : List PayoutRequest)
    (r : Result PayoutError (List PayoutRequest))
    → Covered t roles requests
    → Returns (Covered t roles) r
    → Covered t roles (kept requests r)
kept-Covered t roles requests (ok x) c h = h
kept-Covered t roles requests (err x) c h = c

call-Covered :
    (t : Tables) (roles : ℕ → Role) (rs : List PayoutRequest) (c : Call)
    → Covered t roles rs
    → Covered t roles (call t roles rs c)
unfolding call
call-Covered t roles rs (owner_asks u amount) h =
    kept-Covered t roles rs _ h (create_owner_payout_request-Covered t roles rs u amount h)
call-Covered t roles rs (sales_asks u amount) h =
    kept-Covered t roles rs _ h (create_payout_request-Covered t roles rs u amount h)
call-Covered t roles rs (approves pid now by) h =
    kept-Covered t roles rs _ h (approve_payout-Covered t roles rs pid now by h)
call-Covered t roles rs (rejects pid now by) h =
    kept-Covered t roles rs _ h (reject_payout-Covered t roles rs pid now by h)

-- After any sequence of requests, approvals and rejections, with the settlements, the shops, the
-- assignments and the roles unchanged, the pending and approved payouts of every user together are at
-- most what the user has earned, and nothing where the user has a loss or draws nothing.
pub calls-Covered :
    (t : Tables) (roles : ℕ → Role) (rs : List PayoutRequest) (cs : List Call)
    → Covered t roles rs
    → Covered t roles (calls t roles rs cs)
unfolding calls
calls-Covered t roles rs [] h = h
calls-Covered t roles rs (c ∷ cs) h =
    calls-Covered t roles (call t roles rs c) cs (call-Covered t roles rs c h)
