-- ===== src/Payout/Examples.antt =====
-- An owner's payouts, and the theorem at them.
use beautypos.Prelude.{ℕ, suc, ◌≡◌, refl, true, List, [], ◌∷◌, map, none, some, arith}
use beautypos.Prelude.Int.{pos, negsuc, ◌+ℤ◌, ◌-ℤ◌}
use beautypos.Accounts.{Role, admin, owner, sales}
use beautypos.Payout.Available.{Tables, pending, approved, rejected, reserved}
use beautypos.Payout.Requests.{
  create_owner_payout_request, create_payout_request, approve_payout, reject_payout,
}
use beautypos.Payout.Covered.{Covered}
use beautypos.Payout.History.{Call, owner_asks, sales_asks, approves, rejects, calls, calls-Covered}

-- User 5 owns the shop 7, user 6 sells for it.
abbrev tables : Tables
tables = record {
  settlements =
      (record {
        merchant_id = 7;
        net_amount = pos 90000;
        commission_amount = pos 900;
        sales_manager_user_id = some 6;
      })
      ∷ (record {
        merchant_id = 7;
        net_amount = negsuc 9999;
        commission_amount = pos 100;
        sales_manager_user_id = none;
      })
      ∷ [];
  merchants = (record { id = 7; owner_user_id = 5 }) ∷ [];
  assignments = (record { merchant_id = 7; sales_manager_user_id = 6; is_active = true }) ∷ [];
}

abbrev roles : ℕ → Role
roles n = elim n [ suc (suc (suc (suc (suc (suc k))))) ↦ sales | suc k ↦ owner | _ ↦ admin ]

-- The second request asks for more than is left until the first is rejected.
abbrev requested : List Call
requested =
    owner_asks 5 60000
    ∷ owner_asks 5 30000
    ∷ rejects 1 10 1
    ∷ owner_asks 5 30000
    ∷ sales_asks 6 1000
    ∷ approves 2 11 1
    ∷ []

no_requests-Covered : Covered tables roles []
unfolding reserved
no_requests-Covered = record { covered = λ u. omega arith }

calls-Covered_example : Covered tables roles (calls tables roles [] requested)
calls-Covered_example = calls-Covered tables roles [] requested no_requests-Covered

statuses :
    map (λ r. r.status) (calls tables roles [] requested) ≡ pending ∷ approved ∷ rejected ∷ []
unfolding calls create_owner_payout_request create_payout_request approve_payout reject_payout ◌+ℤ◌
    ◌-ℤ◌
statuses = refl
