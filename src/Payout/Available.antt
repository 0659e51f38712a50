-- ===== src/Payout/Available.antt =====
-- What a user may draw (`get_available_payout` of app/services/settlement_service.py). Amounts count
-- hundredths of a won, the unit of the columns.
use beautypos.Prelude.{
  ℕ, ◌+◌, Bool, true, false, ◌&&◌, not, ◌==◌, if◌then◌else◌, List, [], ◌∷◌, map, Option, none, some,
  where_, any,
}
use beautypos.Prelude.Int.{ℤ, pos, pos_part, ◌+ℤ◌, ◌-ℤ◌}
use beautypos.Accounts.{Role, admin, sales, owner, designer}

pub data PayoutStatus : Type 0 where
  pending approved rejected : PayoutStatus

-- `PayoutRequest`; the amount that the schema lets through is positive.
pub record PayoutRequest : Type 0 where
  pub id : ℕ
  pub requester_user_id : ℕ
  pub role : Role
  pub amount : ℕ
  pub status : PayoutStatus
  pub reviewed_at : Option ℕ
  pub reviewed_by : Option ℕ

pub record Settlement : Type 0 where
  pub merchant_id : ℕ
  pub net_amount : ℤ
  pub commission_amount : ℤ
  pub sales_manager_user_id : Option ℕ

pub record Merchant : Type 0 where
  pub id : ℕ
  pub owner_user_id : ℕ

pub record SalesAssignment : Type 0 where
  pub merchant_id : ℕ
  pub sales_manager_user_id : ℕ
  pub is_active : Bool

-- The tables that the sums read.
pub record Tables : Type 0 where
  pub settlements : List Settlement
  pub merchants : List Merchant
  pub assignments : List SalesAssignment

abbrev pub is_in : ℕ → List ℕ → Bool
is_in n ids = any (λ i. i == n) ids

abbrev pub total : (Settlement → Bool) → (Settlement → ℤ) → List Settlement → ℤ
total p f [] = pos 0
total p f (s ∷ ss) = let rest = total p f ss in if p s then f s +ℤ rest else rest

unfoldable pub merchant_ids_of : Tables → ℕ → List ℕ
merchant_ids_of t u = map (λ m. m.id) (where_ (λ m. m.owner_user_id == u) t.merchants)

unfoldable pub assigned_ids_of : Tables → ℕ → List ℕ
assigned_ids_of t u =
    map (λ a. a.merchant_id)
      (where_ (λ a. (a.sales_manager_user_id == u) && a.is_active) t.assignments)

-- The snapshot of the manager decides, and without one the assignment of today.
unfoldable pub is_commission_of : ℕ → List ℕ → Settlement → Bool
is_commission_of u assigned s = elim s.sales_manager_user_id [
  | some v ↦ v == u
  | none ↦ is_in s.merchant_id assigned
]

-- What the user has earned; `none` where the user draws nothing by this way.
unfoldable pub earned : Tables → ℕ → Role → Option ℤ
unfolding merchant_ids_of assigned_ids_of is_commission_of
earned t u owner = elim (merchant_ids_of t u) [
  | [] ↦ none
  | m ∷ ms ↦ some (total (λ s. is_in s.merchant_id (m ∷ ms)) (λ s. s.net_amount) t.settlements)
]
earned t u sales =
    some (total (is_commission_of u (assigned_ids_of t u)) (λ s. s.commission_amount) t.settlements)
earned t u admin = none
earned t u designer = none

-- `PAYOUT_RESERVED_STATUSES`
abbrev pub is_reserving : PayoutStatus → Bool
is_reserving pending = true
is_reserving approved = true
is_reserving rejected = false

abbrev pub is_excluded : Option ℕ → ℕ → Bool
is_excluded none id = false
is_excluded (some i) id = id == i

unfoldable pub reserved : ℕ → Option ℕ → List PayoutRequest → ℕ
reserved u exclude [] = 0
reserved u exclude (r ∷ rs) =
    let rest = reserved u exclude rs in
    if (r.requester_user_id == u) && is_reserving r.status && not (is_excluded exclude r.id)
    then r.amount + rest
    else rest

-- `available if available > 0 else Decimal("0")`
unfoldable pub get_available_payout : Tables → List PayoutRequest → ℕ → Role → Option ℕ → ℕ
unfolding earned reserved
get_available_payout t requests u role exclude = elim (earned t u role) [
  | none ↦ 0
  | some e ↦ pos_part (e -ℤ pos (reserved u exclude requests))
]
