-- ===== src/Dispatch/Gate.antt =====
-- The check of the day's plan against the balance of points (`_apply_balance_gate`, `_point_cost` and
-- the end of `build_plan` of app/services/ad_dispatch.py). Points are counted in hundredths.
use beautypos.Prelude.{
  ℕ, ◌+◌, ◌*◌, Bool, true, false, if◌then◌else◌, List, [], ◌∷◌, ◌++◌, map, Option, none, some,
  where_, length, sum,
}
use beautypos.Prelude.Int.{ℤ, pos, ltb_ℤ}
use beautypos.Text.{Text, codes}
use beautypos.Calendar.{Date}
use beautypos.Dispatch.State.{Row, low_balance, points_short}
use beautypos.Dispatch.Config.{Setting, chosen_merchants}
use beautypos.Dispatch.Preview.{Item, Mission, Verdict, dispatch, skip, items_of}

-- What `fetch_budget` has read; `by_mission` has the supply prices by category and action.
pub record Budget : Type 0 where
  pub enforce : Bool
  pub error : Option Text
  pub balance : Option ℤ
  pub by_mission : Option (Text → Option ℕ)

pub data Basis : Type 0 where
  supply_price sale_price : Basis

pub record BalanceInfo : Type 0 where
  pub balance_checked : Bool
  pub balance : Option ℤ
  pub required_points : Option ℕ
  pub balance_basis : Option Basis
  pub balance_error : Option Text
  pub is_low : Bool

abbrev pub shown : Option Text → Text
shown none = codes "None"
shown (some s) = s

abbrev pub mission_key : Option Mission → Text
mission_key none = codes "None:None"
mission_key (some c) = shown c.mission_category ++ (codes ":" ++ shown c.mission_action)

abbrev pub times : Option ℕ → ℕ → Option ℕ
times none n = none
times (some price) n = some (price * n)

unfoldable pub point_cost : Option (Text → Option ℕ) → Item → Option ℕ
point_cost none i = none
point_cost (some price) i = times (price (mission_key i.mission)) i.target

abbrev pub is_dispatch : Verdict → Bool
is_dispatch dispatch = true
is_dispatch (skip reason) = false

unfoldable pub to_dispatch : List Item → List Item
to_dispatch items = where_ (λ i. is_dispatch i.verdict) items

abbrev pub add_cost : Option ℕ → Option ℕ → Option ℕ
add_cost (some a) (some b) = some (a + b)
add_cost _ _ = none

-- The sum of the costs, if all of them are known
unfoldable pub supply_total : Option (Text → Option ℕ) → List Item → Option ℕ
unfolding point_cost
supply_total prices [] = some 0
supply_total prices (i ∷ items) = add_cost (point_cost prices i) (supply_total prices items)

abbrev pub sale_total : List Item → ℕ
sale_total items = sum (map (λ (i : Item). i.est_cost) items)

unfoldable pub required_of : Option ℕ → List Item → ℕ × Basis
required_of (some cost) targets = (cost, supply_price)
required_of none targets = (sale_total targets, sale_price)

unfoldable pub required : Option (Text → Option ℕ) → List Item → ℕ × Basis
unfolding supply_total required_of
required prices targets = required_of (supply_total prices targets) targets

-- An entry that was to go out is held back.
abbrev pub hold_back : ℕ → ℤ → Item → Item
hold_back needed balance i =
    if is_dispatch i.verdict
    then (record i {
      verdict = skip low_balance;
      validation_error = some (points_short needed balance);
    })
    else i

abbrev pub no_info : BalanceInfo
no_info = record {
  balance_checked = false;
  balance = none;
  required_points = none;
  balance_basis = none;
  balance_error = none;
  is_low = false;
}

-- The end of the gate, for a balance that is known and the points that the targets need
unfoldable pub decide : Bool → List Item → ℤ → ℕ × Basis → BalanceInfo → List Item × BalanceInfo
decide enforce items balance (needed, basis) info =
    let checked = record info {
      balance_checked = true;
      required_points = some needed;
      balance_basis = some basis;
    } in
    let low = record checked { is_low = true } in
    if ltb_ℤ balance (pos needed)
    then ((if enforce then map (hold_back needed balance) items else items), low)
    else (items, checked)

-- The entries that are to go out come last.
unfoldable pub known_balance :
    Budget → List Item → ℤ → BalanceInfo → List Item → List Item × BalanceInfo
unfolding required decide
known_balance b items balance info [] = (items, (record info { balance_checked = true }))
known_balance b items balance info (i ∷ is) =
    decide b.enforce items balance (required b.by_mission (i ∷ is)) info

abbrev pub read_info : Budget → BalanceInfo
read_info b = record no_info { balance_error = b.error; balance = b.balance }

unfoldable pub with_balance : Budget → List Item → Option ℤ → List Item × BalanceInfo
unfolding known_balance to_dispatch
with_balance b items none = (items, read_info b)
with_balance b items (some balance) =
    known_balance b items balance (read_info b) (to_dispatch items)

unfoldable pub apply_balance_gate : List Item → Option Budget → List Item × BalanceInfo
unfolding with_balance
apply_balance_gate items none = (items, no_info)
apply_balance_gate items (some b) = with_balance b items b.balance

pub record DayPlan : Type 0 where
  pub date : Date
  pub dry_run : Bool
  pub integration_enabled : Bool
  pub items : List Item
  pub dispatch_count : ℕ
  pub total_count : ℕ
  pub est_total_cost : ℕ
  pub info : BalanceInfo

unfoldable pub build_plan : Setting → List Row → Date → Option ℕ → Option Budget → DayPlan
unfolding items_of apply_balance_gate to_dispatch
build_plan s rows day only budget =
    let gated = apply_balance_gate (items_of s rows day (chosen_merchants s only)) budget in
    let sent = to_dispatch gated.0 in
    record {
      date = day;
      dry_run = s.dry_run_enabled;
      integration_enabled = s.integration_enabled;
      items = gated.0;
      dispatch_count = length sent;
      total_count = sum (map (λ (i : Item). i.target) sent);
      est_total_cost = sale_total sent;
      info = gated.1;
    }
