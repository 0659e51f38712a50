-- ===== src/Settlement/Distribution.antt =====
-- The distribution of the takings between the designers and the owner
-- (app/services/settlement_service.py). The copies of a value under its older names are left out.
use beautypos.Prelude.{
  ℕ, if◌then◌else◌, List, [], ◌∷◌, ◌++◌, map, Option, none, some, length, Result, ok, ◌>>=◌,
}
use beautypos.Prelude.Int.{ℤ, pos, ◌+ℤ◌, ◌-ℤ◌, ltb_ℤ}
use beautypos.Text.{Text}
use beautypos.Settlement.Floats.{Floats}
use beautypos.Settlement.Fees.{Fees, FeeError, compute_fee_distribution}
use beautypos.Settlement.Rates.{
  get_or, bind, Policies, Rates, active_assignment, get_effective_fee_rates,
}
use beautypos.Settlement.Allocation.{sum_ℤ, allocate_with_remainder}
use beautypos.Settlement.Grouping.{
  Staff, Transaction, Grouping, AllocUnit, group_txns, gross_of, alloc_units,
}

-- `net_alloc[-1] += delta`, where the list is not empty
unfoldable pub add_to_last : ℤ → List ℤ → List ℤ
add_to_last delta [] = []
add_to_last delta (n ∷ []) = (n +ℤ delta) ∷ []
add_to_last delta (n ∷ m ∷ ns) = n ∷ add_to_last delta (m ∷ ns)

pub record UnassignedRow : Type 0 where
  pub gross : ℤ
  pub count : ℕ
  pub merchant_fee : ℤ
  pub pg_cost : ℤ
  pub platform_income : ℤ
  pub sales_commission : ℤ
  pub company_profit : ℤ
  pub net_payout : ℤ
  pub owner_amount : ℤ

module _ (fl : Floats) where
  open fl use {Float, of_int, decimal, mul, round, int}

  -- `[int(g) - mf for (_, _, g), mf in zip(alloc_units, mf_alloc)]`
  unfoldable pub net_of_units : List (AllocUnit fl) → List ℤ → List ℤ
  net_of_units (u ∷ us) (mf ∷ mfs) = (int u.gross -ℤ mf) ∷ net_of_units us mfs
  net_of_units [] mfs = []
  net_of_units (u ∷ us) [] = []

  unfoldable pub net_alloc : ℤ → List (AllocUnit fl) → List ℤ → List ℤ
  unfolding net_of_units
  net_alloc net_payout units mf_alloc =
      let nets = net_of_units units mf_alloc in add_to_last (net_payout -ℤ sum_ℤ nets) nets

  -- What one turn of the loop reads at its index.
  pub record Part : Type 0 where
    pub unit : AllocUnit fl
    pub merchant_fee : ℤ
    pub pg_cost : ℤ
    pub sales_commission : ℤ
    pub net_payout : ℤ

  unfoldable pub parts : List (AllocUnit fl) → List ℤ → List ℤ → List ℤ → List ℤ → List Part
  parts (u ∷ us) (mf ∷ mfs) (pg ∷ pgs) (comm ∷ comms) (net ∷ nets) =
      (record {
        unit = u;
        merchant_fee = mf;
        pg_cost = pg;
        sales_commission = comm;
        net_payout = net;
      })
      ∷ parts us mfs pgs comms nets
  parts _ _ _ _ _ = []

  pub record DesignerRow : Type 0 where
    pub staff_id : ℕ
    pub name : Text
    pub staff_code : Option Text
    pub share_rate : Float
    pub gross : ℤ
    pub merchant_fee : ℤ
    pub pg_cost : ℤ
    pub platform_income : ℤ
    pub sales_commission : ℤ
    pub company_profit : ℤ
    pub net_payout : ℤ
    pub designer_amount : ℤ
    pub owner_amount : ℤ
    pub count : ℕ

  pub record Loop : Type 0 where
    pub designers : List DesignerRow
    pub designer_total : ℤ
    pub owner_amount : ℤ
    pub unassigned : UnassignedRow

  unfoldable pub designer_row : Staff fl → Part → DesignerRow
  designer_row s p =
      let share_rate = get_or s.share_rate (decimal 5 1) in
      let designer = round (mul (of_int p.net_payout) share_rate) in
      let platform = p.merchant_fee -ℤ p.pg_cost in
      record {
        staff_id = s.id;
        name = s.name;
        staff_code = s.staff_code;
        share_rate = share_rate;
        gross = int p.unit.gross;
        merchant_fee = p.merchant_fee;
        pg_cost = p.pg_cost;
        platform_income = platform;
        sales_commission = p.sales_commission;
        company_profit = platform -ℤ p.sales_commission;
        net_payout = p.net_payout;
        designer_amount = designer;
        owner_amount = p.net_payout -ℤ designer;
        count = length p.unit.txns;
      }

  -- `un_row.update(...)`
  unfoldable pub update_unassigned : UnassignedRow → Part → UnassignedRow
  update_unassigned row p =
      let platform = p.merchant_fee -ℤ p.pg_cost in
      record row {
        merchant_fee = p.merchant_fee;
        pg_cost = p.pg_cost;
        platform_income = platform;
        sales_commission = p.sales_commission;
        company_profit = platform -ℤ p.sales_commission;
        net_payout = p.net_payout;
        owner_amount = p.net_payout;
      }

  unfoldable pub step : Loop → Part → Loop
  unfolding designer_row update_unassigned
  step l p = elim (p.unit.staff) [
    | none ↦ record l {
      owner_amount = l.owner_amount +ℤ p.net_payout;
      unassigned = update_unassigned l.unassigned p;
    }
    | some s ↦
        let row = designer_row s p in
        record l {
          designers = l.designers ++ (row ∷ []);
          designer_total = l.designer_total +ℤ row.designer_amount;
          owner_amount = l.owner_amount +ℤ row.owner_amount;
        }
  ]

  unfoldable pub run : Loop → List Part → Loop
  run l [] = l
  run l (p ∷ ps) = run (step l p) ps

  unfoldable pub start : List (Transaction fl) → Loop
  unfolding gross_of
  start unassigned_txns = record {
    designers = [];
    designer_total = pos 0;
    owner_amount = pos 0;
    unassigned = record {
      gross = int (gross_of fl unassigned_txns);
      count = length unassigned_txns;
      merchant_fee = pos 0;
      pg_cost = pos 0;
      platform_income = pos 0;
      sales_commission = pos 0;
      company_profit = pos 0;
      net_payout = pos 0;
      owner_amount = pos 0;
    };
  }

  -- `sorted(designers, key=lambda d: d["gross"], reverse=True)`, which keeps the order of equals
  unfoldable pub insert_row : DesignerRow → List DesignerRow → List DesignerRow
  insert_row d [] = d ∷ []
  insert_row d (e ∷ es) =
      let rest = insert_row d es in if ltb_ℤ d.gross e.gross then e ∷ rest else d ∷ e ∷ es

  unfoldable pub by_gross : List DesignerRow → List DesignerRow
  by_gross [] = []
  by_gross (d ∷ ds) = insert_row d (by_gross ds)

  pub record Distribution : Type 0 where
    pub gross : ℤ
    pub totals : Fees fl
    pub owner_amount : ℤ
    pub designer_total : ℤ
    pub sales_commission_rate : Float
    pub designers : List DesignerRow
    pub unassigned : UnassignedRow

  -- The loop on the units, with the totals split between them.
  unfoldable pub split_between : List (AllocUnit fl) → List (Transaction fl) → Fees fl → Loop
  unfolding net_alloc parts start run
  split_between units unassigned_txns totals =
      let weights = map (λ u. u.gross) units in
      let mf_alloc = allocate_with_remainder fl totals.merchant_fee weights in
      let pg_alloc = allocate_with_remainder fl totals.pg_cost weights in
      let comm_alloc = allocate_with_remainder fl totals.sales_commission weights in
      let nets = net_alloc totals.net_payout units mf_alloc in
      run (start unassigned_txns) (parts units mf_alloc pg_alloc comm_alloc nets)

  unfoldable pub distribute : Grouping fl → Float → Float → Fees fl → Distribution
  unfolding alloc_units split_between by_gross
  distribute grouping total_gross commission_rate totals =
      let l = split_between (alloc_units fl grouping) grouping.unassigned_txns totals in
      record {
        gross = int total_gross;
        totals = totals;
        owner_amount = l.owner_amount;
        designer_total = l.designer_total;
        sales_commission_rate = commission_rate;
        designers = by_gross l.designers;
        unassigned = l.unassigned;
      }

  -- The rates of a shop with its active assignment's manager.
  unfoldable pub rates_of : Policies fl → ℕ → Rates fl
  unfolding active_assignment get_effective_fee_rates
  rates_of db merchant_id =
      let assign = active_assignment fl db merchant_id in
      get_effective_fee_rates fl db (some merchant_id)
        (bind assign (λ a. some a.sales_manager_user_id))

  unfoldable pub compute_distribution :
      Policies fl → List (Staff fl) → ℕ → List (Transaction fl) → Result FeeError Distribution
  unfolding group_txns gross_of rates_of distribute compute_fee_distribution
  compute_distribution db staff_rows merchant_id txns = do
    let rates = rates_of db merchant_id
    let grouping = group_txns fl staff_rows (record { groups = []; unassigned_txns = [] }) txns
    let total_gross = gross_of fl txns
    totals ←
        compute_fee_distribution fl total_gross rates.merchant_fee_rate rates.pg_fee_rate
          rates.sales_commission_rate
    ok (distribute grouping total_gross rates.sales_commission_rate totals)
