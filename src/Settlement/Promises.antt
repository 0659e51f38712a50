-- ===== src/Settlement/Promises.antt =====
-- What `compute_distribution` promises (app/services/settlement_service.py).
use beautypos.Prelude.{
  ℕ, ◌≡◌, ◌≢◌, refl, sym, ap, ◌∙◌, Bool-cases, inl, inr, List, [], ◌∷◌, map, length, Result, ok,
  err, ◌>>=◌, Returns, arith,
}
use beautypos.Prelude.Int.{ℤ, pos, ◌+ℤ◌, int_laws, +ℤ_zero_left}
use beautypos.Settlement.Floats.{Floats, HasZero}
use beautypos.Settlement.Fees.{Fees, FeeError, apply_vat, compute_fee_distribution}
use beautypos.Settlement.Rates.{Policies}
use beautypos.Settlement.Allocation.{
  allocate_with_remainder, sum-allocate_with_remainder, length-allocate_with_remainder,
}
use beautypos.Settlement.Grouping.{
  Staff, Transaction, Grouping, AllocUnit, alloc_units, group_txns, ordered, gross_of,
}
use beautypos.Settlement.Distribution.{
  Part, parts, run, by_gross, DesignerRow, UnassignedRow, designer_row, update_unassigned, Loop,
  start, net_alloc, Distribution, split_between, distribute, rates_of, compute_distribution,
}
use beautypos.Settlement.Sums.{
  sum_over, sum-by_gross, length-net_alloc, sum-net_alloc, parts-Columns,
}
use beautypos.Settlement.Identities.{
  Column, UnassignedIsLast, UnassignedUnitIsLast, run-column_sum, run-paid,
  units-UnassignedUnitIsLast, parts-UnassignedIsLast,
}
use beautypos.Settlement.Coverage.{length-map, length-alloc_units_of}

+ℤ_zero_pair : (a : ℤ) → (pos 0 +ℤ pos 0) +ℤ a ≡ a
+ℤ_zero_pair a = omega int_laws

module _ (fl : Floats) where
  -- The rows of the designers and the unassigned row add up to the totals, and what the designers and
  -- the owner get is the net payout.
  pub record Balances (totals : Fees fl) (ds : List (DesignerRow fl)) (un : UnassignedRow)
      (designer_total owner_amount : ℤ) : Type 0 where
    pub fees : sum_over (λ d. d.merchant_fee) ds +ℤ un.merchant_fee ≡ totals.merchant_fee
    pub costs : sum_over (λ d. d.pg_cost) ds +ℤ un.pg_cost ≡ totals.pg_cost
    pub commissions :
        sum_over (λ d. d.sales_commission) ds +ℤ un.sales_commission ≡ totals.sales_commission
    pub nets : sum_over (λ d. d.net_payout) ds +ℤ un.net_payout ≡ totals.net_payout
    pub paid : designer_total +ℤ owner_amount ≡ totals.net_payout

  abbrev LoopBalances : Fees fl → Loop fl → Type 0
  LoopBalances totals l = Balances totals l.designers l.unassigned l.designer_total l.owner_amount

  abbrev pub DistributionBalances : Distribution fl → Type 0
  DistributionBalances d =
      Balances d.totals d.designers d.unassigned d.designer_total d.owner_amount

  run_from_start-Balances :
      (un : List (Transaction fl)) (totals : Fees fl) (ps : List (Part fl))
      → UnassignedIsLast fl ps
      → sum_over (λ p. p.merchant_fee) ps ≡ totals.merchant_fee
      → sum_over (λ p. p.pg_cost) ps ≡ totals.pg_cost
      → sum_over (λ p. p.sales_commission) ps ≡ totals.sales_commission
      → sum_over (λ p. p.net_payout) ps ≡ totals.net_payout
      → LoopBalances totals (run fl (start fl un) ps)
  unfolding designer_row update_unassigned start
  run_from_start-Balances un totals ps last fee cost commission net =
      let fee_column : Column fl = record {
        of_part = λ p. p.merchant_fee;
        of_row = λ d. d.merchant_fee;
        of_unassigned = λ r. r.merchant_fee;
        on_row = λ s p. refl;
        on_unassigned = λ r p. refl;
      } in
      let cost_column : Column fl = record {
        of_part = λ p. p.pg_cost;
        of_row = λ d. d.pg_cost;
        of_unassigned = λ r. r.pg_cost;
        on_row = λ s p. refl;
        on_unassigned = λ r p. refl;
      } in
      let commission_column : Column fl = record {
        of_part = λ p. p.sales_commission;
        of_row = λ d. d.sales_commission;
        of_unassigned = λ r. r.sales_commission;
        on_row = λ s p. refl;
        on_unassigned = λ r p. refl;
      } in
      let net_column : Column fl = record {
        of_part = λ p. p.net_payout;
        of_row = λ d. d.net_payout;
        of_unassigned = λ r. r.net_payout;
        on_row = λ s p. refl;
        on_unassigned = λ r p. refl;
      } in
      record {
        fees = run-column_sum fl fee_column (start fl un) ps last refl ∙ +ℤ_zero_left _ ∙ fee;
        costs = run-column_sum fl cost_column (start fl un) ps last refl ∙ +ℤ_zero_left _ ∙ cost;
        commissions =
            run-column_sum fl commission_column (start fl un) ps last refl
            ∙ +ℤ_zero_left _
            ∙ commission;
        nets = run-column_sum fl net_column (start fl un) ps last refl ∙ +ℤ_zero_left _ ∙ net;
        paid = run-paid fl (start fl un) ps ∙ +ℤ_zero_pair _ ∙ net;
      }

  split_between-Balances :
      (u : AllocUnit fl) (us : List (AllocUnit fl)) (un : List (Transaction fl)) (totals : Fees fl)
      → UnassignedUnitIsLast fl (u ∷ us)
      → LoopBalances totals (split_between fl (u ∷ us) un totals)
  unfolding split_between
  split_between-Balances u us un totals last =
      let weights = map (λ v. v.gross) us in
      let fees = allocate_with_remainder fl totals.merchant_fee (u.gross ∷ weights) in
      let costs = allocate_with_remainder fl totals.pg_cost (u.gross ∷ weights) in
      let commissions = allocate_with_remainder fl totals.sales_commission (u.gross ∷ weights) in
      let nets = net_alloc fl totals.net_payout (u ∷ us) fees in
      let count : (total : ℤ)
          → length (allocate_with_remainder fl total (u.gross ∷ weights)) ≡ length (u ∷ us) =
        λ total.
          length-allocate_with_remainder fl total (u.gross ∷ weights)
          ∙ length-map (λ v. v.gross) (u ∷ us) in
      let columns =
        parts-Columns fl (u ∷ us) fees costs commissions nets (count totals.merchant_fee)
          (count totals.pg_cost) (count totals.sales_commission)
          (length-net_alloc fl totals.net_payout (u ∷ us) fees (count totals.merchant_fee)) in
      run_from_start-Balances un totals (parts fl (u ∷ us) fees costs commissions nets)
        (parts-UnassignedIsLast fl (u ∷ us) fees costs commissions nets last)
        (columns.fees ∙ sum-allocate_with_remainder fl totals.merchant_fee u.gross weights)
        (columns.costs ∙ sum-allocate_with_remainder fl totals.pg_cost u.gross weights)
        (columns.commissions
          ∙ sum-allocate_with_remainder fl totals.sales_commission u.gross weights)
        (columns.nets_ ∙ sum-net_alloc fl totals.net_payout u us fees (count totals.merchant_fee))

  by_gross-Balances :
      (totals : Fees fl) (l : Loop fl)
      → LoopBalances totals l
      → Balances totals (by_gross fl l.designers) l.unassigned l.designer_total l.owner_amount
  by_gross-Balances totals l b = record {
    fees =
        ap (λ z. z +ℤ l.unassigned.merchant_fee) (sum-by_gross fl (λ d. d.merchant_fee) l.designers)
        ∙ b.fees;
    costs =
        ap (λ z. z +ℤ l.unassigned.pg_cost) (sum-by_gross fl (λ d. d.pg_cost) l.designers)
        ∙ b.costs;
    commissions =
        ap (λ z. z +ℤ l.unassigned.sales_commission)
          (sum-by_gross fl (λ d. d.sales_commission) l.designers)
        ∙ b.commissions;
    nets =
        ap (λ z. z +ℤ l.unassigned.net_payout) (sum-by_gross fl (λ d. d.net_payout) l.designers)
        ∙ b.nets;
    paid = b.paid;
  }

  -- With no transaction every total is zero.
  record AllZero (f : Fees fl) : Type 0 where
    no_fee : f.merchant_fee ≡ pos 0
    no_cost : f.pg_cost ≡ pos 0
    no_commission : f.sales_commission ≡ pos 0
    no_payout : f.net_payout ≡ pos 0

  no_units-Balances :
      (un : List (Transaction fl)) (totals : Fees fl)
      → AllZero totals
      → LoopBalances totals (split_between fl [] un totals)
  unfolding split_between parts
  no_units-Balances un totals z =
      run_from_start-Balances un totals [] tt (sym z.no_fee) (sym z.no_cost) (sym z.no_commission)
        (sym z.no_payout)

  zero-AllZero :
      HasZero fl
      → (merchant_rate pg_rate commission_rate : fl.Float)
      → Returns AllZero
          (compute_fee_distribution fl (fl.of_int (pos 0)) merchant_rate pg_rate commission_rate)
  unfolding compute_fee_distribution
  zero-AllZero zero merchant_rate pg_rate commission_rate =
      elim (Bool-cases
        (fl.lt (fl.add (fl.sub merchant_rate pg_rate) (fl.decimal 1 9)) commission_rate)) [
          | inl e ↦ rw e tt
          | inr e ↦ rw e (record {
            no_fee = zero.round-mul_zero _;
            no_cost = zero.round-mul_zero _;
            no_commission = zero.round-mul_zero _;
            no_payout =
                rw (zero.round-mul_zero (apply_vat fl merchant_rate), zero.int-zero)
                  (omega int_laws);
          })
        ]

  units-Balances :
      (us : List (AllocUnit fl)) (un : List (Transaction fl)) (totals : Fees fl)
      → UnassignedUnitIsLast fl us
      → (length us ≡ 0 → AllZero totals)
      → LoopBalances totals (split_between fl us un totals)
  units-Balances [] un totals last zero = no_units-Balances un totals (zero refl)
  units-Balances (u ∷ us) un totals last zero = split_between-Balances u us un totals last

  distribute-Balances :
      (g : Grouping fl) (gross rate : fl.Float) (totals : Fees fl)
      → (length (alloc_units fl g) ≡ 0 → AllZero totals)
      → DistributionBalances (distribute fl g gross rate totals)
  unfolding distribute alloc_units
  distribute-Balances g gross rate totals zero =
      by_gross-Balances totals (split_between fl (alloc_units fl g) g.unassigned_txns totals) (
        units-Balances (alloc_units fl g) g.unassigned_txns totals
          (units-UnassignedUnitIsLast fl (ordered fl g.groups) g.unassigned_txns) zero)

  returned-Balances :
      (g : Grouping fl) (gross rate : fl.Float) (r : Result FeeError (Fees fl))
      → (length (alloc_units fl g) ≡ 0 → Returns AllZero r)
      → Returns DistributionBalances (r >>= λ totals. ok (distribute fl g gross rate totals))
  returned-Balances g gross rate (ok totals) zero = distribute-Balances g gross rate totals zero
  returned-Balances g gross rate (err e) zero = tt

  fees_of_nothing-AllZero :
      HasZero fl
      → (merchant_rate pg_rate commission_rate : fl.Float)
      → Returns AllZero
          (compute_fee_distribution fl (gross_of fl []) merchant_rate pg_rate commission_rate)
  unfolding gross_of
  fees_of_nothing-AllZero zero a b c = rw zero.sum-empty (zero-AllZero zero a b c)

  abbrev no_groups : Grouping fl
  no_groups = record { groups = []; unassigned_txns = [] }

  no_empty_units :
      (rows : List (Staff fl)) (g : Grouping fl) (t : Transaction fl) (ts : List (Transaction fl))
      → length (alloc_units fl (group_txns fl rows g (t ∷ ts))) ≢ 0
  no_empty_units rows g t ts e = omega (arith, length-alloc_units_of fl rows g t ts)

  -- A distribution that is returned balances: the merchant fees, the provider's costs, the commissions
  -- and the net payouts of the designers' rows and the unassigned row add up to the totals exactly, and
  -- the designers' and the owner's amounts to the net payout, whatever the floats round to,
  -- where zero times a rate rounds to zero and no amounts add up to zero.
  pub compute_distribution-Balances :
      HasZero fl
      → (db : Policies fl) (rows : List (Staff fl)) (merchant_id : ℕ) (txns : List (Transaction fl))
      → Returns DistributionBalances (compute_distribution fl db rows merchant_id txns)
  unfolding compute_distribution
  compute_distribution-Balances zero db rows m [] =
      let r = rates_of fl db m in
      returned-Balances (group_txns fl rows no_groups []) (gross_of fl []) r.sales_commission_rate
        (compute_fee_distribution fl (gross_of fl []) r.merchant_fee_rate r.pg_fee_rate
          r.sales_commission_rate)
        (λ e.
          fees_of_nothing-AllZero zero r.merchant_fee_rate r.pg_fee_rate r.sales_commission_rate)
  compute_distribution-Balances zero db rows m (t ∷ ts) =
      let r = rates_of fl db m in
      returned-Balances (group_txns fl rows no_groups (t ∷ ts)) (gross_of fl (t ∷ ts))
        r.sales_commission_rate
        (compute_fee_distribution fl (gross_of fl (t ∷ ts)) r.merchant_fee_rate r.pg_fee_rate
          r.sales_commission_rate)
        (λ e. absurd (no_empty_units rows no_groups t ts e))
