-- ===== src/Settlement/Fees.antt =====
-- The fees on one amount (app/services/settlement_service.py).
use beautypos.Prelude.{◌≡◌, Bool-cases, inl, inr, Result, ok, ◌>>◌, raise_if, Returns}
use beautypos.Prelude.Int.{ℤ, ◌+ℤ◌, ◌-ℤ◌, int_laws}
use beautypos.Settlement.Floats.{Floats}

-- `ValueError`
pub data FeeError : Type 0 where
  commission_above_platform_rate : FeeError

module _ (fl : Floats) where
  open fl use {Float, of_int, decimal, add, sub, mul, lt, round, round_to, int}

  pub record Fees : Type 0 where
    pub merchant_fee : ℤ
    pub pg_cost : ℤ
    pub platform_income : ℤ
    pub sales_commission : ℤ
    pub company_profit : ℤ
    pub net_payout : ℤ
    pub merchant_fee_rate : Float
    pub pg_fee_rate : Float
    pub merchant_fee_rate_with_vat : Float
    pub pg_fee_rate_with_vat : Float

  -- 1.0 + 0.1
  abbrev pub vat_multiplier : Float
  vat_multiplier = add (decimal 1 0) (decimal 1 1)

  unfoldable pub apply_vat : Float → Float
  apply_vat rate = round_to 6 (mul rate vat_multiplier)

  unfoldable pub compute_fee_distribution : Float → Float → Float → Float → Result FeeError Fees
  compute_fee_distribution gross_amount merchant_fee_rate pg_fee_rate sales_commission_rate = do
    let platform_rate = sub merchant_fee_rate pg_fee_rate
    raise_if (lt (add platform_rate (decimal 1 9)) sales_commission_rate)
        commission_above_platform_rate
    let merchant_fee_rate_vat = apply_vat merchant_fee_rate
    let pg_fee_rate_vat = apply_vat pg_fee_rate
    let merchant_fee = round (mul gross_amount merchant_fee_rate_vat)
    let pg_cost = round (mul gross_amount pg_fee_rate_vat)
    let platform_income = merchant_fee -ℤ pg_cost
    let sales_commission = round (mul gross_amount sales_commission_rate)
    ok (record {
      merchant_fee = merchant_fee;
      pg_cost = pg_cost;
      platform_income = platform_income;
      sales_commission = sales_commission;
      company_profit = platform_income -ℤ sales_commission;
      net_payout = int gross_amount -ℤ merchant_fee;
      merchant_fee_rate = merchant_fee_rate;
      pg_fee_rate = pg_fee_rate;
      merchant_fee_rate_with_vat = merchant_fee_rate_vat;
      pg_fee_rate_with_vat = pg_fee_rate_vat;
    })

  -- Every won of the amount goes somewhere: to the shop, the payment provider, the sales manager or
  -- the company.
  pub record Partitions (gross_amount : Float) (f : Fees) : Type 0 where
    pub whole :
        f.net_payout +ℤ (f.pg_cost +ℤ (f.sales_commission +ℤ f.company_profit)) ≡ int gross_amount
    pub income : f.sales_commission +ℤ f.company_profit ≡ f.platform_income
    pub fee : f.pg_cost +ℤ f.platform_income ≡ f.merchant_fee

  -- The fees that `compute_fee_distribution` returns, the profit a loss or not, partition the amount.
  pub compute_fee_distribution-Partitions :
      (gross merchant_rate pg_rate commission_rate : Float)
      → Returns
          (Partitions gross)
          (compute_fee_distribution gross merchant_rate pg_rate commission_rate)
  unfolding compute_fee_distribution
  compute_fee_distribution-Partitions gross merchant_rate pg_rate commission_rate =
      elim (Bool-cases (lt (add (sub merchant_rate pg_rate) (decimal 1 9)) commission_rate)) [
        | inl e ↦ rw e tt
        | inr e ↦
            rw e (record { whole = omega int_laws; income = omega int_laws; fee = omega int_laws })
      ]
