-- ===== src/Settlement/Examples.antt =====
-- A settlement in fixed-point numbers of six decimals, and the theorems at it.
use beautypos.Prelude.{
  ℕ, ◌*◌, ◌/◌, ◌^◌, ◌≡◌, refl, Bool, true, false, List, [], ◌∷◌, Option, none, some, Returns,
  Result, ok, err, arith,
}
use beautypos.Prelude.Int.{ℤ, pos, pos_part, neg_part, ◌+ℤ◌, ◌-ℤ◌, ◌*ℤ◌, sub_ℕ, ltb_ℤ, leb_ℤ}
use beautypos.Settlement.Floats.{Floats, HasZero}
use beautypos.Settlement.Fees.{
  compute_fee_distribution, compute_fee_distribution-Partitions, Partitions,
}
use beautypos.Settlement.Rates.{Policies}
use beautypos.Settlement.Allocation.{
  allocate_with_remainder, shares, sum_ℤ, sum-allocate_with_remainder,
}
use beautypos.Settlement.Grouping.{Staff, Transaction}
use beautypos.Settlement.Distribution.{compute_distribution}
use beautypos.Settlement.Promises.{DistributionBalances, compute_distribution-Balances}

abbrev sum_fixed : List ℤ → ℤ
sum_fixed [] = pos 0
sum_fixed (x ∷ xs) = x +ℤ sum_fixed xs

abbrev over : ℤ → ℕ → ℤ
over a n = sub_ℕ (pos_part a / n) (neg_part a / n)

abbrev fixed : Floats
fixed = record {
  Float = ℤ;
  of_int = λ n. n *ℤ pos 1000000;
  decimal = λ n k. pos (n * 1000000 / 10 ^ k);
  add = λ a b. a +ℤ b;
  sum = sum_fixed;
  sub = λ a b. a -ℤ b;
  mul = λ a b. over (a *ℤ b) 1000000;
  div = λ a b. over (a *ℤ pos 1000000) (pos_part b);
  lt = ltb_ℤ;
  le = leb_ℤ;
  round = λ a. over (a +ℤ pos 500000) 1000000;
  round_to = λ n a. a;
  int = λ a. over a 1000000;
}

zero_times : (r : ℤ) → pos 0 *ℤ r ≡ pos 0
unfolding ◌*ℤ◌
zero_times r = ground arith

fixed-HasZero : HasZero fixed
unfolding ◌*ℤ◌ ◌+ℤ◌
fixed-HasZero = record {
  round-mul_zero = λ r. rw (zero_times r) refl;
  sum-empty = refl;
  int-zero = refl;
}

abbrev rows : List (Staff fixed)
rows =
    (record { id = 1; name = 0x41 ∷ []; staff_code = none; share_rate = some (pos 600000) })
    ∷ (record { id = 2; name = 0x42 ∷ []; staff_code = none; share_rate = none })
    ∷ []

abbrev sale : Option ℕ → ℕ → Transaction fixed
sale staff_id won = record { staff_id = staff_id; amount = pos (won * 1000000) }

abbrev sales : List (Transaction fixed)
sales =
    sale (some 2) 33333
    ∷ sale (some 1) 50001
    ∷ sale none 17000
    ∷ sale (some 2) 40000
    ∷ sale (some 9) 7
    ∷ []

abbrev policies : Policies fixed
policies = record {
  fee_policies =
      (record {
        merchant_id = some 7;
        merchant_fee_rate = some (pos 50000);
        pg_fee_rate = some (pos 30000);
      })
      ∷ [];
  merchant_plans = [];
  commission_policies = [];
  assignments =
      (record {
        merchant_id = 7;
        sales_manager_user_id = 3;
        is_active = true;
        commission_rate = pos 10000;
      })
      ∷ [];
}

compute_distribution-Balances_example :
    Returns (DistributionBalances fixed) (compute_distribution fixed policies rows 7 sales)
compute_distribution-Balances_example =
    compute_distribution-Balances fixed fixed-HasZero policies rows 7 sales

compute_fee_distribution-Partitions_example :
    Returns
      (Partitions fixed (pos 140341000000))
      (compute_fee_distribution fixed (pos 140341000000) (pos 50000) (pos 30000) (pos 10000))
compute_fee_distribution-Partitions_example =
    compute_fee_distribution-Partitions fixed (pos 140341000000) (pos 50000) (pos 30000) (pos 10000)

sum-allocate_with_remainder_example :
    sum_ℤ (allocate_with_remainder fixed (pos 1000) (pos 1000000 ∷ pos 1000000 ∷ pos 1000000 ∷ []))
    ≡ pos 1000
sum-allocate_with_remainder_example =
    sum-allocate_with_remainder fixed (pos 1000) (pos 1000000) (pos 1000000 ∷ pos 1000000 ∷ [])

-- The commission is within the platform's rate: the call returns.
returns : {E A : Type 0} → Result E A → Bool
returns (ok d) = true
returns (err e) = false

runs : returns (compute_distribution fixed policies rows 7 sales) ≡ true
unfolding returns compute_distribution ◌+ℤ◌ ◌-ℤ◌ ◌*ℤ◌
runs = refl

-- 500 won in the proportions 1 : 1 : 1
thirds :
    allocate_with_remainder fixed (pos 500) (pos 1000000 ∷ pos 1000000 ∷ pos 1000000 ∷ [])
    ≡ pos 167 ∷ pos 167 ∷ pos 166 ∷ []
unfolding allocate_with_remainder shares ◌+ℤ◌ ◌-ℤ◌ ◌*ℤ◌
thirds = refl
