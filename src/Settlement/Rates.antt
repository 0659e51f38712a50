-- ===== src/Settlement/Rates.antt =====
-- The rates that apply to a shop (app/services/settlement_service.py): the rows that the code reads,
-- in the order in which their queries give them.
use beautypos.Prelude.{
  ℕ, zero, suc, ◌==◌, Bool, true, false, ◌&&◌, ◌||◌, ltb, if◌then◌else◌, List, [], ◌∷◌, Option,
  none, some, first, where_,
}
use beautypos.Prelude.Int.{pos}
use beautypos.Settlement.Floats.{Floats}

-- `x or y` on a row or a rate that may be missing
infixr 30 ◌or_else◌
abbrev pub ◌or_else◌ {ℓ} : {A : Type ℓ} → Option A → Option A → Option A
none or_else y = y
(some x) or_else y = some x

abbrev pub get_or {ℓ} : {A : Type ℓ} → Option A → A → A
get_or none y = y
get_or (some x) y = x

abbrev pub bind {ℓ κ} : {A : Type ℓ} {B : Type κ} → Option A → (A → Option B) → Option B
bind none f = none
bind (some x) f = f x

-- An id as a condition: `None` and 0 are false.
abbrev pub truthy : Option ℕ → Option ℕ
truthy none = none
truthy (some zero) = none
truthy (some (suc n)) = some (suc n)

abbrev pub is_id : ℕ → Option ℕ → Bool
is_id n none = false
is_id n (some m) = m == n

abbrev pub is_none : Option ℕ → Bool
is_none none = true
is_none (some m) = false

module _ (fl : Floats) where
  open fl use {Float, of_int, decimal, div}

  pub record FeePolicy : Type 0 where
    pub merchant_id : Option ℕ
    pub merchant_fee_rate : Option Float
    pub pg_fee_rate : Option Float

  -- `MerchantPlan` with the rate of its plan, in percent
  pub record MerchantPlan : Type 0 where
    pub id : ℕ
    pub merchant_id : ℕ
    pub assigned_at : ℕ
    pub plan_rate : Option Float

  pub record SalesCommissionPolicy : Type 0 where
    pub sales_manager_user_id : Option ℕ
    pub commission_rate : Float

  pub record MerchantSalesAssignment : Type 0 where
    pub merchant_id : ℕ
    pub sales_manager_user_id : ℕ
    pub is_active : Bool
    pub commission_rate : Float

  pub record Policies : Type 0 where
    pub fee_policies : List FeePolicy
    pub merchant_plans : List MerchantPlan
    pub commission_policies : List SalesCommissionPolicy
    pub assignments : List MerchantSalesAssignment

  -- `.order_by(assigned_at.desc(), id.desc()).first()`
  unfoldable pub latest : List MerchantPlan → Option MerchantPlan
  latest [] = none
  latest (p ∷ ps) = elim (latest ps) [
    | none ↦ some p
    | some q ↦
        if ltb p.assigned_at q.assigned_at || (p.assigned_at == q.assigned_at && ltb p.id q.id)
        then some q
        else some p
  ]

  unfoldable pub merchant_policy : Policies → Option ℕ → Option FeePolicy
  merchant_policy db merchant_id =
      bind (truthy merchant_id) (λ m. first (where_ (λ p. is_id m p.merchant_id) db.fee_policies))

  unfoldable pub global_policy : Policies → Option FeePolicy
  global_policy db = first (where_ (λ p. is_none p.merchant_id) db.fee_policies)

  unfoldable pub plan_fee_rate : Policies → Option ℕ → Option Float
  unfolding latest
  plan_fee_rate db merchant_id =
      bind
        (bind (truthy merchant_id)
          (λ m. latest (where_ (λ p. p.merchant_id == m) db.merchant_plans)))
        (λ a. bind a.plan_rate (λ r. some (div r (of_int (pos 100)))))

  -- The shop's active assignment, as each of the callers looks it up.
  unfoldable pub active_assignment : Policies → ℕ → Option MerchantSalesAssignment
  active_assignment db m = first (where_ (λ a. (a.merchant_id == m) && a.is_active) db.assignments)

  unfoldable pub commission_policy : Policies → Option ℕ → Option SalesCommissionPolicy
  commission_policy db manager =
      bind (truthy manager)
        (λ u. first (where_ (λ p. is_id u p.sales_manager_user_id) db.commission_policies))
      or_else first (where_ (λ p. is_none p.sales_manager_user_id) db.commission_policies)

  pub record Rates : Type 0 where
    pub merchant_fee_rate : Float
    pub pg_fee_rate : Float
    pub sales_commission_rate : Float

  unfoldable pub commission_rate : Policies → Option ℕ → Option MerchantSalesAssignment → Float
  unfolding commission_policy
  commission_rate db manager assign =
      get_or
        (bind (commission_policy db manager) (λ p. some p.commission_rate)
          or_else bind assign (λ a. some a.commission_rate))
        (decimal 1 2)

  unfoldable pub sales_commission_rate : Policies → Option ℕ → Option ℕ → Float
  unfolding commission_rate active_assignment
  sales_commission_rate db merchant_id manager = elim (truthy merchant_id) [
    | none ↦ commission_rate db manager none
    | some m ↦ elim (active_assignment db m) [
      | none ↦ decimal 0 0
      | some a ↦ commission_rate db manager (some a)
    ]
  ]

  unfoldable pub get_effective_fee_rates : Policies → Option ℕ → Option ℕ → Rates
  unfolding merchant_policy global_policy plan_fee_rate sales_commission_rate
  get_effective_fee_rates db merchant_id manager =
      let fp_merchant = merchant_policy db merchant_id in
      let fp_global = global_policy db in
      record {
        merchant_fee_rate =
            get_or
              (bind fp_merchant (λ p. p.merchant_fee_rate)
                or_else plan_fee_rate db merchant_id
                or_else bind fp_global (λ p. p.merchant_fee_rate))
              (decimal 5 2);
        pg_fee_rate =
            get_or
              (bind fp_merchant (λ p. p.pg_fee_rate) or_else bind fp_global (λ p. p.pg_fee_rate))
              (decimal 3 2);
        sales_commission_rate = sales_commission_rate db merchant_id manager;
      }
