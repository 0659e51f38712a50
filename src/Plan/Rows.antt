-- ===== src/Plan/Rows.antt =====
-- The plans, their assignments and the targets set for a merchant (app/services/plan_service.py,
-- app/models/plan.py).
use beautypos.Prelude.{
  ℕ, suc, Bool, ◌&&◌, ◌||◌, ltb, ◌==◌, if◌then◌else◌, List, [], ◌∷◌, Option, none, some, first,
  where_, length,
}
use beautypos.Prelude.Int.{ℤ, pos}
use beautypos.Text.{Text}

-- `AD_EXECUTION_TYPES_ALL`
pub data AdType : Type 0 where
  blog_review receipt_review place_traffic place_save shorts : AdType

-- `AD_EXECUTION_TYPES`, less the hidden ones
abbrev pub ad_execution_types : List AdType
ad_execution_types = blog_review ∷ receipt_review ∷ place_traffic ∷ shorts ∷ []

abbrev pub number : AdType → ℕ
number blog_review = 0
number receipt_review = 1
number place_traffic = 2
number place_save = 3
number shorts = 4

-- The columns `*_monthly` are a function of the type.
pub record Plan : Type 0 where
  pub id : ℕ
  pub code : Text
  pub name : Text
  pub monthly : AdType → ℤ

-- `MerchantPlan` with its plan
pub record Assignment : Type 0 where
  pub id : ℕ
  pub merchant_id : ℕ
  pub plan : Plan
  pub assigned_at : ℕ
  pub assigned_by : Option ℕ

-- `MerchantAdOverride`
pub record Override : Type 0 where
  pub merchant_id : ℕ
  pub ad_type : AdType
  pub monthly_override : Option ℤ

-- The order of `assigned_at` and then `id`
unfoldable pub later : Assignment → Assignment → Bool
later a b = ltb b.assigned_at a.assigned_at || (b.assigned_at == a.assigned_at && ltb b.id a.id)

-- `.order_by(assigned_at.desc(), id.desc())`
unfoldable pub insert_desc : Assignment → List Assignment → List Assignment
insert_desc a [] = a ∷ []
insert_desc a (b ∷ bs) = let rest = insert_desc a bs in if later b a then b ∷ rest else a ∷ b ∷ bs

unfoldable pub by_latest : List Assignment → List Assignment
by_latest [] = []
by_latest (a ∷ as_) = insert_desc a (by_latest as_)

unfoldable pub current_assignment : List Assignment → ℕ → Option Assignment
unfolding by_latest
current_assignment rows m = first (by_latest (where_ (λ a. a.merchant_id == m) rows))

unfoldable pub get_current_plan : List Assignment → ℕ → Option Plan
unfolding current_assignment
get_current_plan rows m = elim (current_assignment rows m) [ none ↦ none | some a ↦ some a.plan ]

-- `assign_plan`, with the next id and the time that the database sets
unfoldable pub assign_plan : List Assignment → ℕ → ℕ → Plan → Option ℕ → List Assignment
assign_plan rows now m plan assigned_by =
    (record {
      id = suc (length rows);
      merchant_id = m;
      plan = plan;
      assigned_at = now;
      assigned_by = assigned_by;
    })
    ∷ rows

-- `ensure_default_plan`, given the plan that the code "basic" finds
unfoldable pub ensure_default_plan :
    List Assignment → ℕ → ℕ → Option Plan → Option ℕ → List Assignment
unfolding current_assignment assign_plan
ensure_default_plan rows now m basic assigned_by = elim (current_assignment rows m) [
  | some a ↦ rows
  | none ↦ elim basic [ none ↦ rows | some plan ↦ assign_plan rows now m plan assigned_by ]
]

unfoldable pub is_for : ℕ → AdType → Override → Bool
is_for m ad_type r = r.merchant_id == m && number r.ad_type == number ad_type

unfoldable pub find_override : List Override → ℕ → AdType → Option Override
unfolding is_for
find_override rows m ad_type = first (where_ (is_for m ad_type) rows)

-- `plan.target(ad_type, "monthly") if plan else 0`
abbrev pub plan_target : Option Plan → AdType → ℤ
plan_target none ad_type = pos 0
plan_target (some p) ad_type = p.monthly ad_type

abbrev pub override_or : Option Override → ℤ → ℤ
override_or none target = target
override_or (some r) target = elim r.monthly_override [ none ↦ target | some v ↦ v ]

unfoldable pub effective_monthly_target : List Override → ℕ → AdType → Option Plan → ℤ
unfolding find_override
effective_monthly_target rows m ad_type plan =
    override_or (find_override rows m ad_type) (plan_target plan ad_type)

-- The first row of the merchant and the type is replaced.
unfoldable pub write_override : ℕ → AdType → ℤ → List Override → List Override
unfolding is_for
write_override m ad_type v [] = []
write_override m ad_type v (r ∷ rs) =
    let rest = write_override m ad_type v rs in
    if is_for m ad_type r then (record r { monthly_override = some v }) ∷ rs else r ∷ rest

unfoldable pub delete_override : ℕ → AdType → List Override → List Override
unfolding is_for
delete_override m ad_type [] = []
delete_override m ad_type (r ∷ rs) =
    let rest = delete_override m ad_type rs in if is_for m ad_type r then rs else r ∷ rest

unfoldable pub set_override : List Override → ℕ → AdType → Option ℤ → List Override
unfolding find_override write_override delete_override
set_override rows m ad_type none = delete_override m ad_type rows
set_override rows m ad_type (some v) = elim (find_override rows m ad_type) [
  | some r ↦ write_override m ad_type v rows
  | none ↦ (record { merchant_id = m; ad_type = ad_type; monthly_override = some v }) ∷ rows
]
