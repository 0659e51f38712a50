-- ===== src/Plan/Effective.antt =====
-- The targets of the summary (app/services/plan_service.py).
use beautypos.Prelude.{
  ℕ, ◌+◌, ◌*◌, ◌≤◌, ◌≡◌, ◌↔◌, ltb, leb, ◌==◌, ==_iff, ◌&&◌, ◌||◌, refl, sym, ◌∙◌, Bool, true, false,
  Bool-cases, inl, inr, if◌then◌else◌, List, [], ◌∷◌, Option, none, some, arith,
}
use beautypos.Prelude.Int.{ℤ, pos, pos_part, neg_part, ◌+ℤ◌, ◌-ℤ◌, ◌≤ℤ◌, ltb_ℤ, -ℤ_parts}
use beautypos.Calendar.{Date, days_in_month}
use beautypos.Plan.Targets.{expected_target_through_date}
use beautypos.Plan.Targets.Spread.{days_in_month_bounds, div_mono, full-div}
use beautypos.Plan.Rows.{
  AdType, number, Plan, Override, is_for, plan_target, effective_monthly_target,
}
use beautypos.Plan.Overrides.{
  IsUnique, has_override, override_of, has_override-row, or_false, effective-override_of,
}
use beautypos.Plan.Summary.{
  Execution, Item, or_plan, at_least_0, override_map_get, month_total, executed, date_le,
  month_start, month_end, summary_item,
}

override_map_get-absent :
    (rows : List Override) (m : ℕ) (a : AdType)
    → has_override m a rows ≡ false
    → override_map_get rows m a ≡ none
unfolding override_map_get
override_map_get-absent [] m a h = refl
override_map_get-absent (r ∷ rs) m a h =
    let parts = or_false (is_for m a r) (has_override m a rs) h in
    rw (override_map_get-absent rs m a parts.1, parts.0) refl

own_number :
    (o : Option ℤ) (target : ℤ) → or_plan o target ≡ (elim o [ none ↦ target | some v ↦ v ])
own_number none target = refl
own_number (some v) target = refl

passed_over :
    (x : Bool) (q o : Option ℤ) (target : ℤ)
    → x ≡ false
    → or_plan (elim o [ some v ↦ some v | none ↦ if x then q else none ]) target ≡ or_plan o target
passed_over x q none target h = rw h refl
passed_over x q (some v) target h = refl

override_map_get-override_of :
    (rows : List Override) (m : ℕ) (a : AdType) (target : ℤ)
    → IsUnique rows
    → or_plan (override_map_get rows m a) target ≡ override_of rows m a target
unfolding override_map_get
override_map_get-override_of [] m a target u = refl
override_map_get-override_of (r ∷ rs) m a target u = elim (Bool-cases (is_for m a r)) [
  | inl e ↦
      rw (override_map_get-absent rs m a (sym (has_override-row r m a rs e) ∙ u.0), e)
        (own_number r.monthly_override target)
  | inr e ↦ rw (e) (
      passed_over (is_for m a r) r.monthly_override (override_map_get rs m a) target e
      ∙ override_map_get-override_of rs m a target u.1)
]

-- The execution lies in the month of the day and is of the merchant and the type.
abbrev pub is_of_month : Date → ℕ → AdType → Execution → Bool
is_of_month target m a e =
    let d = e.execution_date in
    e.merchant_id == m
    && (number e.ad_type == number a
        && (d.year == target.year
            && (d.month == target.month
                && (leb 1 d.day && leb d.day (days_in_month target.year target.month)))))

-- How much of the type the merchant has had executed in the month of the day
abbrev pub executed_in_month : Date → ℕ → AdType → List Execution → ℤ
executed_in_month target m a [] = pos 0
executed_in_month target m a (e ∷ es) =
    let rest = executed_in_month target m a es in
    if is_of_month target m a e then e.executed_count +ℤ rest else rest

within :
    (y m d ty tm n : ℕ)
    → ((ltb ty y || (ty == y && (ltb tm m || (tm == m && leb 1 d))))
        && (ltb y ty || (y == ty && (ltb m tm || (m == tm && leb d n)))))
      ≡ (y == ty && (m == tm && (leb 1 d && leb d n)))
within y m d ty tm n = ground (arith, ==_iff ty y, ==_iff y ty, ==_iff tm m, ==_iff m tm)

in_range-is_of_month :
    (target : Date) (m : ℕ) (a : AdType) (e : Execution)
    → ((date_le (month_start target) e.execution_date
          && date_le e.execution_date (month_end target))
        && e.merchant_id == m
        && number e.ad_type == number a)
      ≡ is_of_month target m a e
unfolding month_start month_end
in_range-is_of_month target m a e =
    let d = e.execution_date in
    rw
      (within d.year d.month d.day target.year target.month
        (days_in_month target.year target.month))
      (commuted (e.merchant_id == m) (number e.ad_type == number a) (
        d.year == target.year
        && (d.month == target.month
            && (leb 1 d.day && leb d.day (days_in_month target.year target.month)))))
  where
    commuted : (x y z : Bool) → (z && x && y) ≡ (x && (y && z))
    commuted x y z = ground arith

month_total-executed_in_month :
    (target : Date) (m : ℕ) (a : AdType) (es : List Execution)
    → month_total target m a es ≡ executed_in_month target m a es
unfolding month_total executed
month_total-executed_in_month target m a [] = refl
month_total-executed_in_month target m a (e ∷ es) =
    rw (in_range-is_of_month target m a e, month_total-executed_in_month target m a es) refl

-- What the numbers and the flags of an item mean.
pub record Standing (target : Date) (executions : List Execution) (overrides : List Override)
    (plan : Option Plan) (m : ℕ) (a : AdType) (item : Item) : Type 0 where
  pub goal : item.monthly_target ≡ effective_monthly_target overrides m a plan
  pub month : item.month_total ≡ executed_in_month target m a executions
  pub due : item.expected_to_date ≡ expected_target_through_date item.monthly_target target
  pub behind : (item.is_behind ≡ true) ↔ (¬ (pos item.expected_to_date ≤ℤ item.month_total))
  pub over : (item.is_over ≡ true) ↔ (¬ (item.month_total ≤ℤ item.monthly_target))
  pub not_both : pos 0 ≤ℤ item.monthly_target → item.is_behind ≡ true → item.is_over ≡ false

expected_bound :
    (goal : ℤ) (d : Date)
    → d.day ≤ days_in_month d.year d.month
    → expected_target_through_date goal d ≤ pos_part goal
unfolding expected_target_through_date
expected_bound goal d h =
    let days = days_in_month d.year d.month in
    omega (
      arith,
      div_mono (d.day * pos_part goal) (days * pos_part goal) days (grind arith),
      full-div (pos_part goal) days (omega (arith, days_in_month_bounds d.year d.month)),
    )

-- Through a difference that is a variable.
behind_at :
    (e : ℕ) (total d : ℤ)
    → pos_part d + 0 + pos_part total ≡ neg_part d + e + neg_part total
    → (ltb_ℤ (pos 0) (at_least_0 d) ≡ true) ↔ (¬ (pos e ≤ℤ total))
behind_at e total d h = ground arith

over_at :
    (goal total d : ℤ)
    → pos_part d + neg_part goal + pos_part total ≡ neg_part d + pos_part goal + neg_part total
    → (ltb_ℤ d (pos 0) ≡ true) ↔ (¬ (total ≤ℤ goal))
over_at goal total d h = ground arith

behind_not_over :
    (e : ℕ) (goal total d g : ℤ)
    → pos_part d + 0 + pos_part total ≡ neg_part d + e + neg_part total
    → pos_part g + neg_part goal + pos_part total ≡ neg_part g + pos_part goal + neg_part total
    → e ≤ pos_part goal
    → pos 0 ≤ℤ goal
    → ltb_ℤ (pos 0) (at_least_0 d) ≡ true
    → ltb_ℤ g (pos 0) ≡ false
behind_not_over e goal total d g h k l n b = ground arith

-- An item of the summary has the merchant's effective target and the sum of the executions of the
-- merchant and the type in the month of the day, is behind exactly if that sum is less than what is
-- due by the day, over exactly if it is more than the month's target, and is never both, if the target is not negative, the day is one of its month, and the
-- table has one row a merchant and type.
pub summary_item-Standing :
    (target : Date) (executions : List Execution) (overrides : List Override) (plan : Option Plan)
    (m : ℕ) (a : AdType)
    → target.day ≤ days_in_month target.year target.month
    → IsUnique overrides
    → Standing target executions overrides plan m a
        (summary_item target executions overrides plan m a)
unfolding summary_item
summary_item-Standing target executions overrides plan m a h u =
    let goal = or_plan (override_map_get overrides m a) (plan_target plan a) in
    let total = month_total target m a executions in
    let expected = expected_target_through_date goal target in
    record {
      goal =
          override_map_get-override_of overrides m a (plan_target plan a) u
          ∙ sym (effective-override_of overrides m a plan);
      month = month_total-executed_in_month target m a executions;
      due = refl;
      behind = behind_at expected total (pos expected -ℤ total) (-ℤ_parts (pos expected) total);
      over = over_at goal total (goal -ℤ total) (-ℤ_parts goal total);
      not_both =
          behind_not_over expected goal total (pos expected -ℤ total) (goal -ℤ total)
            (-ℤ_parts (pos expected) total) (-ℤ_parts goal total) (expected_bound goal target h);
    }
