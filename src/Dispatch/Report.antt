-- ===== src/Dispatch/Report.antt =====
-- What went out in a period and what it cost (`report` of app/services/ad_dispatch.py). The names and
-- labels that the screen shows are left out.
use beautypos.Prelude.{
  ℕ, suc, ◌+◌, Bool, true, false, ◌&&◌, ltb, ◌==◌, if◌then◌else◌, List, [], ◌∷◌, map, Option, none,
  some, where_, length, sum,
}
use beautypos.Prelude.Int.{ℤ, pos, ◌+ℤ◌}
use beautypos.Text.{Text, codes, text_eq}
use beautypos.Calendar.{Date}
use beautypos.Plan.Rows.{number}
use beautypos.Plan.Summary.{date_le}
use beautypos.Dispatch.State.{
  Row, Status, failed, stopped, skipped, SkipReason, no_keyword, no_plan, zero_target, already_done,
  integration_off, no_price, low_balance, no_config, no_place_code, invalid_config,
  counts_as_executed, is_failed,
}

abbrev pub in_period : Date → Date → Row → Bool
in_period start end r = date_le start r.execution_date && date_le r.execution_date end

unfoldable pub executed_rows : Date → Date → List Row → List Row
executed_rows start end rows = where_ (λ r. in_period start end r && counts_as_executed r) rows

-- The sums of a merchant or of a type; `measured` counts the rows that the provider has measured.
pub record Bucket : Type 0 where
  pub key : ℕ
  pub count : ℕ
  pub delivered : ℤ
  pub rewarded : ℤ
  pub measured : ℕ
  pub cost : ℕ
  pub dispatches : ℕ

abbrev pub or_none_0 : Option ℤ → ℤ
or_none_0 none = pos 0
or_none_0 (some n) = n

abbrev pub is_measured : Row → Bool
is_measured r = elim r.delivered_count [
  | some n ↦ true
  | none ↦ elim r.reward_count [ some n ↦ true | none ↦ false ]
]

abbrev pub empty_bucket : ℕ → Bucket
empty_bucket key = record {
  key = key;
  count = 0;
  delivered = pos 0;
  rewarded = pos 0;
  measured = 0;
  cost = 0;
  dispatches = 0;
}

unfoldable pub add_row : Row → Bucket → Bucket
add_row r b = record b {
  count = b.count + r.requested_count;
  delivered = b.delivered +ℤ or_none_0 r.delivered_count;
  rewarded = b.rewarded +ℤ or_none_0 r.reward_count;
  measured = b.measured + (if is_measured r then 1 else 0);
  cost = b.cost + r.cost_amount;
  dispatches = suc b.dispatches;
}

-- `buckets.setdefault(key, …)`, and the row added to it
unfoldable pub add_to : ℕ → Row → List Bucket → List Bucket
unfolding add_row
add_to key r [] = add_row r (empty_bucket key) ∷ []
add_to key r (b ∷ bs) =
    let rest = add_to key r bs in if b.key == key then add_row r b ∷ bs else b ∷ rest

unfoldable pub buckets_from : (Row → ℕ) → List Row → List Bucket → List Bucket
unfolding add_to
buckets_from key_of [] bs = bs
buckets_from key_of (r ∷ rs) bs = buckets_from key_of rs (add_to (key_of r) r bs)

unfoldable pub insert_by_cost : Bucket → List Bucket → List Bucket
insert_by_cost b [] = b ∷ []
insert_by_cost b (c ∷ cs) =
    let rest = insert_by_cost b cs in if ltb b.cost c.cost then c ∷ rest else b ∷ c ∷ cs

-- `sorted(…, key=cost, reverse=True)`, which keeps the order of equal costs
unfoldable pub by_cost : List Bucket → List Bucket
unfolding insert_by_cost
by_cost [] = []
by_cost (b ∷ bs) = insert_by_cost b (by_cost bs)

abbrev pub reason_code : SkipReason → Text
reason_code no_keyword = codes "no_keyword"
reason_code no_plan = codes "no_plan"
reason_code zero_target = codes "zero_target"
reason_code already_done = codes "already_done"
reason_code integration_off = codes "integration_off"
reason_code no_price = codes "no_price"
reason_code low_balance = codes "low_balance"
reason_code no_config = codes "no_config"
reason_code no_place_code = codes "no_place_code"
reason_code invalid_config = codes "invalid_config"

abbrev pub is_problem : Status → Bool
is_problem failed = true
is_problem skipped = true
is_problem _ = false

abbrev pub problem_key : Row → Text
problem_key r = elim r.skip_reason [
  | some reason ↦ reason_code reason
  | none ↦ if is_failed r.status then codes "failed" else codes "unknown"
]

pub record Problem : Type 0 where
  pub reason : Text
  pub count : ℕ

unfoldable pub count_problem : Text → List Problem → List Problem
count_problem key [] = (record { reason = key; count = 1 }) ∷ []
count_problem key (p ∷ ps) =
    let rest = count_problem key ps in
    if text_eq p.reason key then (record p { count = suc p.count }) ∷ ps else p ∷ rest

unfoldable pub problems_from : List Row → List Problem → List Problem
unfolding count_problem
problems_from [] ps = ps
problems_from (r ∷ rs) ps = problems_from rs (count_problem (problem_key r) ps)

unfoldable pub insert_by_count : Problem → List Problem → List Problem
insert_by_count p [] = p ∷ []
insert_by_count p (q ∷ qs) =
    let rest = insert_by_count p qs in if ltb p.count q.count then q ∷ rest else p ∷ q ∷ qs

unfoldable pub by_count : List Problem → List Problem
unfolding insert_by_count
by_count [] = []
by_count (p ∷ ps) = insert_by_count p (by_count ps)

abbrev pub is_stopped : Status → Bool
is_stopped stopped = true
is_stopped _ = false

abbrev pub sum_ℤ : List ℤ → ℤ
sum_ℤ [] = pos 0
sum_ℤ (n ∷ ns) = n +ℤ sum_ℤ ns

pub record Report : Type 0 where
  pub total_count : ℕ
  pub total_delivered : ℤ
  pub total_rewarded : ℤ
  pub measured_dispatches : ℕ
  pub stopped_dispatches : ℕ
  pub total_cost : ℕ
  pub total_dispatches : ℕ
  pub by_merchant : List Bucket
  pub by_ad_type : List Bucket
  pub problems : List Problem

unfoldable pub report : List Row → Date → Date → Report
unfolding executed_rows buckets_from by_cost problems_from by_count
report all start end =
    let rows = executed_rows start end all in
    let by_merchant = buckets_from (λ (r : Row). r.merchant_id) rows [] in
    let by_type = buckets_from (λ (r : Row). number r.ad_type) rows [] in
    let problem_rows = where_ (λ r. in_period start end r && is_problem r.status) all in
    record {
      total_count = sum (map (λ (b : Bucket). b.count) by_merchant);
      total_delivered = sum_ℤ (map (λ (b : Bucket). b.delivered) by_merchant);
      total_rewarded = sum_ℤ (map (λ (b : Bucket). b.rewarded) by_merchant);
      measured_dispatches = sum (map (λ (b : Bucket). b.measured) by_merchant);
      stopped_dispatches = length (where_ (λ (r : Row). is_stopped r.status) rows);
      total_cost = sum (map (λ (b : Bucket). b.cost) by_merchant);
      total_dispatches = length rows;
      by_merchant = by_cost by_merchant;
      by_ad_type = by_cost by_type;
      problems = by_count (problems_from problem_rows []);
    }
