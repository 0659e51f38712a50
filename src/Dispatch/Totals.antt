-- ===== src/Dispatch/Totals.antt =====
-- The sums of the report agree with the ledger and with each other (`report` of
-- app/services/ad_dispatch.py).
use beautypos.Prelude.{
  ℕ, ◌+◌, ◌≡◌, refl, sym, ◌∙◌, inl, inr, Bool-cases, ltb, ◌==◌, if◌then◌else◌, List, [], ◌∷◌, map,
  length, sum, arith,
}
use beautypos.Calendar.{Date}
use beautypos.Plan.Rows.{number}
use beautypos.Dispatch.State.{Row}
use beautypos.Dispatch.Report.{
  Bucket, Report, report, executed_rows, add_row, empty_bucket, add_to, buckets_from,
  insert_by_cost, by_cost, is_measured,
}

-- A sum of the buckets, and what a row adds to it
record Column : Type 0 where
  field : Bucket → ℕ
  part : Row → ℕ
  empty : (key : ℕ) → field (empty_bucket key) ≡ 0
  added : (r : Row) (b : Bucket) → field (add_row r b) ≡ field b + part r

module _ (c : Column) where
  abbrev total : List Bucket → ℕ
  total bs = sum (map c.field bs)

  abbrev parts : List Row → ℕ
  parts rows = sum (map c.part rows)

  total-add_to :
      (key : ℕ) (r : Row) (bs : List Bucket) → total (add_to key r bs) ≡ total bs + c.part r
  unfolding add_to
  total-add_to key r [] = omega (arith, c.added r (empty_bucket key), c.empty key)
  total-add_to key r (b ∷ bs) = elim (Bool-cases (b.key == key)) [
    | inl e ↦ rw e (omega (arith, c.added r b))
    | inr e ↦ rw e (omega (arith, total-add_to key r bs))
  ]

  total-buckets_from :
      (key_of : Row → ℕ) (rows : List Row) (bs : List Bucket)
      → total (buckets_from key_of rows bs) ≡ total bs + parts rows
  unfolding buckets_from
  total-buckets_from key_of [] bs = omega arith
  total-buckets_from key_of (r ∷ rs) bs =
      omega
        (arith, total-buckets_from key_of rs (add_to (key_of r) r bs), total-add_to (key_of r) r bs)

  total-insert :
      (b : Bucket) (bs : List Bucket) → total (insert_by_cost b bs) ≡ c.field b + total bs
  unfolding insert_by_cost
  total-insert b [] = omega arith
  total-insert b (d ∷ ds) = elim (Bool-cases (ltb b.cost d.cost)) [
    | inl e ↦ rw e (omega (arith, total-insert b ds))
    | inr e ↦ rw e refl
  ]

  total-by_cost : (bs : List Bucket) → total (by_cost bs) ≡ total bs
  unfolding by_cost
  total-by_cost [] = refl
  total-by_cost (b ∷ bs) = omega (arith, total-insert b (by_cost bs), total-by_cost bs)

  fresh-buckets :
      (key_of : Row → ℕ) (rows : List Row) → total (buckets_from key_of rows []) ≡ parts rows
  fresh-buckets key_of rows = omega (arith, total-buckets_from key_of rows [])

  sorted-buckets :
      (key_of : Row → ℕ) (rows : List Row)
      → total (by_cost (buckets_from key_of rows [])) ≡ parts rows
  sorted-buckets key_of rows =
      total-by_cost (buckets_from key_of rows []) ∙ fresh-buckets key_of rows

count_column : Column
unfolding add_row
count_column = record {
  field = λ b. b.count;
  part = λ r. r.requested_count;
  empty = λ key. refl;
  added = λ r b. refl;
}

cost_column : Column
unfolding add_row
cost_column = record {
  field = λ b. b.cost;
  part = λ r. r.cost_amount;
  empty = λ key. refl;
  added = λ r b. refl;
}

measured_column : Column
unfolding add_row
measured_column = record {
  field = λ b. b.measured;
  part = λ r. if is_measured r then 1 else 0;
  empty = λ key. refl;
  added = λ r b. refl;
}

dispatches_column : Column
unfolding add_row
dispatches_column = record {
  field = λ b. b.dispatches;
  part = λ r. 1;
  empty = λ key. refl;
  added = λ r b. omega arith;
}

ones-length : (rows : List Row) → sum (map (λ (r : Row). 1) rows) ≡ length rows
ones-length [] = refl
ones-length (r ∷ rs) = omega (arith, ones-length rs)

abbrev counts_of : List Bucket → ℕ
counts_of bs = sum (map (λ (b : Bucket). b.count) bs)

abbrev costs_of : List Bucket → ℕ
costs_of bs = sum (map (λ (b : Bucket). b.cost) bs)

abbrev dispatches_of : List Bucket → ℕ
dispatches_of bs = sum (map (λ (b : Bucket). b.dispatches) bs)

-- The totals are those of the executed rows of the period, and both break-downs add up to them.
pub record AddsUp (rows : List Row) (r : Report) : Type 0 where
  pub count : r.total_count ≡ sum (map (λ (q : Row). q.requested_count) rows)
  pub cost : r.total_cost ≡ sum (map (λ (q : Row). q.cost_amount) rows)
  pub dispatches : r.total_dispatches ≡ length rows
  pub measured : r.measured_dispatches ≡ sum (map (λ q. if is_measured q then 1 else 0) rows)
  pub by_merchant :
      (counts_of r.by_merchant ≡ r.total_count)
      × ((costs_of r.by_merchant ≡ r.total_cost)
          × (dispatches_of r.by_merchant ≡ r.total_dispatches))
  pub by_ad_type :
      (counts_of r.by_ad_type ≡ r.total_count)
      × ((costs_of r.by_ad_type ≡ r.total_cost) × (dispatches_of r.by_ad_type ≡ r.total_dispatches))

-- In the report of a period the requested count, the cost, the number of orders and the number of
-- measured ones are those of the executed rows of the period, and the break-downs by merchant and by
-- type of advertising, in their sorted order, both add up to the same count, cost and number.
pub report-AddsUp :
    (all : List Row) (start end : Date)
    → AddsUp (executed_rows start end all) (report all start end)
unfolding report count_column cost_column measured_column dispatches_column
report-AddsUp all start end =
    let rows = executed_rows start end all in
    let merchant : Row → ℕ = λ r. r.merchant_id in
    let type : Row → ℕ = λ r. number r.ad_type in
    let count = fresh-buckets count_column merchant rows in
    let cost = fresh-buckets cost_column merchant rows in
    let ones = ones-length rows in
    record {
      count = count;
      cost = cost;
      dispatches = refl;
      measured = fresh-buckets measured_column merchant rows;
      by_merchant = (
        total-by_cost count_column (buckets_from merchant rows []),
        (
          total-by_cost cost_column (buckets_from merchant rows []),
          sorted-buckets dispatches_column merchant rows ∙ ones,
        ),
      );
      by_ad_type = (
        sorted-buckets count_column type rows ∙ sym count,
        (
          sorted-buckets cost_column type rows ∙ sym cost,
          sorted-buckets dispatches_column type rows ∙ ones,
        ),
      );
    }
