-- ===== src/Rewardpop/Counts.antt =====
-- The progress of an order in a reply (`extract_counts` of app/services/rewardpop.py).
use beautypos.Prelude.{Bool, false, ◌||◌, if◌then◌else◌, List, [], ◌∷◌, Option, none, some}
use beautypos.Prelude.Int.{ℤ, ◌+ℤ◌}
use beautypos.Text.{Text, text_eq, codes}
use beautypos.Dispatch.Provider.{Counts}
use beautypos.Rewardpop.Json.{
  Json, whole, fraction, array, object, Items, no_item, item, Fields, no_field, field, plain_key,
  is_among,
}

abbrev pub count_keys : List Text
count_keys =
    codes "reqcount" ∷ codes "rewardcount" ∷ codes "totalreqcount" ∷ codes "keywordcount" ∷ []

-- `int(value)` of a number that is no Boolean
abbrev pub int_of : Json → Option ℤ
int_of (whole n) = some n
int_of (fraction n) = some n
int_of _ = none

abbrev pub plus : Option ℤ → ℤ → Option ℤ
plus none n = some n
plus (some m) n = some (m +ℤ n)

-- `totals[field] = totals.get(field, 0) + int(value)`; the total is not kept.
unfoldable pub count_in : Text → Option ℤ → Counts → Counts
count_in key none c = c
count_in key (some n) c =
    if text_eq key (codes "reqcount")
    then record c { delivered_count = plus c.delivered_count n }
    else if text_eq key (codes "rewardcount")
    then record c { reward_count = plus c.reward_count n }
    else if text_eq key (codes "keywordcount")
    then record c { keyword_count = plus c.keyword_count n }
    else c

module _ (lower : Text → Text) where
  -- `k.lower().replace("_", "") in COUNT_FIELDS` of some key
  unfoldable pub is_row : Fields → Bool
  unfolding plain_key
  is_row no_field = false
  is_row (field key v fs) = is_among count_keys (plain_key lower key) || is_row fs

  unfoldable pub add_fields : Fields → Counts → Counts
  unfolding plain_key count_in
  add_fields no_field c = c
  add_fields (field key v fs) c = add_fields fs (count_in (plain_key lower key) (int_of v) c)

-- The numbers of the rows are summed; inside a row nothing is looked for.
unfoldable mutual
  unfolding is_row add_fields

  pub counts_from : (Text → Text) → Json → Counts → Counts
  counts_from lower (object fs) c =
      let inside = counts_in_fields lower fs c in
      if is_row lower fs then add_fields lower fs c else inside
  counts_from lower (array xs) c = counts_in_items lower xs c
  counts_from lower _ c = c

  pub counts_in_items : (Text → Text) → Items → Counts → Counts
  counts_in_items lower no_item c = c
  counts_in_items lower (item x xs) c = counts_in_items lower xs (counts_from lower x c)

  pub counts_in_fields : (Text → Text) → Fields → Counts → Counts
  counts_in_fields lower no_field c = c
  counts_in_fields lower (field key v fs) c = counts_in_fields lower fs (counts_from lower v c)

abbrev pub no_count : Counts
no_count = record { delivered_count = none; reward_count = none; keyword_count = none }

unfoldable pub extract_counts : (Text → Text) → Json → Counts
unfolding counts_from
extract_counts lower body = counts_from lower body no_count
