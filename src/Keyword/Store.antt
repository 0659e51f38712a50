-- ===== src/Keyword/Store.antt =====
-- The table of keywords, and registering, changing and judging one (app/services/ad_keyword.py,
-- app/models/ad_keyword.py). A time is a time stamp. A call that raises leaves the table alone: the
-- session is closed without a commit.
use beautypos.Prelude.{
  ℕ, suc, ◌+◌, Bool, true, false, ◌&&◌, ◌||◌, not, leb, ◌==◌, if◌then◌else◌, List, [], ◌∷◌, ◌++◌,
  Option, none, some, length, any, where_, Result, ok, err, ◌>>=◌, ◌>>◌, raise_if,
}
use beautypos.Prelude.Int.{ℤ, pos_part}
use beautypos.Accounts.{User, is_admin}
use beautypos.Text.{Text, text_eq, clean}
use beautypos.Keyword.Normalize.{
  Error, not_found, too_many_keywords, already_registered, normalize_keyword, normalize_ad_type,
}

pub data Status : Type 0 where
  pending approved rejected : Status

abbrev pub is_approved : Status → Bool
is_approved approved = true
is_approved _ = false

-- `MerchantAdKeyword`; `created_by_admin` is `created_by_role == "admin"`.
pub record Keyword : Type 0 where
  pub id : ℕ
  pub merchant_id : ℕ
  pub keyword : Text
  pub ad_type : Text
  pub priority : ℕ
  pub is_active : Bool
  pub status : Status
  pub reject_reason : Option Text
  pub created_by : ℕ
  pub created_by_admin : Bool
  pub approved_by : Option ℕ
  pub approved_at : Option ℕ

-- The rows in the order of their ids, and the id that the next row gets.
pub record Table : Type 0 where
  pub rows : List Keyword
  pub next_id : ℕ

abbrev pub max_keywords_per_merchant : ℕ
max_keywords_per_merchant = 20

abbrev pub is_usable : Keyword → Bool
is_usable k = k.is_active && is_approved k.status

unfoldable pub find_keyword : ℕ → List Keyword → Option Keyword
find_keyword i [] = none
find_keyword i (k ∷ ks) = if k.id == i then some k else find_keyword i ks

found : Option Keyword → Result Error Keyword
found none = err not_found
found (some k) = ok k

unfoldable pub get_or_404 : Table → ℕ → Result Error Keyword
unfolding found
get_or_404 t i = found (find_keyword i t.rows)

abbrev pub of_merchant : ℕ → Keyword → Bool
of_merchant m k = k.merchant_id == m

unfoldable pub count_for : ℕ → List Keyword → ℕ
count_for m [] = 0
count_for m (k ∷ ks) = (if of_merchant m k then 1 else 0) + count_for m ks

abbrev pub assert_capacity : Table → ℕ → Result Error (Unit {0})
assert_capacity t m =
    raise_if (leb max_keywords_per_merchant (count_for m t.rows)) too_many_keywords

abbrev pub same_content : ℕ → Text → Text → Keyword → Bool
same_content m ad_type keyword k =
    k.merchant_id == m && (text_eq k.ad_type ad_type && text_eq k.keyword keyword)

-- `exclude_id`: ids begin at 1, so that it is never taken for missing.
abbrev pub is_other : Option ℕ → Keyword → Bool
is_other none k = true
is_other (some i) k = not (k.id == i)

abbrev pub assert_unique : Table → ℕ → Text → Text → Option ℕ → Result Error (Unit {0})
assert_unique t m ad_type keyword exclude_id =
    raise_if (any (λ k. same_content m ad_type keyword k && is_other exclude_id k) t.rows)
      already_registered

-- `max(0, int(priority or 0))`
abbrev pub priority_or_zero : Option ℤ → ℕ
priority_or_zero none = 0
priority_or_zero (some p) = pos_part p

unfoldable pub create :
    Table → ℕ → Option Text → Option Text → Option ℤ → User → ℕ → Result Error (Table × Keyword)
create t m keyword ad_type priority user now = do
  clean_keyword ← normalize_keyword keyword
  clean_type ← normalize_ad_type ad_type
  assert_capacity t m
  assert_unique t m clean_type clean_keyword none
  let by_admin = is_admin user.role
  let k : Keyword = record {
    id = t.next_id;
    merchant_id = m;
    keyword = clean_keyword;
    ad_type = clean_type;
    priority = priority_or_zero priority;
    is_active = true;
    status = if by_admin then approved else pending;
    reject_reason = none;
    created_by = user.id;
    created_by_admin = by_admin;
    approved_by = if by_admin then some user.id else none;
    approved_at = if by_admin then some now else none;
  }
  ok (record { rows = t.rows ++ k ∷ []; next_id = suc t.next_id }, k)

-- The row `k` as it is written back.
unfoldable pub write : Keyword → List Keyword → List Keyword
write k [] = []
write k (j ∷ js) = if j.id == k.id then k ∷ js else j ∷ write k js

abbrev pub write_back : Table → Keyword → Table
write_back t k = record t { rows = write k t.rows }

-- The row with the new text, and whether that is another one than before.
unfoldable pub set_keyword : Table → Keyword → Option Text → Result Error (Keyword × Bool)
set_keyword t k none = ok (k, false)
set_keyword t k (some raw) = do
  clean ← normalize_keyword (some raw)
  if text_eq clean k.keyword then ok (k, false) else (do
    assert_unique t k.merchant_id k.ad_type clean (some k.id)
    ok (record k { keyword = clean }, true))

unfoldable pub set_ad_type : Table → Keyword → Option Text → Result Error (Keyword × Bool)
set_ad_type t k none = ok (k, false)
set_ad_type t k (some raw) = do
  clean_type ← normalize_ad_type (some raw)
  if text_eq clean_type k.ad_type then ok (k, false) else (do
    assert_unique t k.merchant_id clean_type k.keyword (some k.id)
    ok (record k { ad_type = clean_type }, true))

unfoldable pub set_priority : Option ℤ → Keyword → Keyword
set_priority none k = k
set_priority (some p) k = record k { priority = pos_part p }

unfoldable pub set_active : Option Bool → Keyword → Keyword
set_active none k = k
set_active (some b) k = record k { is_active = b }

-- New content goes live at once if an administrator wrote it, and is judged anew otherwise.
unfoldable pub judge_change : User → ℕ → Keyword → Keyword
judge_change user now k =
    if is_admin user.role
    then record k {
      status = approved;
      approved_by = some user.id;
      approved_at = some now;
      reject_reason = none;
    }
    else record k { status = pending; approved_by = none; approved_at = none; reject_reason = none }

unfoldable pub update :
    Table
    → Keyword
    → User
    → Option Text
    → Option Text
    → Option ℤ
    → Option Bool
    → ℕ
    → Result Error (Table × Keyword)
unfolding set_priority set_active
update t k user keyword ad_type priority is_active now = do
  named ← set_keyword t k keyword
  typed ← set_ad_type t named.0 ad_type
  let k' = set_active is_active (set_priority priority typed.0)
  let k'' = if named.1 || typed.1 then judge_change user now k' else k'
  ok (write_back t k'', k'')

unfoldable pub approve : Table → Keyword → User → ℕ → Table × Keyword
approve t k user now =
    let k' : Keyword = record k {
      status = approved;
      approved_by = some user.id;
      approved_at = some now;
      reject_reason = none;
    } in
    (write_back t k', k')

unfoldable pub reject : Table → Keyword → User → Option Text → ℕ → Table × Keyword
reject t k user reason now =
    let k' : Keyword = record k {
      status = rejected;
      approved_by = some user.id;
      approved_at = some now;
      reject_reason = clean reason;
    } in
    (write_back t k', k')

unfoldable pub remove : Table → Keyword → Table
remove t k = record t { rows = where_ (λ j. not (j.id == k.id)) t.rows }

unfoldable pub pending_count : Table → Option ℕ → ℕ
pending_count t m = length (where_ (λ k. is_pending k.status && asked m k) t.rows)
  where
    is_pending : Status → Bool
    is_pending pending = true
    is_pending _ = false

    asked : Option ℕ → Keyword → Bool
    asked none k = true
    asked (some m) k = of_merchant m k
