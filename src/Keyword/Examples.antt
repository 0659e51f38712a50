-- ===== src/Keyword/Examples.antt =====
-- The theorems on the keyword service at concrete inputs.
use beautypos.Prelude.{
  ℕ, suc, ◌+◌, ◌%◌, min, max, ◌≡◌, refl, true, false, List, [], ◌∷◌, length, none, some, ok, arith,
}
use beautypos.Accounts.{User, Role, admin, owner}
use beautypos.Text.{codes, text_eq, strip, left_strip, right_strip, is_space}
use beautypos.Keyword.Normalize.{normalize_keyword, collapse}
use beautypos.Keyword.NormalForm.{normalize_keyword-idempotent}
use beautypos.Keyword.Store.{Table, Keyword, update, pending}
use beautypos.Keyword.Changes.{UpdatedOrRaised}
use beautypos.Keyword.Update.{update-Updated}
use beautypos.Keyword.History.{Request, creating, updating, approving, run, Inv}
use beautypos.Keyword.Preserved.{no_keywords, run-no_keywords}
use beautypos.Calendar.{Date, toordinal}
use beautypos.Keyword.Rotation.{get_elem?, pick_for_date, get-pick_for_date}

abbrev roles : ℕ → Role
roles n = elim n [ suc k ↦ owner | _ ↦ admin ]

abbrev manager : User
manager = record { id = 0; role = admin }

abbrev shop : User
shop = record { id = 5; role = owner }

abbrev requests : List Request
requests =
    creating 7 (some (codes " hair  salon ")) none none shop 1
    ∷ approving 1 manager 2
    ∷ updating 1 (some (codes "nail salon")) none none none shop 3
    ∷ []

run-no_keywords_example : Inv roles (run no_keywords requests)
run-no_keywords_example = run-no_keywords roles requests (ground arith)

abbrev row : Keyword
row = record {
  id = 1;
  merchant_id = 7;
  keyword = codes "hair salon";
  ad_type = [];
  priority = 0;
  is_active = true;
  status = pending;
  reject_reason = none;
  created_by = 5;
  created_by_admin = false;
  approved_by = none;
  approved_at = none;
}

abbrev table : Table
table = record { rows = row ∷ []; next_id = 2 }

update-Updated_example :
    UpdatedOrRaised table row shop (update table row shop (some (codes "nail")) none none none 9)
unfolding text_eq
update-Updated_example = update-Updated table row shop (some (codes "nail")) none none none 9 refl

normalize_keyword-idempotent_example :
    normalize_keyword (some (codes "hair salon")) ≡ ok (codes "hair salon")
unfolding normalize_keyword collapse strip left_strip right_strip is_space
normalize_keyword-idempotent_example =
    normalize_keyword-idempotent (some (codes " hair  salon ")) (codes "hair salon") refl

abbrev new_year : Date
new_year = record { year = 2026; month = 1; day = 1 }

abbrev three_names : List ℕ
three_names = 11 ∷ 12 ∷ 13 ∷ []

get-pick_for_date_example :
    (length (pick_for_date three_names new_year 2) ≡ max 1 (min 2 3))
    × (get_elem? (pick_for_date three_names new_year 2) 1
        ≡ get_elem? three_names ((toordinal new_year + 1) % 3))
get-pick_for_date_example = get-pick_for_date 11 (12 ∷ 13 ∷ []) new_year 2 1 (omega arith)

two_picked : pick_for_date three_names new_year 2 ≡ 11 ∷ 12 ∷ []
unfolding pick_for_date toordinal
two_picked = refl
