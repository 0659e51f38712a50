-- ===== src/Keyword/History.antt =====
-- Any history of requests to the keyword service (app/services/ad_keyword.py, with the check of
-- the role that app/api/admin/keyword_routes.py makes before a keyword is judged).
use beautypos.Prelude.{
  ℕ, ◌<◌, ◌≤◌, ◌≡◌, Bool, true, Bool-cases, inl, inr, ◌==◌, if◌then◌else◌, List, [], ◌∷◌, ◌++◌,
  Option, none, some, where_, All, Result, ok, err,
}
use beautypos.Prelude.Int.{ℤ}
use beautypos.Accounts.{User, Role, is_admin}
use beautypos.Text.{Text}
use beautypos.Keyword.Normalize.{Error}
use beautypos.Keyword.Store.{
  Keyword, Table, approved, count_for, find_keyword, max_keywords_per_merchant, create, write,
  update, approve, reject, remove,
}
use beautypos.Keyword.Unique.{IsDistinct, HasIds}

pub data Request : Type 0 where
  creating : ℕ → Option Text → Option Text → Option ℤ → User → ℕ → Request
  updating : ℕ → Option Text → Option Text → Option ℤ → Option Bool → User → ℕ → Request
  approving : ℕ → User → ℕ → Request
  rejecting : ℕ → User → Option Text → ℕ → Request
  removing : ℕ → Request

-- The role that a request comes with is its user's.
abbrev pub IsHonest : (ℕ → Role) → Request → Type 0
IsHonest roles (creating _ _ _ _ user _) = user.role ≡ roles user.id
IsHonest roles (updating _ _ _ _ _ user _) = user.role ≡ roles user.id
IsHonest roles (approving _ user _) = user.role ≡ roles user.id
IsHonest roles (rejecting _ user _ _) = user.role ≡ roles user.id
IsHonest roles (removing _) = Unit

abbrev pub after : Table → Result Error (Table × Keyword) → Table
after t (ok r) = r.0
after t (err e) = t

-- A request about the row that was found, which is a row of the table.
unfoldable pub step_found : Table → Request → Keyword → Table
step_found t (creating m keyword ad_type priority user now) k = t
step_found t (updating i keyword ad_type priority active user now) k =
    after t (update t k user keyword ad_type priority active now)
step_found t (approving i user now) k = if is_admin user.role then (approve t k user now).0 else t
step_found t (rejecting i user reason now) k =
    if is_admin user.role then (reject t k user reason now).0 else t
step_found t (removing i) k = remove t k

unfoldable pub on_found : Table → Request → Option Keyword → Table
on_found t q none = t
on_found t q (some k) = step_found t q k

unfoldable pub step : Table → Request → Table
unfolding on_found step_found
step t (creating m keyword ad_type priority user now) =
    after t (create t m keyword ad_type priority user now)
step t (updating i keyword ad_type priority active user now) =
    on_found t (updating i keyword ad_type priority active user now) (find_keyword i t.rows)
step t (approving i user now) = on_found t (approving i user now) (find_keyword i t.rows)
step t (rejecting i user reason now) =
    on_found t (rejecting i user reason now) (find_keyword i t.rows)
step t (removing i) = on_found t (removing i) (find_keyword i t.rows)

unfoldable pub run : Table → List Request → Table
run t [] = t
run t (q ∷ qs) = run (step t q) qs

-- An approved row names the administrator who approved or wrote it.
abbrev pub IsVetted : (ℕ → Role) → Keyword → Type 0
IsVetted roles k =
    k.status ≡ approved → (a : ℕ) × (k.approved_by ≡ some a) × (is_admin (roles a) ≡ true)

pub record Inv (roles : ℕ → Role) (t : Table) : Type 0 where
  pub below : All (λ k. k.id < t.next_id) t.rows
  pub ids : HasIds t.rows
  pub distinct : IsDistinct t.rows
  pub capacity : (m : ℕ) → count_for m t.rows ≤ max_keywords_per_merchant
  pub vetted : All (IsVetted roles) t.rows

pub All-write :
    (P : Keyword → Type 0) (k : Keyword) (ks : List Keyword) → All P ks → P k → All P (write k ks)
unfolding write
All-write P k [] h p = tt
All-write P k (j ∷ js) h p = elim (Bool-cases (j.id == k.id)) [
  | inl t ↦ rw t (p, h.1)
  | inr t ↦ rw t (h.0, All-write P k js h.1 p)
]

pub All-append :
    (P : Keyword → Type 0) (ks : List Keyword) (k : Keyword) → All P ks → P k → All P (ks ++ k ∷ [])
All-append P [] k h p = (p, tt)
All-append P (j ∷ js) k h p = (h.0, All-append P js k h.1 p)

pub All-where :
    (P : Keyword → Type 0) (q : Keyword → Bool) (ks : List Keyword) → All P ks → All P (where_ q ks)
All-where P q [] h = tt
All-where P q (k ∷ ks) h = elim (Bool-cases (q k)) [
  | inl e ↦ rw e (h.0, All-where P q ks h.1)
  | inr e ↦ rw e (All-where P q ks h.1)
]

pub All-map :
    (P Q : Keyword → Type 0) (ks : List Keyword) → ((k : Keyword) → P k → Q k) → All P ks → All Q ks
All-map P Q [] f h = tt
All-map P Q (k ∷ ks) f h = (f k h.0, All-map P Q ks f h.1)
