-- ===== src/Payout/Covered.antt =====
-- What is asked for and approved never exceeds what was earned (app/api/admin/payout_routes.py).
use beautypos.Prelude.{
  ℕ, ◌+◌, ◌≤◌, ◌≡◌, refl, sym, subst, Bool, true, false, Bool-cases, inl, inr, ◌&&◌, ltb, ltb→ge,
  ◌==◌, if◌then◌else◌, List, [], ◌∷◌, Option, none, some, Option-cases, Returns, arith,
}
use beautypos.Prelude.Int.{ℤ, pos, pos_part, neg_part, ◌-ℤ◌, -ℤ_parts}
use beautypos.Accounts.{Role}
use beautypos.Payout.Available.{
  PayoutStatus, pending, approved, rejected, PayoutRequest, Tables, merchant_ids_of, earned,
  reserved, is_reserving, get_available_payout,
}
use beautypos.Payout.Requests.{
  add_request, is_owner_side, is_sales_side, has_none, create_owner_payout_request,
  create_payout_request, find_request, review, is_pending, or_404, approve_payout, reject_payout,
}

-- The most that may be reserved: what was earned, and nothing on a loss.
abbrev pub limit : Option ℤ → ℕ
limit none = 0
limit (some e) = pos_part e

-- The pending and the approved payouts of each user are covered by what the user has earned.
pub record Covered (t : Tables) (roles : ℕ → Role) (requests : List PayoutRequest) : Type 0 where
  pub covered : (u : ℕ) → reserved u none requests ≤ limit (earned t u (roles u))

fits :
    (e : ℤ) (r amount : ℕ)
    → r ≤ pos_part e
    → amount ≤ pos_part (e -ℤ pos r)
    → amount + r ≤ pos_part e
fits e r amount h k = fits_at e r amount (e -ℤ pos r) (-ℤ_parts e (pos r)) h k
  where
    fits_at :
        (e : ℤ) (r amount : ℕ) (d : ℤ)
        → pos_part d + neg_part e + r ≡ neg_part d + pos_part e + 0
        → r ≤ pos_part e
        → amount ≤ pos_part d
        → amount + r ≤ pos_part e
    fits_at e r amount d g h k = ground arith

fits_option :
    (o : Option ℤ) (r amount : ℕ)
    → r ≤ limit o
    → amount ≤ (elim o [ none ↦ 0 | some e ↦ pos_part (e -ℤ pos r) ])
    → amount + r ≤ limit o
fits_option none r amount h k = omega arith
fits_option (some e) r amount h k = fits e r amount h k

fits_limit :
    (t : Tables) (requests : List PayoutRequest) (u : ℕ) (role : Role) (amount : ℕ)
    → reserved u none requests ≤ limit (earned t u role)
    → amount ≤ get_available_payout t requests u role none
    → amount + reserved u none requests ≤ limit (earned t u role)
unfolding get_available_payout
fits_limit t requests u role amount h k =
    fits_option (earned t u role) (reserved u none requests) amount h k

pending_reserves : (s : PayoutStatus) → is_pending s ≡ true → is_reserving s ≡ true
pending_reserves pending h = refl
pending_reserves approved h = refl
pending_reserves rejected h = ground arith

less_reserved :
    (x y z : Bool) (a n : ℕ)
    → z ≡ true
    → (if x && y && true then a + n else n) ≤ (if x && z && true then a + n else n)
less_reserved x y z a n h = ground arith

after_row : (x : Bool) (a m n : ℕ) → m ≤ n → (if x then a + m else m) ≤ (if x then a + n else n)
after_row true a m n h = omega arith
after_row false a m n h = h

reserved-review :
    (u pid : ℕ) (status : PayoutStatus) (now reviewer : ℕ) (rs : List PayoutRequest)
    → Returns (λ r. is_pending r.status ≡ true) (or_404 (find_request pid rs))
    → reserved u none (review pid status now reviewer rs) ≤ reserved u none rs
unfolding reserved review find_request
reserved-review u pid status now reviewer [] h = omega arith
reserved-review u pid status now reviewer (r ∷ rs) h = elim (Bool-cases (r.id == pid)) [
  | inl e ↦ rw e (
      less_reserved (r.requester_user_id == u) (is_reserving status) (is_reserving r.status)
        r.amount (reserved u none rs) (pending_reserves r.status (rw e at h)))
  | inr e ↦ rw e (
      after_row ((r.requester_user_id == u) && is_reserving r.status && true) r.amount
        (reserved u none (review pid status now reviewer rs)) (reserved u none rs)
        (reserved-review u pid status now reviewer rs (rw e at h)))
]

new_row :
    (v u amount n : ℕ) (l : ℕ)
    → n ≤ l
    → (v ≡ u → amount + n ≤ l)
    → (if (u == v) && true && true then amount + n else n) ≤ l
new_row v u amount n l h k = ground arith

add_request-Covered :
    (t : Tables) (roles : ℕ → Role) (requests : List PayoutRequest) (u amount : ℕ)
    → Covered t roles requests
    → Returns (Covered t roles) (add_request t requests u (roles u) amount)
unfolding add_request reserved
add_request-Covered t roles requests u amount c =
    elim (Bool-cases (ltb (get_available_payout t requests u (roles u) none) amount)) [
      | inl e ↦ rw e tt
      | inr e ↦ rw e (record {
        covered = λ v.
            new_row v u amount (reserved v none requests) (limit (earned t v (roles v)))
              (c.covered v)
              (λ p. fits_limit t requests v (roles v) amount (c.covered v) (
                subst (λ w. amount ≤ get_available_payout t requests w (roles w) none) (sym p)
                  (ltb→ge (get_available_payout t requests u (roles u) none) amount e)));
      })
    ]

review-Covered :
    (t : Tables) (roles : ℕ → Role) (requests : List PayoutRequest) (pid : ℕ)
    (status : PayoutStatus) (now by : ℕ)
    → Covered t roles requests
    → Returns (λ r. is_pending r.status ≡ true) (or_404 (find_request pid requests))
    → Covered t roles (review pid status now by requests)
review-Covered t roles requests pid status now by c h = record {
  covered = λ u. omega (arith, c.covered u, reserved-review u pid status now by requests h);
}

pub approve_payout-Covered :
    (t : Tables) (roles : ℕ → Role) (requests : List PayoutRequest) (pid now by : ℕ)
    → Covered t roles requests
    → Returns (Covered t roles) (approve_payout t requests pid now by)
unfolding approve_payout
approve_payout-Covered t roles requests pid now by c =
    elim (Option-cases (find_request pid requests)) [
      | inl e ↦ rw e tt
      | inr (r, e) ↦ elim (Bool-cases (is_pending r.status)) [
        | inl p ↦
            elim (Bool-cases (
              ltb (get_available_payout t requests r.requester_user_id r.role (some r.id))
                r.amount)) [
                  | inl q ↦ rw (e, p, q) tt
                  | inr q ↦
                      rw (e, p, q) (review-Covered t roles requests pid approved now by c (rw e p))
                ]
        | inr p ↦ rw (e, p) tt
      ]
    ]

pub reject_payout-Covered :
    (t : Tables) (roles : ℕ → Role) (requests : List PayoutRequest) (pid now by : ℕ)
    → Covered t roles requests
    → Returns (Covered t roles) (reject_payout requests pid now by)
unfolding reject_payout
reject_payout-Covered t roles requests pid now by c =
    elim (Option-cases (find_request pid requests)) [
      | inl e ↦ rw e tt
      | inr (r, e) ↦ elim (Bool-cases (is_pending r.status)) [
        | inl p ↦ rw (e, p) (review-Covered t roles requests pid rejected now by c (rw e p))
        | inr p ↦ rw (e, p) tt
      ]
    ]

pub create_owner_payout_request-Covered :
    (t : Tables) (roles : ℕ → Role) (requests : List PayoutRequest) (u amount : ℕ)
    → Covered t roles requests
    → Returns (Covered t roles) (create_owner_payout_request t requests u (roles u) amount)
unfolding create_owner_payout_request
create_owner_payout_request-Covered t roles requests u amount c =
    elim (Bool-cases (is_owner_side (roles u))) [
      | inl e ↦ elim (Bool-cases (has_none (merchant_ids_of t u))) [
        | inl f ↦ rw (e, f) tt
        | inr f ↦ rw (e, f) (add_request-Covered t roles requests u amount c)
      ]
      | inr e ↦ rw e tt
    ]

pub create_payout_request-Covered :
    (t : Tables) (roles : ℕ → Role) (requests : List PayoutRequest) (u amount : ℕ)
    → Covered t roles requests
    → Returns (Covered t roles) (create_payout_request t requests u (roles u) amount)
unfolding create_payout_request
create_payout_request-Covered t roles requests u amount c =
    elim (Bool-cases (is_sales_side (roles u))) [
      | inl e ↦ rw e (add_request-Covered t roles requests u amount c)
      | inr e ↦ rw e tt
    ]
