-- ===== src/Plan/Overrides.antt =====
-- Setting the monthly target of a merchant (app/services/plan_service.py).
use beautypos.Prelude.{
  ℕ, ◌≡◌, refl, sym, ap, ◌∙◌, Bool, true, false, ◌&&◌, ◌||◌, Bool-cases, inl, inr, ◌==◌,
  if◌then◌else◌, List, [], ◌∷◌, Option, none, some, Option-cases, any, arith,
}
use beautypos.Prelude.Int.{ℤ}
use beautypos.Plan.Rows.{
  AdType, number, Plan, Override, is_for, find_override, plan_target, override_or,
  effective_monthly_target, write_override, delete_override, set_override,
}

abbrev pub has_override : ℕ → AdType → List Override → Bool
has_override m ad_type rows = any (is_for m ad_type) rows

-- The unique key `uq_merchant_ad_override`
abbrev pub IsUnique : List Override → Type 0
IsUnique [] = Unit
IsUnique (r ∷ rs) = (has_override r.merchant_id r.ad_type rs ≡ false) × IsUnique rs

abbrev pub same_key : ℕ → AdType → ℕ → AdType → Bool
same_key m a n b = n == m && number b == number a

-- What the table gives for a key.
abbrev pub override_of : List Override → ℕ → AdType → ℤ → ℤ
override_of [] m a target = target
override_of (r ∷ rs) m a target =
    let rest = override_of rs m a target in
    if is_for m a r then override_or (some r) target else rest

find_override-override_of :
    (rows : List Override) (m : ℕ) (a : AdType) (target : ℤ)
    → override_or (find_override rows m a) target ≡ override_of rows m a target
unfolding find_override
find_override-override_of [] m a target = refl
find_override-override_of (r ∷ rs) m a target = elim (Bool-cases (is_for m a r)) [
  | inl e ↦ rw e refl
  | inr e ↦ rw e (find_override-override_of rs m a target)
]

abbrev pub or_target : Option ℤ → ℤ → ℤ
or_target none target = target
or_target (some v) target = v

override_of-write_override :
    (m : ℕ) (a : AdType) (v : ℤ) (rows : List Override) (n : ℕ) (b : AdType) (target : ℤ)
    → has_override m a rows ≡ true
    → override_of (write_override m a v rows) n b target
      ≡ (if same_key m a n b then v else override_of rows n b target)
unfolding write_override is_for
override_of-write_override m a v [] n b target h = ground arith
override_of-write_override m a v (r ∷ rs) n b target h =
    ground (arith, override_of-write_override m a v rs n b target)

pub override_of-absent :
    (rows : List Override) (m : ℕ) (a : AdType) (target : ℤ)
    → has_override m a rows ≡ false
    → override_of rows m a target ≡ target
override_of-absent [] m a target h = refl
override_of-absent (r ∷ rs) m a target h = ground (arith, override_of-absent rs m a target)

has_override-same :
    (m : ℕ) (a : AdType) (n : ℕ) (b : AdType) (rows : List Override)
    → same_key m a n b ≡ true
    → has_override n b rows ≡ has_override m a rows
unfolding is_for
has_override-same m a n b [] h = refl
has_override-same m a n b (r ∷ rs) h = ground (arith, has_override-same m a n b rs h)

is_for-same :
    (m : ℕ) (a : AdType) (n : ℕ) (b : AdType) (r : Override)
    → same_key m a n b ≡ true
    → is_for n b r ≡ is_for m a r
unfolding is_for
is_for-same m a n b r h = ground arith

is_for-row :
    (m : ℕ) (a : AdType) (n : ℕ) (b : AdType) (r : Override)
    → is_for m a r ≡ true
    → is_for n b r ≡ same_key m a n b
unfolding is_for
is_for-row m a n b r h = ground arith

pub has_override-row :
    (r : Override) (n : ℕ) (b : AdType) (rs : List Override)
    → is_for n b r ≡ true
    → has_override r.merchant_id r.ad_type rs ≡ has_override n b rs
unfolding is_for
has_override-row r n b rs h = has_override-same n b r.merchant_id r.ad_type rs h

override_of-delete_override :
    (m : ℕ) (a : AdType) (rows : List Override) (n : ℕ) (b : AdType) (target : ℤ)
    → IsUnique rows
    → override_of (delete_override m a rows) n b target
      ≡ (if same_key m a n b then target else override_of rows n b target)
unfolding delete_override
override_of-delete_override m a [] n b target u = elim (Bool-cases (same_key m a n b)) [
  | inl s ↦ rw s refl
  | inr s ↦ rw s refl
]
override_of-delete_override m a (r ∷ rs) n b target u =
    let rest = override_of-delete_override m a rs n b target u.1 in
    elim (Bool-cases (is_for m a r)) [
      | inl e ↦ elim (Bool-cases (same_key m a n b)) [
        | inl s ↦
            rw (e, s)
              (override_of-absent rs n b target
                (sym (has_override-row r n b rs (is_for-row m a n b r e ∙ s)) ∙ u.0))
        | inr s ↦ rw (e, s, is_for-row m a n b r e ∙ s) refl
      ]
      | inr e ↦ elim (Bool-cases (same_key m a n b)) [
        | inl s ↦ rw (e, is_for-same m a n b r s ∙ e) rest
        | inr s ↦ elim (Bool-cases (is_for n b r)) [
          | inl f ↦ rw (e, s, f) refl
          | inr f ↦ rw (e, f) rest
        ]
      ]
    ]

pub or_false : (x y : Bool) → x || y ≡ false → (x ≡ false) × (y ≡ false)
or_false true y h = ground arith
or_false false y h = (refl, h)

has_override-write_override :
    (m : ℕ) (a : AdType) (v : ℤ) (n : ℕ) (b : AdType) (rows : List Override)
    → has_override n b (write_override m a v rows) ≡ has_override n b rows
unfolding write_override is_for
has_override-write_override m a v n b [] = refl
has_override-write_override m a v n b (r ∷ rs) =
    ground (arith, has_override-write_override m a v n b rs)

has_override-delete_override :
    (m : ℕ) (a : AdType) (n : ℕ) (b : AdType) (rows : List Override)
    → has_override n b rows ≡ false
    → has_override n b (delete_override m a rows) ≡ false
unfolding delete_override
has_override-delete_override m a n b [] h = refl
has_override-delete_override m a n b (r ∷ rs) h =
    let parts = or_false (is_for n b r) (has_override n b rs) h in
    elim (Bool-cases (is_for m a r)) [
      | inl e ↦ rw e parts.1
      | inr e ↦ rw (e, parts.0) (has_override-delete_override m a n b rs parts.1)
    ]

write_override-IsUnique :
    (m : ℕ) (a : AdType) (v : ℤ) (rows : List Override)
    → IsUnique rows
    → IsUnique (write_override m a v rows)
unfolding write_override
write_override-IsUnique m a v [] u = tt
write_override-IsUnique m a v (r ∷ rs) u = elim (Bool-cases (is_for m a r)) [
  | inl e ↦ rw e u
  | inr e ↦ rw e (
    (has_override-write_override m a v r.merchant_id r.ad_type rs ∙ u.0),
    write_override-IsUnique m a v rs u.1,
  )
]

delete_override-IsUnique :
    (m : ℕ) (a : AdType) (rows : List Override)
    → IsUnique rows
    → IsUnique (delete_override m a rows)
unfolding delete_override
delete_override-IsUnique m a [] u = tt
delete_override-IsUnique m a (r ∷ rs) u = elim (Bool-cases (is_for m a r)) [
  | inl e ↦ rw e u.1
  | inr e ↦ rw e (
    has_override-delete_override m a r.merchant_id r.ad_type rs u.0,
    delete_override-IsUnique m a rs u.1,
  )
]

abbrev is_some : Option Override → Bool
is_some none = false
is_some (some r) = true

has_override-found :
    (rows : List Override) (m : ℕ) (a : AdType)
    → has_override m a rows ≡ is_some (find_override rows m a)
unfolding find_override
has_override-found [] m a = refl
has_override-found (r ∷ rs) m a = elim (Bool-cases (is_for m a r)) [
  | inl e ↦ rw e refl
  | inr e ↦ rw e (has_override-found rs m a)
]

-- What `set_override` does to a table with one row a merchant and type.
pub record Sets (rows : List Override) (m : ℕ) (a : AdType) (monthly : Option ℤ) : Type 0 where
  pub unique : IsUnique (set_override rows m a monthly)
  pub target :
      (n : ℕ) (b : AdType) (plan : Option Plan)
      → effective_monthly_target (set_override rows m a monthly) n b plan ≡ (
          if same_key m a n b
          then or_target monthly (plan_target plan b)
          else effective_monthly_target rows n b plan)

pub effective-override_of :
    (rows : List Override) (n : ℕ) (b : AdType) (plan : Option Plan)
    → effective_monthly_target rows n b plan ≡ override_of rows n b (plan_target plan b)
unfolding effective_monthly_target
effective-override_of rows n b plan = find_override-override_of rows n b (plan_target plan b)

is_for-new :
    (m : ℕ) (a : AdType) (v : ℤ) (n : ℕ) (b : AdType)
    → is_for n b (record { merchant_id = m; ad_type = a; monthly_override = some v })
      ≡ same_key m a n b
unfolding is_for
is_for-new m a v n b = ground arith

override_of-set_override :
    (rows : List Override) (m : ℕ) (a : AdType) (monthly : Option ℤ) (n : ℕ) (b : AdType)
    (target : ℤ)
    → IsUnique rows
    → override_of (set_override rows m a monthly) n b target
      ≡ (if same_key m a n b then or_target monthly target else override_of rows n b target)
unfolding set_override
override_of-set_override rows m a none n b target u =
    override_of-delete_override m a rows n b target u
override_of-set_override rows m a (some v) n b target u =
    elim (Option-cases (find_override rows m a)) [
      | inl e ↦ rw (set_override, e, is_for-new m a v n b) refl
      | inr (r, e) ↦
          rw (set_override, e)
            (override_of-write_override m a v rows n b target
              (has_override-found rows m a ∙ ap is_some e))
    ]

set_override-IsUnique :
    (rows : List Override) (m : ℕ) (a : AdType) (monthly : Option ℤ)
    → IsUnique rows
    → IsUnique (set_override rows m a monthly)
unfolding set_override
set_override-IsUnique rows m a none u = delete_override-IsUnique m a rows u
set_override-IsUnique rows m a (some v) u = elim (Option-cases (find_override rows m a)) [
  | inl e ↦ rw (set_override, e) ((has_override-found rows m a ∙ ap is_some e), u)
  | inr (r, e) ↦ rw (set_override, e) (write_override-IsUnique m a v rows u)
]

-- In a table with one row a merchant and type, setting or removing a target keeps it so, and the
-- monthly target of that merchant and type is then the given number, or the plan's after a removal;
-- every other target is what it was.
pub set_override-Sets :
    (rows : List Override) (m : ℕ) (a : AdType) (monthly : Option ℤ)
    → IsUnique rows
    → Sets rows m a monthly
set_override-Sets rows m a monthly u = record {
  unique = set_override-IsUnique rows m a monthly u;
  target = λ n b plan.
      rw
        (
          effective-override_of (set_override rows m a monthly) n b plan,
          effective-override_of rows n b plan,
        )
        (override_of-set_override rows m a monthly n b (plan_target plan b) u);
}
