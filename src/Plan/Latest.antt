-- ===== src/Plan/Latest.antt =====
-- Both ways to find the plan of a merchant give the same (app/services/plan_service.py).
use beautypos.Prelude.{
  ℕ, ◌≡◌, ◌≢◌, refl, sym, ap, subst, ◌∙◌, Bool, true, false, Bool-cases, inl, inr, ◌==◌,
  if◌then◌else◌, List, [], ◌∷◌, Option, none, some, Option-cases, first, where_, any, All, arith,
}
use beautypos.Plan.Rows.{
  Assignment, later, insert_desc, by_latest, current_assignment, get_current_plan,
}
use beautypos.Plan.Summary.{insert_asc, by_earliest, last_of, plan_by_merchant}

-- Ids are keys.
abbrev pub HasDistinctIds : List Assignment → Type 0
HasDistinctIds [] = Unit
HasDistinctIds (a ∷ rest) = All (λ b. a.id ≢ b.id) rest × HasDistinctIds rest

abbrev IsSorted : List Assignment → Type 0
IsSorted [] = Unit
IsSorted (a ∷ rest) = All (λ b. later a b ≡ false) rest × IsSorted rest

later_trans : (a b c : Assignment) → later a b ≡ false → later b c ≡ false → later a c ≡ false
unfolding later
later_trans a b c h k = ground arith

later_asym : (a b : Assignment) → later a b ≡ true → later b a ≡ false
unfolding later
later_asym a b h = ground arith

later_total : (a b : Assignment) → a.id ≢ b.id → later a b ≡ false → later b a ≡ true
unfolding later
later_total a b d h = ground arith

All-insert_asc :
    (P : Assignment → Type 0) (a : Assignment) (bs : List Assignment)
    → P a
    → All P bs
    → All P (insert_asc a bs)
unfolding insert_asc
All-insert_asc P a [] p q = (p, q)
All-insert_asc P a (b ∷ bs) p q = elim (Bool-cases (later a b)) [
  | inl e ↦ rw e (q.0, All-insert_asc P a bs p q.1)
  | inr e ↦ rw e (p, q)
]

All-later :
    (a b : Assignment) (bs : List Assignment)
    → later a b ≡ false
    → All (λ c. later b c ≡ false) bs
    → All (λ c. later a c ≡ false) bs
All-later a b [] h q = tt
All-later a b (c ∷ cs) h q = (later_trans a b c h q.0, All-later a b cs h q.1)

insert_asc-IsSorted :
    (a : Assignment) (bs : List Assignment) → IsSorted bs → IsSorted (insert_asc a bs)
unfolding insert_asc
insert_asc-IsSorted a [] s = (tt, tt)
insert_asc-IsSorted a (b ∷ bs) s = elim (Bool-cases (later a b)) [
  | inl e ↦ rw e (
    All-insert_asc (λ c. later b c ≡ false) a bs (later_asym a b e) s.0,
    insert_asc-IsSorted a bs s.1,
  )
  | inr e ↦ rw e ((e, All-later a b bs e s.0), s)
]

by_earliest-IsSorted : (as_ : List Assignment) → IsSorted (by_earliest as_)
unfolding by_earliest
by_earliest-IsSorted [] = tt
by_earliest-IsSorted (a ∷ rest) =
    insert_asc-IsSorted a (by_earliest rest) (by_earliest-IsSorted rest)

abbrev OfSome : (Assignment → Type 0) → Option Assignment → Type 0
OfSome P none = Unit
OfSome P (some z) = P z

All-last_of :
    (P : Assignment → Type 0) (m : ℕ) (bs : List Assignment) → All P bs → OfSome P (last_of m bs)
unfolding last_of
All-last_of P m [] q = tt
All-last_of P m (b ∷ bs) q = elim (Option-cases (last_of m bs)) [
  | inl f ↦ elim (Bool-cases (b.merchant_id == m)) [ inl g ↦ rw (f, g) q.0 | inr g ↦ rw (f, g) tt ]
  | inr (w, f) ↦ rw f (subst (OfSome P) f (All-last_of P m bs q.1))
]

-- The later of a row and another, which may be missing.
abbrev later_of : Assignment → Option Assignment → Assignment
later_of a none = a
later_of a (some z) = if later a z then a else z

stays_last :
    (a : Assignment) (x : Bool) (o : Option Assignment)
    → OfSome (λ c. later a c ≡ false) o
    → (elim o [ some z ↦ some z | none ↦ if x then some a else none ])
      ≡ (if x then some (later_of a o) else o)
stays_last a true none h = refl
stays_last a false none h = refl
stays_last a true (some z) h = rw h refl
stays_last a false (some z) h = refl

goes_first :
    (a b : Assignment) (x : Bool) (o : Option Assignment)
    → later a b ≡ true
    → some (later_of a o)
      ≡ some (later_of a (elim o [ some z ↦ some z | none ↦ if x then some b else none ]))
goes_first a b true none h = rw h refl
goes_first a b false none h = refl
goes_first a b x (some z) h = refl

last_of-insert_asc :
    (m : ℕ) (a : Assignment) (bs : List Assignment)
    → IsSorted bs
    → last_of m (insert_asc a bs)
      ≡ (if a.merchant_id == m then some (later_of a (last_of m bs)) else last_of m bs)
unfolding insert_asc last_of
last_of-insert_asc m a [] s = refl
last_of-insert_asc m a (b ∷ bs) s = elim (Bool-cases (later a b)) [
  | inl e ↦ elim (Bool-cases (a.merchant_id == m)) [
    | inl g ↦
        rw (e, last_of-insert_asc m a bs s.1, g)
          (goes_first a b (b.merchant_id == m) (last_of m bs) e)
    | inr g ↦ rw (e, last_of-insert_asc m a bs s.1, g) refl
  ]
  | inr e ↦ rw e (
      stays_last a (a.merchant_id == m) (last_of m (b ∷ bs))
        (All-last_of (λ c. later a c ≡ false) m (b ∷ bs) (e, All-later a b bs e s.0)))
]

All-by_earliest :
    (P : Assignment → Type 0) (rows : List Assignment) → All P rows → All P (by_earliest rows)
unfolding by_earliest
All-by_earliest P [] q = tt
All-by_earliest P (a ∷ rest) q =
    All-insert_asc P a (by_earliest rest) q.0 (All-by_earliest P rest q.1)

newest : Assignment → Option Assignment → Option Assignment
newest a none = some a
newest a (some z) = some (if later z a then z else a)

first-insert_desc :
    (a : Assignment) (bs : List Assignment) → first (insert_desc a bs) ≡ newest a (first bs)
unfolding insert_desc newest
first-insert_desc a [] = refl
first-insert_desc a (b ∷ bs) = elim (Bool-cases (later b a)) [
  | inl e ↦ rw e refl
  | inr e ↦ rw e refl
]

newest-later_of :
    (a : Assignment) (o : Option Assignment)
    → OfSome (λ z. a.id ≢ z.id) o
    → newest a o ≡ some (later_of a o)
unfolding newest
newest-later_of a none d = refl
newest-later_of a (some z) d = elim (Bool-cases (later a z)) [
  | inl e ↦ rw (e, later_asym a z e) refl
  | inr e ↦ rw (e, later_total a z d e) refl
]

last_of-by_earliest :
    (m : ℕ) (rows : List Assignment)
    → HasDistinctIds rows
    → last_of m (by_earliest rows) ≡ current_assignment rows m
unfolding by_earliest current_assignment by_latest last_of
last_of-by_earliest m [] d = refl
last_of-by_earliest m (a ∷ rest) d =
    let ih = last_of-by_earliest m rest d.1 in
    let apart =
      All-last_of (λ z. a.id ≢ z.id) m (by_earliest rest)
        (All-by_earliest (λ z. a.id ≢ z.id) rest d.0) in
    elim (Bool-cases (a.merchant_id == m)) [
      | inl e ↦
          rw (last_of-insert_asc m a (by_earliest rest) (by_earliest-IsSorted rest), e)
            (sym (newest-later_of a (last_of m (by_earliest rest)) apart)
              ∙ ap (newest a) ih
              ∙ sym (first-insert_desc a (by_latest (where_ (λ b. b.merchant_id == m) rest))))
      | inr e ↦ rw (last_of-insert_asc m a (by_earliest rest) (by_earliest-IsSorted rest), e) ih
    ]

All-where_ :
    (P : Assignment → Type 0) (p : Assignment → Bool) (rows : List Assignment)
    → All P rows
    → All P (where_ p rows)
All-where_ P p [] q = tt
All-where_ P p (a ∷ rest) q = elim (Bool-cases (p a)) [
  | inl e ↦ rw e (q.0, All-where_ P p rest q.1)
  | inr e ↦ rw e (All-where_ P p rest q.1)
]

where_-HasDistinctIds :
    (p : Assignment → Bool) (rows : List Assignment)
    → HasDistinctIds rows
    → HasDistinctIds (where_ p rows)
where_-HasDistinctIds p [] d = tt
where_-HasDistinctIds p (a ∷ rest) d = elim (Bool-cases (p a)) [
  | inl e ↦ rw e (All-where_ (λ b. a.id ≢ b.id) p rest d.0, where_-HasDistinctIds p rest d.1)
  | inr e ↦ rw e (where_-HasDistinctIds p rest d.1)
]

where_-where_ :
    (p q : Assignment → Bool) (rows : List Assignment)
    → ((a : Assignment) → q a ≡ true → p a ≡ true)
    → where_ q (where_ p rows) ≡ where_ q rows
where_-where_ p q [] h = refl
where_-where_ p q (a ∷ rest) h = elim (Bool-cases (p a)) [
  | inl e ↦ elim (Bool-cases (q a)) [
    | inl f ↦ rw (e, f) (ap (λ r. a ∷ r) (where_-where_ p q rest h))
    | inr f ↦ rw (e, f) (where_-where_ p q rest h)
  ]
  | inr e ↦ elim (Bool-cases (q a)) [
    | inl f ↦ let k = h a f in cc
    | inr f ↦ rw (e, f) (where_-where_ p q rest h)
  ]
]

eq_of_test : (x m : ℕ) → (x == m) ≡ true → m ≡ x
eq_of_test x m h = ground arith

current_assignment-among :
    (ids : List ℕ) (rows : List Assignment) (m : ℕ)
    → any (λ i. i == m) ids ≡ true
    → current_assignment (where_ (λ a. any (λ i. i == a.merchant_id) ids) rows) m
      ≡ current_assignment rows m
unfolding current_assignment
current_assignment-among ids rows m h =
    ap (λ r. first (by_latest r))
      (where_-where_ (λ a. any (λ i. i == a.merchant_id) ids) (λ a. a.merchant_id == m) rows
        (λ a e. subst (λ k. any (λ i. i == k) ids ≡ true) (eq_of_test a.merchant_id m e) h))

-- For every merchant of the summary, the plan that the last of the assignments in ascending order
-- leaves in the table is the plan of the first in descending order, if ids are distinct.
pub plan_by_merchant-current :
    (ids : List ℕ) (rows : List Assignment) (m : ℕ)
    → HasDistinctIds rows
    → any (λ i. i == m) ids ≡ true
    → plan_by_merchant ids rows m ≡ get_current_plan rows m
unfolding plan_by_merchant get_current_plan
plan_by_merchant-current ids rows m d h =
    ap (λ (o : Option Assignment). elim o [ none ↦ none | some a ↦ some a.plan ])
      (last_of-by_earliest m (where_ (λ a. any (λ i. i == a.merchant_id) ids) rows)
          (where_-HasDistinctIds (λ a. any (λ i. i == a.merchant_id) ids) rows d)
        ∙ current_assignment-among ids rows m h)
