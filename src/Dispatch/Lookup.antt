-- ===== src/Dispatch/Lookup.antt =====
-- Finding the row that an operation has written (app/services/ad_dispatch.py).
use beautypos.Prelude.{
  ℕ, ◌<◌, ◌≡◌, refl, sym, ap, subst, ◌∙◌, inl, inr, Bool, true, false, ◌||◌, ◌==◌, ==_refl,
  Bool-cases, Option-cases, if◌then◌else◌, List, [], ◌∷◌, ◌++◌, Option, none, some, any, All, arith,
}
use beautypos.Dispatch.State.{Row, Db, Key, same_key, find_row, find_key, update_row, upsert}
use beautypos.Dispatch.Ledger.{IsDistinct, same_id, IsWellFormed, Keeps, Keeps-id}

pub any-update_found :
    (p : Row → Bool) (i : ℕ) (f : Row → Row) (rs : List Row) (r : Row)
    → find_row i rs ≡ some r
    → p (f r) ≡ true
    → any p (update_row i f rs) ≡ true
unfolding find_row update_row
any-update_found p i f [] r h t = cc
any-update_found p i f (q ∷ qs) r h t = elim (Bool-cases (q.id == i)) [
  | inl e ↦ let same : some q ≡ some r = (rw e at h) in rw (e, ap f (some_inj q r same), t) refl
  | inr e ↦
      rw e (or_right (p q) (any p (update_row i f qs)) (any-update_found p i f qs r (rw e at h) t))
]
  where
    some_inj : (q r : Row) → some q ≡ some r → q ≡ r
    some_inj q r e = ap (λ (o : Option Row). elim o [ none ↦ q | some x ↦ x ]) e

    or_right : (a b : Bool) → b ≡ true → (a || b) ≡ true
    or_right a b h = ground arith

pub any-found :
    (p : Row → Bool) (i : ℕ) (rs : List Row) (r : Row)
    → find_row i rs ≡ some r
    → p r ≡ true
    → any p rs ≡ true
unfolding find_row
any-found p i [] r h t = cc
any-found p i (q ∷ qs) r h t = elim (Bool-cases (q.id == i)) [
  | inl e ↦
      let same : some q ≡ some r = (rw e at h) in
      subst
        (λ (o : Option Row). elim o [
          | none ↦ Unit {0}
          | some x ↦ (p x ≡ true) → any p (q ∷ qs) ≡ true
        ])
        same (λ head. rw head refl) t
  | inr e ↦ any_tail (p q) (any p qs) (any-found p i qs r (rw e at h) t)
]
  where
    any_tail : (a b : Bool) → b ≡ true → (a || b) ≡ true
    any_tail a b h = ground arith

if_true {ℓ} : {A : Type ℓ} (b : Bool) (x y : A) → b ≡ true → (if b then x else y) ≡ x
if_true b x y h = rw h refl

pub find-update_row :
    (i : ℕ) (f : Row → Row) (rs : List Row) (r : Row)
    → Keeps f
    → find_row i rs ≡ some r
    → find_row i (update_row i f rs) ≡ some (f r)
unfolding find_row update_row
find-update_row i f [] r k h = cc
find-update_row i f (q ∷ qs) r k h = elim (Bool-cases (q.id == i)) [
  | inl e ↦
      let same : some q ≡ some r = (rw e at h) in
      let hit : ((f q).id == i) ≡ true = ap (λ n. n == i) (Keeps-id f q k) ∙ e in
      rw e (
        if_true ((f q).id == i) (some (f q)) (find_row i qs) hit
        ∙ ap (λ (o : Option Row). elim o [ none ↦ none | some x ↦ some (f x) ]) same)
  | inr e ↦ rw (e, e) (find-update_row i f qs r k (rw e at h))
]

find-append :
    (n : ℕ) (rs : List Row) (q : Row)
    → q.id ≡ n
    → All (λ r. r.id < n) rs
    → find_row n (rs ++ (q ∷ [])) ≡ some q
unfolding find_row
find-append n [] q e h = rw (e, ==_refl n) refl
find-append n (r ∷ rs) q e h =
    let apart : (r.id == n) ≡ false = ground (arith, h.0) in rw apart (find-append n rs q e h.1)

find_key-none_of :
    (k : Key) (p : Row → Bool) (rs : List Row) (r : Row)
    → find_key k rs ≡ some r
    → any p rs ≡ false
    → p r ≡ false
unfolding find_key
find_key-none_of k p [] r h a = cc
find_key-none_of k p (q ∷ qs) r h a = elim (Bool-cases (same_key q.key k)) [
  | inl e ↦
      let same : some q ≡ some r = (rw e at h) in
      sym (ap {B = Bool} (λ (o : Option Row). elim o [ none ↦ false | some x ↦ p x ]) same)
      ∙ head_false (p q) (any p qs) a
  | inr e ↦ find_key-none_of k p qs r (rw e at h) (tail_false (p q) (any p qs) a)
]
  where
    head_false : (a b : Bool) → (a || b) ≡ false → a ≡ false
    head_false a b h = ground arith

    tail_false : (a b : Bool) → (a || b) ≡ false → b ≡ false
    tail_false a b h = ground arith

pub find-find_key :
    (k : Key) (rs : List Row) (r : Row)
    → IsDistinct same_id rs
    → find_key k rs ≡ some r
    → find_row r.id rs ≡ some r
unfolding find_key find_row
find-find_key k [] r d h = cc
find-find_key k (q ∷ qs) r d h = elim (Bool-cases (same_key q.key k)) [
  | inl e ↦
      let same : some q ≡ some r = (rw e at h) in
      subst
        (λ (o : Option Row). elim o [ none ↦ Unit {0} | some x ↦ find_row x.id (q ∷ qs) ≡ some x ])
        same (rw ==_refl refl)
  | inr e ↦
      let found : find_key k qs ≡ some r = (rw e at h) in
      rw (find_key-none_of k (same_id q) qs r found d.0) (find-find_key k qs r d.1 found)
]

-- What all rows have, the found row has, and its key is the one looked for.
pub find_key-All {ℓ} :
    (k : Key) (Q : Row → Type ℓ) (rs : List Row) (r : Row)
    → find_key k rs ≡ some r
    → All Q rs
    → (same_key r.key k ≡ true) × Q r
unfolding find_key
find_key-All k Q [] r h a = cc
find_key-All k Q (q ∷ qs) r h a = elim (Bool-cases (same_key q.key k)) [
  | inl e ↦
      let same : some q ≡ some r = (rw e at h) in
      subst (λ (o : Option Row). elim o [ none ↦ Unit | some x ↦ (same_key x.key k ≡ true) × Q x ])
        same (e, a.0)
  | inr e ↦ find_key-All k Q qs r (rw e at h) a.1
]

-- The row that is written is found by its id.
pub find-upsert :
    (db : Db) (k : Key) (f : Row → Row) (make : ℕ → Row)
    → Keeps f
    → ((n : ℕ) → (make n).id ≡ n)
    → IsWellFormed db
    → find_row (upsert k f make db).1.id (upsert k f make db).0.rows ≡ some (upsert k f make db).1
unfolding upsert
find-upsert db k f make keeps made h = elim (Option-cases (find_key k db.rows)) [
  | inl e ↦
      let q = f (make db.next_id) in
      let id : q.id ≡ db.next_id = Keeps-id f (make db.next_id) keeps ∙ made db.next_id in
      rw (e, upsert)
        (subst (λ n. find_row n (db.rows ++ (q ∷ [])) ≡ some q) (sym id)
          (find-append db.next_id db.rows q id h.1.1.0))
  | inr (r, e) ↦
      rw (e, upsert)
        (subst (λ n. find_row n (update_row r.id f db.rows) ≡ some (f r)) (sym (Keeps-id f r keeps))
          (find-update_row r.id f db.rows r keeps (find-find_key k db.rows r h.0 e)))
]

-- The row that is written is made from the one that has the key, or from a new one.
pub upsert-From {ℓ} :
    (P : Row → Type ℓ) (db : Db) (k : Key) (f : Row → Row) (make : ℕ → Row)
    → ((r : Row) → find_key k db.rows ≡ some r → P (f r))
    → P (f (make db.next_id))
    → P (upsert k f make db).1
unfolding upsert
upsert-From P db k f make found made = elim (Option-cases (find_key k db.rows)) [
  | inl e ↦ rw (e, upsert) made
  | inr (r, e) ↦ rw (e, upsert) (found r e)
]
