-- ===== src/Dispatch/Ledger.antt =====
-- The ledger stays well-formed (app/models/ad_dispatch.py): no id and no idempotency key stands twice,
-- so that the constraint of the database never makes a write fail.
use beautypos.Prelude.{
  ℕ, suc, ◌<◌, ◌≡◌, refl, sym, ap, subst, ◌∙◌, inl, inr, Bool, true, false, ◌||◌, ◌==◌, Bool-cases,
  Option-cases, if◌then◌else◌, List, [], ◌∷◌, ◌++◌, Option, none, some, All, any, arith,
}
use beautypos.Calendar.{Date}
use beautypos.Plan.Rows.{AdType}
use beautypos.Dispatch.State.{
  Source, build_idempotency_key, Row, Db, Key, same_key, find_key, update_row, upsert,
}
use beautypos.Dispatch.Execute.{write}

abbrev pub same_id : Row → Row → Bool
same_id r q = r.id == q.id

abbrev pub same_row_key : Row → Row → Bool
same_row_key r q = same_key r.key q.key

-- No two rows are the same.
abbrev pub IsDistinct : (Row → Row → Bool) → List Row → Type 0
IsDistinct same [] = Unit
IsDistinct same (r ∷ rs) = (any (same r) rs ≡ false) × IsDistinct same rs

-- The key is that of the row's columns.
abbrev pub IsLabelled : Row → Type 0
IsLabelled r =
    r.key.base
    ≡ build_idempotency_key r.source r.merchant_id r.ad_type r.execution_date r.ad_order_id

abbrev pub IsWellFormed : Db → Type 0
IsWellFormed db =
    IsDistinct same_id db.rows
    × (IsDistinct same_row_key db.rows
        × (All (λ r. r.id < db.next_id) db.rows × All IsLabelled db.rows))

-- The columns that name a row
pub record Identity : Type 0 where
  pub id : ℕ
  pub merchant_id : ℕ
  pub ad_type : AdType
  pub execution_date : Date
  pub source : Source
  pub ad_order_id : Option ℕ
  pub key : Key

abbrev pub identity : Row → Identity
identity r = record {
  id = r.id;
  merchant_id = r.merchant_id;
  ad_type = r.ad_type;
  execution_date = r.execution_date;
  source = r.source;
  ad_order_id = r.ad_order_id;
  key = r.key;
}

abbrev pub Keeps : (Row → Row) → Type 0
Keeps f = (r : Row) → identity (f r) ≡ identity r

pub Keeps-id : (f : Row → Row) (r : Row) → Keeps f → (f r).id ≡ r.id
Keeps-id f r k = ap (λ (i : Identity). i.id) (k r)

Keeps-key : (f : Row → Row) (r : Row) → Keeps f → (f r).key ≡ r.key
Keeps-key f r k = ap (λ (i : Identity). i.key) (k r)

abbrev IsLabelledIdentity : Identity → Type 0
IsLabelledIdentity i =
    i.key.base
    ≡ build_idempotency_key i.source i.merchant_id i.ad_type i.execution_date i.ad_order_id

Keeps-IsLabelled : (f : Row → Row) (r : Row) → Keeps f → IsLabelled r → IsLabelled (f r)
Keeps-IsLabelled f r k h = subst IsLabelledIdentity (sym (k r)) h

-- A test that does not see what `f` writes.
abbrev IsBlind : (Row → Row) → (Row → Bool) → Type 0
IsBlind f p = (r : Row) → p (f r) ≡ p r

any-update_row :
    (p : Row → Bool) (i : ℕ) (f : Row → Row) (rs : List Row)
    → IsBlind f p
    → any p (update_row i f rs) ≡ any p rs
unfolding update_row
any-update_row p i f [] b = refl
any-update_row p i f (r ∷ rs) b = elim (Bool-cases (r.id == i)) [
  | inl e ↦ rw (e, b r) refl
  | inr e ↦ rw (e, any-update_row p i f rs b) refl
]

IsDistinct-update_row :
    (same : Row → Row → Bool) (i : ℕ) (f : Row → Row) (rs : List Row)
    → ((q : Row) → IsBlind f (same q))
    → ((q r : Row) → same (f r) q ≡ same r q)
    → IsDistinct same rs
    → IsDistinct same (update_row i f rs)
unfolding update_row
IsDistinct-update_row same i f [] b c h = tt
IsDistinct-update_row same i f (r ∷ rs) b c h = elim (Bool-cases (r.id == i)) [
  | inl e ↦ rw e (any_left (f r) r (λ q. c q r) rs h.0, h.1)
  | inr e ↦
      rw (e, any-update_row (same r) i f rs (b r)) (h.0, IsDistinct-update_row same i f rs b c h.1)
]
  where
    any_left :
        (x y : Row)
        → ((q : Row) → same x q ≡ same y q)
        → (rs : List Row) → any (same y) rs ≡ false
        → any (same x) rs ≡ false
    any_left x y c [] h = refl
    any_left x y c (q ∷ qs) h = elim (Bool-cases (same y q)) [
      | inl e ↦ absurd (or_true (any (same y) qs) (rw e at h))
      | inr e ↦ rw (c q, e) (any_left x y c qs (rw e at h))
    ]
      where
        or_true : (b : Bool) → (true || b) ≡ false → ⊥
        or_true b h = cc

All-below-update_row :
    (n i : ℕ) (f : Row → Row) (rs : List Row)
    → Keeps f
    → All (λ r. r.id < n) rs
    → All (λ r. r.id < n) (update_row i f rs)
unfolding update_row
All-below-update_row n i f [] k h = tt
All-below-update_row n i f (r ∷ rs) k h = elim (Bool-cases (r.id == i)) [
  | inl e ↦ rw (e, Keeps-id f r k) h
  | inr e ↦ rw e (h.0, All-below-update_row n i f rs k h.1)
]

All-IsLabelled-update_row :
    (i : ℕ) (f : Row → Row) (rs : List Row)
    → Keeps f
    → All IsLabelled rs
    → All IsLabelled (update_row i f rs)
unfolding update_row
All-IsLabelled-update_row i f [] k h = tt
All-IsLabelled-update_row i f (r ∷ rs) k h = elim (Bool-cases (r.id == i)) [
  | inl e ↦ rw e (Keeps-IsLabelled f r k h.0, h.1)
  | inr e ↦ rw e (h.0, All-IsLabelled-update_row i f rs k h.1)
]

pub write-IsWellFormed :
    (db : Db) (i : ℕ) (f : Row → Row) → Keeps f → IsWellFormed db → IsWellFormed (write db i f)
write-IsWellFormed db i f k h = (
  IsDistinct-update_row same_id i f db.rows (λ q r. rw (Keeps-id f r k) refl)
      (λ q r. rw (Keeps-id f r k) refl) h.0,
  (
    IsDistinct-update_row same_row_key i f db.rows (λ q r. rw (Keeps-key f r k) refl)
        (λ q r. rw (Keeps-key f r k) refl) h.1.0,
    (
      All-below-update_row db.next_id i f db.rows k h.1.1.0,
      All-IsLabelled-update_row i f db.rows k h.1.1.1,
    ),
  ),
)

any-append :
    (p : Row → Bool) (rs : List Row) (q : Row)
    → any p rs ≡ false
    → p q ≡ false
    → any p (rs ++ (q ∷ [])) ≡ false
any-append p [] q h k = rw k refl
any-append p (r ∷ rs) q h k = ground (arith, any-append p rs q)

IsDistinct-append :
    (same : Row → Row → Bool) (rs : List Row) (q : Row)
    → All (λ r. same r q ≡ false) rs
    → IsDistinct same rs
    → IsDistinct same (rs ++ (q ∷ []))
IsDistinct-append same [] q a h = (refl, tt)
IsDistinct-append same (r ∷ rs) q a h =
    (any-append (same r) rs q h.0 a.0, IsDistinct-append same rs q a.1 h.1)

All-below-append :
    (n : ℕ) (rs : List Row) (q : Row)
    → q.id ≡ n
    → All (λ r. r.id < n) rs
    → All (λ r. r.id < suc n) (rs ++ (q ∷ []))
All-below-append n [] q e h = (omega arith, tt)
All-below-append n (r ∷ rs) q e h = (omega (arith, h.0), All-below-append n rs q e h.1)

All-IsLabelled-append :
    (rs : List Row) (q : Row) → IsLabelled q → All IsLabelled rs → All IsLabelled (rs ++ (q ∷ []))
All-IsLabelled-append [] q l h = (l, tt)
All-IsLabelled-append (r ∷ rs) q l h = (h.0, All-IsLabelled-append rs q l h.1)

new_id-Distinct :
    (n : ℕ) (rs : List Row) (q : Row)
    → q.id ≡ n
    → All (λ r. r.id < n) rs
    → All (λ r. same_id r q ≡ false) rs
new_id-Distinct n [] q e h = tt
new_id-Distinct n (r ∷ rs) q e h = (ground (arith, h.0, e), new_id-Distinct n rs q e h.1)

new_key-Distinct :
    (k : Key) (rs : List Row) (q : Row)
    → q.key ≡ k
    → find_key k rs ≡ none
    → All (λ r. same_row_key r q ≡ false) rs
unfolding find_key
new_key-Distinct k [] q e h = tt
new_key-Distinct k (r ∷ rs) q e h = elim (Bool-cases (same_key r.key k)) [
  | inl t ↦ absurd (found_none r (find_key k rs) (rw t at h))
  | inr t ↦ (rw (e, t) refl, new_key-Distinct k rs q e (rw t at h))
]
  where
    found_none : (r : Row) (o : Option Row) → (if true then some r else o) ≡ none → ⊥
    found_none r o h = cc

pub upsert-IsWellFormed :
    (db : Db) (k : Key) (f : Row → Row) (make : ℕ → Row)
    → Keeps f
    → ((n : ℕ) → ((make n).id ≡ n) × (((make n).key ≡ k) × IsLabelled (make n)))
    → IsWellFormed db
    → IsWellFormed (upsert k f make db).0
unfolding upsert
upsert-IsWellFormed db k f make keeps made h = elim (Option-cases (find_key k db.rows)) [
  | inl e ↦
      let q = f (make db.next_id) in
      let id : q.id ≡ db.next_id = Keeps-id f (make db.next_id) keeps ∙ (made db.next_id).0 in
      let key : q.key ≡ k = Keeps-key f (make db.next_id) keeps ∙ (made db.next_id).1.0 in
      rw (e, upsert)
        (
          IsDistinct-append same_id db.rows q (new_id-Distinct db.next_id db.rows q id h.1.1.0) h.0,
          (
            IsDistinct-append same_row_key db.rows q (new_key-Distinct k db.rows q key e) h.1.0,
            (
              All-below-append db.next_id db.rows q id h.1.1.0,
              All-IsLabelled-append db.rows q
                  (Keeps-IsLabelled f (make db.next_id) keeps (made db.next_id).1.1) h.1.1.1,
            ),
          ),
        )
  | inr (r, e) ↦ rw (e, upsert) (write-IsWellFormed db r.id f keeps h)
]
