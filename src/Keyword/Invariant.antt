-- ===== src/Keyword/Invariant.antt =====
-- The invariant of the table of keywords is kept by every request (app/services/ad_keyword.py).
use beautypos.Prelude.{
  ℕ, ◌+◌, ◌<◌, ◌≤◌, ◌≡◌, refl, subst, ap, sym, ◌∙◌, Bool, false, Bool-cases, ==_iff, inl, inr, not,
  ◌==◌, if◌then◌else◌, List, [], ◌∷◌, ◌++◌, some, any, where_, All, arith,
}
use beautypos.Accounts.{Role}
use beautypos.Keyword.Store.{Keyword, Table, of_merchant, count_for, find_keyword, write, remove}
use beautypos.Keyword.Unique.{
  same_as, same_as_sym, IsDistinct, HasIds, IsFree, write-IsDistinct, write-HasIds, any-append,
  any-where, some_inj,
}
use beautypos.Keyword.History.{IsVetted, Inv, All-write, All-where}

pub find_keyword-id :
    (i : ℕ) (ks : List Keyword) (k : Keyword) → find_keyword i ks ≡ some k → k.id ≡ i
unfolding find_keyword
find_keyword-id i [] k e = cc
find_keyword-id i (j ∷ js) k e = elim (Bool-cases (j.id == i)) [
  | inl t ↦ ap (λ (x : Keyword). x.id) (sym (some_inj (rw t at e))) ∙ (==_iff j.id i).0 t
  | inr t ↦ find_keyword-id i js k (rw t at e)
]

count_for-write :
    (m i : ℕ) (ks : List Keyword) (k0 k : Keyword)
    → find_keyword i ks ≡ some k0
    → k.id ≡ i
    → k.merchant_id ≡ k0.merchant_id
    → count_for m (write k ks) ≡ count_for m ks
unfolding count_for write find_keyword
count_for-write m i [] k0 k e d c = refl
count_for-write m i (j ∷ js) k0 k e d c = elim (Bool-cases (j.id == i)) [
  | inl t ↦
      let same : j.merchant_id ≡ k.merchant_id =
        ap (λ (x : Keyword). x.merchant_id) (some_inj (rw t at e)) ∙ sym c in
      rw (d, t, same) refl
  | inr t ↦
      rw (d, t)
        (ap (λ (n : ℕ). (if of_merchant m j then 1 else 0) + n)
          (count_for-write m i js k0 k (rw t at e) d c))
]

-- A row that is found has the properties that all rows have.
pub All-found :
    (P : Keyword → Type 0) (i : ℕ) (ks : List Keyword) (k : Keyword)
    → find_keyword i ks ≡ some k
    → All P ks
    → P k
unfolding find_keyword
All-found P i [] k e h = cc
All-found P i (j ∷ js) k e h = elim (Bool-cases (j.id == i)) [
  | inl t ↦ subst P (some_inj (rw t at e)) h.0
  | inr t ↦ All-found P i js k (rw t at e) h.1
]

-- A row written back in place of a row of the table.
pub written-Inv :
    (roles : ℕ → Role) (t : Table) (i : ℕ) (k0 k : Keyword)
    → find_keyword i t.rows ≡ some k0
    → k.id ≡ k0.id
    → k.merchant_id ≡ k0.merchant_id
    → IsFree t.rows k
    → IsVetted roles k
    → Inv roles t
    → Inv roles (record t { rows = write k t.rows })
written-Inv roles t i k0 k e d c free vet v = record {
  below =
      All-write (λ x. x.id < t.next_id) k t.rows v.below
        (rw d (All-found (λ x. x.id < t.next_id) i t.rows k0 e v.below));
  ids = write-HasIds k t.rows v.ids;
  distinct = write-IsDistinct k t.rows v.ids free v.distinct;
  capacity = λ m.
      rw (count_for-write m i t.rows k0 k e (d ∙ find_keyword-id i t.rows k0 e) c) (v.capacity m);
  vetted = All-write (IsVetted roles) k t.rows v.vetted vet;
}

pub count_for-append :
    (m : ℕ) (ks : List Keyword) (k : Keyword)
    → count_for m (ks ++ k ∷ []) ≡ count_for m ks + (if of_merchant m k then 1 else 0)
unfolding count_for
count_for-append m [] k = omega arith
count_for-append m (j ∷ js) k = omega (arith, count_for-append m js k)

pub append-IsDistinct :
    (ks : List Keyword) (k : Keyword)
    → IsDistinct ks
    → any (same_as k) ks ≡ false
    → IsDistinct (ks ++ k ∷ [])
append-IsDistinct [] k d h = (refl, tt)
append-IsDistinct (j ∷ js) k d h =
    ground (arith, same_as_sym j k, any-append (same_as j) js (k ∷ []), append-IsDistinct js k)

pub append-HasIds :
    (n : ℕ) (ks : List Keyword) (k : Keyword)
    → All (λ x. x.id < n) ks
    → HasIds ks
    → k.id ≡ n
    → HasIds (ks ++ k ∷ [])
append-HasIds n [] k b h e = (refl, tt)
append-HasIds n (j ∷ js) k b h e =
    ground (arith, any-append (λ x. x.id == j.id) js (k ∷ []), append-HasIds n js k b.1 h.1 e)

count_for-where :
    (m : ℕ) (q : Keyword → Bool) (ks : List Keyword) → count_for m (where_ q ks) ≤ count_for m ks
unfolding count_for
count_for-where m q [] = omega arith
count_for-where m q (k ∷ ks) = ground (arith, count_for-where m q ks)

where-IsDistinct :
    (q : Keyword → Bool) (ks : List Keyword) → IsDistinct ks → IsDistinct (where_ q ks)
where-IsDistinct q [] d = tt
where-IsDistinct q (k ∷ ks) d = ground (arith, any-where (same_as k) q ks, where-IsDistinct q ks)

where-HasIds : (q : Keyword → Bool) (ks : List Keyword) → HasIds ks → HasIds (where_ q ks)
where-HasIds q [] d = tt
where-HasIds q (k ∷ ks) d = ground (arith, any-where (λ j. j.id == k.id) q ks, where-HasIds q ks)

pub removed-Inv :
    (roles : ℕ → Role) (t : Table) (k : Keyword) → Inv roles t → Inv roles (remove t k)
unfolding remove
removed-Inv roles t k v = record {
  below = All-where (λ x. x.id < t.next_id) _ t.rows v.below;
  ids = where-HasIds _ t.rows v.ids;
  distinct = where-IsDistinct _ t.rows v.distinct;
  capacity = λ m. omega (arith, v.capacity m, count_for-where m (λ j. not (j.id == k.id)) t.rows);
  vetted = All-where (IsVetted roles) _ t.rows v.vetted;
}
