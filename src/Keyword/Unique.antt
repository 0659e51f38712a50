-- ===== src/Keyword/Unique.antt =====
-- No merchant has one keyword twice for one kind of advertising (app/services/ad_keyword.py).
use beautypos.Prelude.{
  ℕ, ◌≡◌, refl, subst, ◌∙◌, Bool, true, false, Bool-cases, ==_iff, inl, inr, ◌&&◌, ◌||◌, ◌==◌,
  if◌then◌else◌, List, [], ◌∷◌, ◌++◌, some, any, where_, Result, ok, err, ◌>>◌, arith,
}
use beautypos.Text.{Text, text_eq, text_eq_iff}
use beautypos.Keyword.Normalize.{Error}
use beautypos.Keyword.Store.{
  Keyword, Table, find_keyword, same_content, is_other, assert_unique, write,
}

abbrev pub same_as : Keyword → Keyword → Bool
same_as k j = same_content k.merchant_id k.ad_type k.keyword j

-- No content stands twice.
abbrev pub IsDistinct : List Keyword → Type 0
IsDistinct [] = Unit
IsDistinct (k ∷ ks) = (any (same_as k) ks ≡ false) × IsDistinct ks

-- No id stands twice.
abbrev pub HasIds : List Keyword → Type 0
HasIds [] = Unit
HasIds (k ∷ ks) = (any (λ j. j.id == k.id) ks ≡ false) × HasIds ks

-- No other row has the content of `k`.
abbrev pub IsFree : List Keyword → Keyword → Type 0
IsFree ks k = any (λ j. same_as k j && is_other (some k.id) j) ks ≡ false

text_eq_sym : (s t : Text) → text_eq s t ≡ text_eq t s
text_eq_sym s t = ground (arith, text_eq_iff s t, text_eq_iff t s)

pub same_as_sym : (k j : Keyword) → same_as k j ≡ same_as j k
same_as_sym k j = ground (arith, text_eq_sym k.ad_type j.ad_type, text_eq_sym k.keyword j.keyword)

pub any-append :
    (p : Keyword → Bool) (ks js : List Keyword) → any p (ks ++ js) ≡ (any p ks || any p js)
any-append p [] js = refl
any-append p (k ∷ ks) js = ground (arith, any-append p ks js)

any-write :
    (p : Keyword → Bool) (k : Keyword) (ks : List Keyword)
    → any p ks ≡ false
    → p k ≡ false
    → any p (write k ks) ≡ false
unfolding write
any-write p k [] h pk = refl
any-write p k (j ∷ js) h pk = ground (arith, any-write p k js)

pub any-where :
    (p q : Keyword → Bool) (ks : List Keyword) → any p ks ≡ false → any p (where_ q ks) ≡ false
any-where p q [] h = refl
any-where p q (k ∷ ks) h = ground (arith, any-where p q ks)

pub some_inj : {j k : Keyword} → some j ≡ some k → j ≡ k
some_inj e = cc

any-found :
    (p : Keyword → Bool) (i : ℕ) (ks : List Keyword) (k : Keyword)
    → find_keyword i ks ≡ some k
    → any p ks ≡ false
    → p k ≡ false
unfolding find_keyword
any-found p i [] k e h = cc
any-found p i (j ∷ js) k e h = elim (Bool-cases (j.id == i)) [
  | inl t ↦ subst (λ x. p x ≡ false) (some_inj (rw t at e)) (ground arith)
  | inr t ↦ any-found p i js k (rw t at e) (ground arith)
]

any-IsFree : (k : Keyword) (js : List Keyword) → any (same_as k) js ≡ false → IsFree js k
any-IsFree k [] h = refl
any-IsFree k (j ∷ js) h = ground (arith, any-IsFree k js)

free-distinct :
    (k : Keyword) (js : List Keyword)
    → any (λ j. j.id == k.id) js ≡ false
    → IsFree js k
    → any (same_as k) js ≡ false
free-distinct k [] ids free = refl
free-distinct k (j ∷ js) ids free = ground (arith, free-distinct k js)

IsFree-cons :
    (k j : Keyword) (js : List Keyword) → same_as k j ≡ false → IsFree js k → IsFree (j ∷ js) k
IsFree-cons k j js h free = rw h free

IsFree-tail : (k j : Keyword) (js : List Keyword) → IsFree (j ∷ js) k → IsFree js k
IsFree-tail k j js h = ground arith

IsFree-head :
    (k j : Keyword) (js : List Keyword)
    → (j.id == k.id) ≡ false
    → IsFree (j ∷ js) k
    → same_as k j ≡ false
IsFree-head k j js t h = ground arith

pub found-IsFree :
    (i : ℕ) (ks : List Keyword) (k : Keyword)
    → find_keyword i ks ≡ some k
    → IsDistinct ks
    → IsFree ks k
unfolding find_keyword
found-IsFree i [] k e d = refl
found-IsFree i (j ∷ js) k e d = elim (Bool-cases (j.id == i)) [
  | inl t ↦
      subst (λ (x : Keyword). IsFree (j ∷ js) x) {x = j} {y = k} (some_inj (rw t at e))
        (ground (arith, any-IsFree j js d.0))
  | inr t ↦
      let tail = found-IsFree i js k (rw t at e) d.1 in
      let apart = any-found (same_as j) i js k (rw t at e) d.0 in
      IsFree-cons k j js (same_as_sym k j ∙ apart) tail
]

pub write-IsDistinct :
    (k : Keyword) (ks : List Keyword)
    → HasIds ks
    → IsFree ks k
    → IsDistinct ks
    → IsDistinct (write k ks)
unfolding write
write-IsDistinct k [] ids free d = tt
write-IsDistinct k (j ∷ js) ids free d = elim (Bool-cases (j.id == k.id)) [
  | inl t ↦ rw t (
    free-distinct k js (subst (λ i. any (λ x. x.id == i) js ≡ false) ((==_iff j.id k.id).0 t) ids.0)
        (IsFree-tail k j js free),
    d.1,
  )
  | inr t ↦ rw t (
    any-write (same_as j) k js d.0 (same_as_sym j k ∙ IsFree-head k j js t free),
    write-IsDistinct k js ids.1 (IsFree-tail k j js free) d.1,
  )
]

write-ids :
    (k : Keyword) (ks : List Keyword) (i : ℕ)
    → any (λ j. j.id == i) ks ≡ false
    → any (λ j. j.id == i) (write k ks) ≡ false
unfolding write
write-ids k [] i h = refl
write-ids k (j ∷ js) i h = ground (arith, write-ids k js i)

pub write-HasIds : (k : Keyword) (ks : List Keyword) → HasIds ks → HasIds (write k ks)
unfolding write
write-HasIds k [] h = tt
write-HasIds k (j ∷ js) h = elim (Bool-cases (j.id == k.id)) [
  | inl t ↦ rw t (subst (λ i. any (λ x. x.id == i) js ≡ false) ((==_iff j.id k.id).0 t) h.0, h.1)
  | inr t ↦ rw t (write-ids k js j.id h.0, write-HasIds k js h.1)
]

-- The content of a changed row is free, if that of the row was, and a row that is not marked as
-- changed is the row itself.
abbrev pub KeepsFree : List Keyword → Keyword → Result Error (Keyword × Bool) → Type 0
KeepsFree ks k (ok r) =
    IsFree ks r.0
    × ((r.0).id ≡ k.id)
    × ((r.0).merchant_id ≡ k.merchant_id)
    × (r.1 ≡ false → r.0 ≡ k)
KeepsFree ks k (err e) = Unit

pub asserted :
    (t : Table) (k : Keyword) (kept : Bool) (k' : Keyword)
    → k'.id ≡ k.id
    → k'.merchant_id ≡ k.merchant_id
    → IsFree t.rows k
    → KeepsFree t.rows k (
        if kept
        then ok (k, false)
        else (do assert_unique t k'.merchant_id k'.ad_type k'.keyword (some k.id); ok (k', true)))
asserted t k true k' e m free = (free, refl, refl, λ u. refl)
asserted t k false k' e m free =
    elim (Bool-cases (any (λ j. same_as k' j && is_other (some k.id) j) t.rows)) [
      | inl h ↦ rw h tt
      | inr h ↦ rw h (rw (← e) at h, e, m, λ u. cc)
    ]
