-- ===== src/Keyword/Changes.antt =====
-- What registering and changing a keyword does to the table (app/services/ad_keyword.py).
use beautypos.Prelude.{
  ℕ, ◌≡◌, refl, ◌∙◌, Bool, true, false, Bool-cases, inl, inr, ◌⊎◌, if◌then◌else◌, List, Option,
  none, some, Result, Result-cases, ok, err, arith,
}
use beautypos.Prelude.Int.{ℤ}
use beautypos.Accounts.{User, is_admin}
use beautypos.Text.{Text, text_eq}
use beautypos.Keyword.Normalize.{Error, normalize_keyword, normalize_ad_type}
use beautypos.Keyword.Store.{
  Keyword, Table, pending, approved, write, set_keyword, set_ad_type, set_priority, set_active,
  judge_change,
}
use beautypos.Keyword.Unique.{IsFree, KeepsFree, asserted}

pub set_keyword-KeepsFree :
    (t : Table) (k : Keyword) (raw : Option Text)
    → IsFree t.rows k
    → KeepsFree t.rows k (set_keyword t k raw)
unfolding set_keyword
set_keyword-KeepsFree t k none free = (free, refl, refl, λ u. refl)
set_keyword-KeepsFree t k (some raw) free = elim (Result-cases (normalize_keyword (some raw))) [
  | inl (s, e) ↦ rw e (asserted t k (text_eq s k.keyword) (record k { keyword = s }) refl refl free)
  | inr (x, e) ↦ rw e tt
]

pub set_ad_type-KeepsFree :
    (t : Table) (k : Keyword) (raw : Option Text)
    → IsFree t.rows k
    → KeepsFree t.rows k (set_ad_type t k raw)
unfolding set_ad_type
set_ad_type-KeepsFree t k none free = (free, refl, refl, λ u. refl)
set_ad_type-KeepsFree t k (some raw) free = elim (Result-cases (normalize_ad_type (some raw))) [
  | inl (s, e) ↦ rw e (asserted t k (text_eq s k.ad_type) (record k { ad_type = s }) refl refl free)
  | inr (x, e) ↦ rw e tt
]

set_priority-IsFree :
    (priority : Option ℤ) (ks : List Keyword) (k : Keyword)
    → IsFree ks k
    → IsFree ks (set_priority priority k)
unfolding set_priority
set_priority-IsFree none ks k free = free
set_priority-IsFree (some p) ks k free = free

set_active-IsFree :
    (active : Option Bool) (ks : List Keyword) (k : Keyword)
    → IsFree ks k
    → IsFree ks (set_active active k)
unfolding set_active
set_active-IsFree none ks k free = free
set_active-IsFree (some b) ks k free = free

judge_change-IsFree :
    (user : User) (now : ℕ) (ks : List Keyword) (k : Keyword)
    → IsFree ks k
    → IsFree ks (judge_change user now k)
unfolding judge_change
judge_change-IsFree user now ks k free = elim (Bool-cases (is_admin user.role)) [
  | inl e ↦ rw e free
  | inr e ↦ rw e free
]

-- The parts of a change that leave the content alone.
unfoldable pub settled : User → Option ℤ → Option Bool → ℕ → Bool → Keyword → Keyword
settled user priority active now changed k =
    let k' = set_active active (set_priority priority k) in
    if changed then judge_change user now k' else k'

-- What the fields that a change does not touch are, and how it is judged.
pub record Judged (user : User) (changed : Bool) (k r : Keyword) : Type 0 where
  pub id : r.id ≡ k.id
  pub merchant : r.merchant_id ≡ k.merchant_id
  pub keyword : r.keyword ≡ k.keyword
  pub ad_type : r.ad_type ≡ k.ad_type
  pub status :
      r.status ≡ (if changed then if is_admin user.role then approved else pending else k.status)
  pub approved_by :
      r.approved_by
      ≡ (if changed then if is_admin user.role then some user.id else none else k.approved_by)

set_priority-Judged :
    (user : User) (p : Option ℤ) (k : Keyword) → Judged user false k (set_priority p k)
unfolding set_priority
set_priority-Judged user none k = ground arith
set_priority-Judged user (some p) k = ground arith

set_active-Judged :
    (user : User) (b : Option Bool) (k : Keyword) → Judged user false k (set_active b k)
unfolding set_active
set_active-Judged user none k = ground arith
set_active-Judged user (some b) k = ground arith

judge_change-Judged :
    (user : User) (now : ℕ) (k : Keyword) → Judged user true k (judge_change user now k)
unfolding judge_change
judge_change-Judged user now k = elim (Bool-cases (is_admin user.role)) [
  | inl e ↦ record {
    id = rw e refl;
    merchant = rw e refl;
    keyword = rw e refl;
    ad_type = rw e refl;
    status = rw e refl;
    approved_by = rw e refl;
  }
  | inr e ↦ record {
    id = rw e refl;
    merchant = rw e refl;
    keyword = rw e refl;
    ad_type = rw e refl;
    status = rw e refl;
    approved_by = rw e refl;
  }
]

Judged-trans :
    (user : User) (changed : Bool) (a b c : Keyword)
    → Judged user false a b
    → Judged user changed b c
    → Judged user changed a c
Judged-trans user true a b c p q = record {
  id = q.id ∙ p.id;
  merchant = q.merchant ∙ p.merchant;
  keyword = q.keyword ∙ p.keyword;
  ad_type = q.ad_type ∙ p.ad_type;
  status = q.status;
  approved_by = q.approved_by;
}
Judged-trans user false a b c p q = record {
  id = q.id ∙ p.id;
  merchant = q.merchant ∙ p.merchant;
  keyword = q.keyword ∙ p.keyword;
  ad_type = q.ad_type ∙ p.ad_type;
  status = q.status ∙ p.status;
  approved_by = q.approved_by ∙ p.approved_by;
}

pub settled-Judged :
    (user : User) (priority : Option ℤ) (active : Option Bool) (now : ℕ) (changed : Bool)
    (k : Keyword)
    → Judged user changed k (settled user priority active now changed k)
unfolding settled
settled-Judged user priority active now true k =
    let k' = set_active active (set_priority priority k) in
    Judged-trans user true k k' _
      (Judged-trans user false k (set_priority priority k) k' (set_priority-Judged user priority k)
        (set_active-Judged user active (set_priority priority k)))
      (judge_change-Judged user now k')
settled-Judged user priority active now false k =
    Judged-trans user false k (set_priority priority k) _ (set_priority-Judged user priority k)
      (set_active-Judged user active (set_priority priority k))

pub settled-IsFree :
    (user : User) (priority : Option ℤ) (active : Option Bool) (now : ℕ) (changed : Bool)
    (ks : List Keyword) (k : Keyword)
    → IsFree ks k
    → IsFree ks (settled user priority active now changed k)
unfolding settled
settled-IsFree user priority active now true ks k free =
    judge_change-IsFree user now ks _
      (set_active-IsFree active ks _ (set_priority-IsFree priority ks k free))
settled-IsFree user priority active now false ks k free =
    set_active-IsFree active ks _ (set_priority-IsFree priority ks k free)

-- What a successful change has done: it writes one row back, whose content no other row has. New
-- content is approved if an administrator wrote it and pending otherwise; with the old content the
-- row keeps its status.
pub record Updated (t : Table) (k : Keyword) (user : User) (r : Table × Keyword) : Type 0 where
  pub written : r.0 ≡ record t { rows = write r.1 t.rows }
  pub free : IsFree t.rows r.1
  pub id : (r.1).id ≡ k.id
  pub merchant : (r.1).merchant_id ≡ k.merchant_id
  pub judged :
      (((r.1).status ≡ (if is_admin user.role then approved else pending))
        × ((r.1).approved_by ≡ (if is_admin user.role then some user.id else none)))
      ⊎ (((r.1).keyword ≡ k.keyword)
          × ((r.1).ad_type ≡ k.ad_type)
          × ((r.1).status ≡ k.status)
          × ((r.1).approved_by ≡ k.approved_by))

abbrev pub UpdatedOrRaised : Table → Keyword → User → Result Error (Table × Keyword) → Type 0
UpdatedOrRaised t k user (ok r) = Updated t k user r
UpdatedOrRaised t k user (err e) = Unit
