-- ===== src/Keyword/Create.antt =====
-- Registering a keyword (app/services/ad_keyword.py).
use beautypos.Prelude.{
  ℕ, suc, ◌<◌, ◌≡◌, refl, subst, Bool, false, Bool-cases, inl, inr, ◌&&◌, leb, if◌then◌else◌, List,
  [], ◌∷◌, ◌++◌, Option, none, some, any, Result, Result-cases, ok, err, arith,
}
use beautypos.Prelude.Int.{ℤ}
use beautypos.Accounts.{User, is_admin}
use beautypos.Text.{Text}
use beautypos.Keyword.Normalize.{Error, normalize_keyword, normalize_ad_type}
use beautypos.Keyword.NormalForm.{IsNormal, NormalOrRaised, normalize_keyword-IsNormal}
use beautypos.Keyword.Store.{
  Keyword, Table, pending, approved, count_for, max_keywords_per_merchant, same_content, is_other,
  create,
}
use beautypos.Keyword.Unique.{same_as}

-- What a registration has done: a new last row, with a normal keyword that the merchant did not have
-- for this kind of advertising, approved if an administrator registered it and pending otherwise.
pub record Created (t : Table) (m : ℕ) (user : User) (r : Table × Keyword) : Type 0 where
  pub added : r.0 ≡ record { rows = t.rows ++ r.1 ∷ []; next_id = suc t.next_id }
  pub id : (r.1).id ≡ t.next_id
  pub merchant : (r.1).merchant_id ≡ m
  pub normal : IsNormal (r.1).keyword
  pub room : count_for m t.rows < max_keywords_per_merchant
  pub new : any (same_as r.1) t.rows ≡ false
  pub status : (r.1).status ≡ (if is_admin user.role then approved else pending)
  pub approved_by : (r.1).approved_by ≡ (if is_admin user.role then some user.id else none)

abbrev pub CreatedOrRaised : Table → ℕ → User → Result Error (Table × Keyword) → Type 0
CreatedOrRaised t m user (ok r) = Created t m user r
CreatedOrRaised t m user (err e) = Unit

any-other :
    (p : Keyword → Bool) (ks : List Keyword) → any (λ j. p j && is_other none j) ks ≡ any p ks
any-other p [] = refl
any-other p (k ∷ ks) = ground (arith, any-other p ks)

-- A registration that goes through adds a new, normal keyword within the merchant's limit.
pub create-Created :
    (t : Table) (m : ℕ) (keyword ad_type : Option Text) (priority : Option ℤ) (user : User)
    (now : ℕ)
    → CreatedOrRaised t m user (create t m keyword ad_type priority user now)
unfolding create
create-Created t m keyword ad_type priority user now =
    elim (Result-cases (normalize_keyword keyword)) [
      | inr (x, e) ↦ rw e tt
      | inl (s, e) ↦ elim (Result-cases (normalize_ad_type ad_type)) [
        | inr (x, f) ↦ rw (e, f) tt
        | inl (u, f) ↦ elim (Bool-cases (leb max_keywords_per_merchant (count_for m t.rows))) [
          | inl g ↦ rw (e, f, g) tt
          | inr g ↦ elim (Bool-cases (any (λ j. same_content m u s j && is_other none j) t.rows)) [
            | inl h ↦ rw (e, f, g, h) tt
            | inr h ↦
                rw (e, f, g, h)
                  (record {
                    added = refl;
                    id = refl;
                    merchant = refl;
                    normal = subst NormalOrRaised e (normalize_keyword-IsNormal keyword);
                    room = ground (arith, g);
                    new = rw (any-other (same_content m u s) t.rows) at h;
                    status = refl;
                    approved_by = refl;
                  })
          ]
        ]
      ]
    ]
