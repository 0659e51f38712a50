-- ===== src/Keyword/Update.antt =====
-- A change of a keyword, as a whole (app/services/ad_keyword.py).
use beautypos.Prelude.{
  ℕ, ◌≡◌, refl, ap, ◌∙◌, Bool, true, false, inl, inr, ◌||◌, Option, Result, ok, err, ◌>>=◌,
}
use beautypos.Prelude.Int.{ℤ}
use beautypos.Accounts.{User}
use beautypos.Text.{Text}
use beautypos.Keyword.Normalize.{Error}
use beautypos.Keyword.Store.{Keyword, Table, write_back, set_keyword, set_ad_type, update}
use beautypos.Keyword.Unique.{IsFree, KeepsFree}
use beautypos.Keyword.Changes.{
  set_keyword-KeepsFree, set_ad_type-KeepsFree, settled, settled-IsFree, settled-Judged, Updated,
  UpdatedOrRaised,
}

-- The last steps of a change.
finish_update :
    (t : Table) (k : Keyword) (user : User) (priority : Option ℤ) (active : Option Bool) (now : ℕ)
    (changed : Bool) (k' : Keyword)
    → IsFree t.rows k'
    → k'.id ≡ k.id
    → k'.merchant_id ≡ k.merchant_id
    → (changed ≡ false → k' ≡ k)
    → let r = settled user priority active now changed k' in Updated t k user (write_back t r, r)
finish_update t k user priority active now true k' free e m same =
    let j = settled-Judged user priority active now true k' in
    record {
      written = refl;
      free = settled-IsFree user priority active now true t.rows k' free;
      id = j.id ∙ e;
      merchant = j.merchant ∙ m;
      judged = inl (j.status, j.approved_by);
    }
finish_update t k user priority active now false k' free e m same =
    let j = settled-Judged user priority active now false k' in
    let p = same refl in
    record {
      written = refl;
      free = settled-IsFree user priority active now false t.rows k' free;
      id = j.id ∙ e;
      merchant = j.merchant ∙ m;
      judged = inr (
        j.keyword ∙ ap (λ (x : Keyword). x.keyword) p,
        j.ad_type ∙ ap (λ (x : Keyword). x.ad_type) p,
        j.status ∙ ap (λ (x : Keyword). x.status) p,
        j.approved_by ∙ ap (λ (x : Keyword). x.approved_by) p,
      );
    }

or_same :
    (a b : Bool) (k k' k'' : Keyword)
    → (a ≡ false → k' ≡ k)
    → (b ≡ false → k'' ≡ k')
    → (a || b) ≡ false
    → k'' ≡ k
or_same false false k k' k'' p q h = q refl ∙ p refl
or_same false true k k' k'' p q h = cc
or_same true b k k' k'' p q h = cc

typed_step :
    (t : Table) (k : Keyword) (user : User) (priority : Option ℤ) (active : Option Bool) (now : ℕ)
    (named : Keyword × Bool) (x : Result Error (Keyword × Bool))
    → KeepsFree t.rows k (ok named)
    → KeepsFree t.rows named.0 x
    → UpdatedOrRaised t k user (do
      typed ← x
      let r = settled user priority active now (named.1 || typed.1) typed.0
      ok (write_back t r, r))
typed_step t k user priority active now named (err e) f g = tt
typed_step t k user priority active now named (ok typed) f g =
    finish_update t k user priority active now (named.1 || typed.1) typed.0 g.0 (g.1 ∙ f.1)
      (g.2 ∙ f.2) (or_same named.1 typed.1 k named.0 typed.0 f.3 g.3)

named_step :
    (t : Table) (k : Keyword) (user : User) (ad_type : Option Text) (priority : Option ℤ)
    (active : Option Bool) (now : ℕ) (x : Result Error (Keyword × Bool))
    → KeepsFree t.rows k x
    → UpdatedOrRaised t k user (do
      named ← x
      typed ← set_ad_type t named.0 ad_type
      let r = settled user priority active now (named.1 || typed.1) typed.0
      ok (write_back t r, r))
named_step t k user ad_type priority active now (err e) f = tt
named_step t k user ad_type priority active now (ok named) f =
    typed_step t k user priority active now named (set_ad_type t named.0 ad_type) f
      (set_ad_type-KeepsFree t named.0 ad_type f.0)

-- A change of a row whose content no other row has: if it goes through, no other row has the new
-- content, and content that an owner has changed is pending again.
pub update-Updated :
    (t : Table) (k : Keyword) (user : User) (keyword ad_type : Option Text) (priority : Option ℤ)
    (active : Option Bool) (now : ℕ)
    → IsFree t.rows k
    → UpdatedOrRaised t k user (update t k user keyword ad_type priority active now)
unfolding update settled
update-Updated t k user keyword ad_type priority active now free =
    named_step t k user ad_type priority active now (set_keyword t k keyword)
      (set_keyword-KeepsFree t k keyword free)
