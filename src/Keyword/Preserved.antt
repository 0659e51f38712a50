-- ===== src/Keyword/Preserved.antt =====
-- Every request keeps the invariant of the table of keywords (app/services/ad_keyword.py).
use beautypos.Prelude.{
  ℕ, suc, ◌<◌, ◌≤◌, ◌≡◌, refl, subst, sym, ◌∙◌, Bool, true, Bool-cases, ==_iff, ◌&&◌, inl, inr, ◌⊎◌,
  ◌==◌, if◌then◌else◌, List, [], ◌∷◌, ◌++◌, Option, none, some, Option-cases, All, Result, ok, err,
  arith,
}
use beautypos.Accounts.{User, Role, is_admin}
use beautypos.Text.{Text}
use beautypos.Keyword.Normalize.{Error}
use beautypos.Keyword.Store.{
  Keyword, Table, Status, pending, approved, rejected, count_for, find_keyword,
  max_keywords_per_merchant, is_usable, is_approved, approve, reject,
}
use beautypos.Keyword.Unique.{found-IsFree}
use beautypos.Keyword.Changes.{UpdatedOrRaised}
use beautypos.Keyword.Update.{update-Updated}
use beautypos.Keyword.Create.{CreatedOrRaised, create-Created}
use beautypos.Keyword.History.{
  Request, creating, updating, approving, rejecting, removing, IsHonest, after, on_found, step, run,
  IsVetted, Inv, All-append, All-map,
}
use beautypos.Keyword.Invariant.{
  All-found, written-Inv, count_for-append, append-IsDistinct, append-HasIds, removed-Inv,
}

module _ (roles : ℕ → Role) where
  IsVetted-judged :
      (user : User) (k : Keyword)
      → user.role ≡ roles user.id
      → k.status ≡ (if is_admin user.role then approved else pending)
      → k.approved_by ≡ (if is_admin user.role then some user.id else none)
      → IsVetted roles k
  IsVetted-judged user k honest st by now_approved = elim (Bool-cases (is_admin user.role)) [
    | inl e ↦ (user.id, rw e at by, rw (← honest) e)
    | inr e ↦ absurd (pending-ne-approved (sym (rw e at st) ∙ now_approved))
  ]
    where
      pending-ne-approved : pending ≡ approved → ⊥
      pending-ne-approved p = cc

  after_create-Inv :
      (t : Table) (m : ℕ) (user : User) (x : Result Error (Table × Keyword))
      → user.role ≡ roles user.id
      → CreatedOrRaised t m user x
      → Inv roles t
      → Inv roles (after t x)
  after_create-Inv t m user (err e) honest c v = v
  after_create-Inv t m user (ok r) honest c v = rw c.added (record {
    below =
        All-append (λ k. k.id < suc t.next_id) t.rows r.1
          (All-map (λ k. k.id < t.next_id) (λ k. k.id < suc t.next_id) t.rows (λ k h. omega arith)
            v.below)
          (omega (arith, c.id));
    ids = append-HasIds t.next_id t.rows r.1 v.below v.ids c.id;
    distinct = append-IsDistinct t.rows r.1 v.distinct c.new;
    capacity = room;
    vetted =
        All-append (IsVetted roles) t.rows r.1 v.vetted
          (IsVetted-judged user r.1 honest c.status c.approved_by);
  })
    where
      room : (j : ℕ) → count_for j (t.rows ++ r.1 ∷ []) ≤ max_keywords_per_merchant
      room j = elim (Bool-cases (m == j)) [
        | inl e ↦
            let same : m ≡ j = (==_iff m j).0 e in
            let few : count_for j t.rows < max_keywords_per_merchant =
              subst (λ i. count_for i t.rows < max_keywords_per_merchant) same c.room in
            rw (count_for-append j t.rows r.1) (ground (arith, few))
        | inr e ↦ rw (count_for-append j t.rows r.1, c.merchant, e) (omega (arith, v.capacity j))
      ]

  after_update-Inv :
      (t : Table) (i : ℕ) (k : Keyword) (user : User) (x : Result Error (Table × Keyword))
      → user.role ≡ roles user.id
      → find_keyword i t.rows ≡ some k
      → UpdatedOrRaised t k user x
      → Inv roles t
      → Inv roles (after t x)
  after_update-Inv t i k user (err e) honest f u v = v
  after_update-Inv t i k user (ok r) honest f u v =
      rw u.written (written-Inv roles t i k r.1 f u.id u.merchant u.free (vet u.judged) v)
    where
      vet :
          (((r.1).status ≡ (if is_admin user.role then approved else pending))
              × ((r.1).approved_by ≡ (if is_admin user.role then some user.id else none)))
            ⊎ (((r.1).keyword ≡ k.keyword)
                × ((r.1).ad_type ≡ k.ad_type)
                × ((r.1).status ≡ k.status)
                × ((r.1).approved_by ≡ k.approved_by))
          → IsVetted roles r.1
      vet (inl (st, by)) now_approved = IsVetted-judged user r.1 honest st by now_approved
      vet (inr (_, _, st, by)) now_approved =
          let (a, e, ad) =
            All-found (IsVetted roles) i t.rows k f v.vetted (sym st ∙ now_approved) in
          (a, by ∙ e, ad)

  approved-Inv :
      (t : Table) (i : ℕ) (k : Keyword) (user : User) (now : ℕ)
      → user.role ≡ roles user.id
      → is_admin user.role ≡ true
      → find_keyword i t.rows ≡ some k
      → Inv roles t
      → Inv roles (approve t k user now).0
  unfolding approve
  approved-Inv t i k user now honest ad f v =
      written-Inv roles t i k _ f refl refl (found-IsFree i t.rows k f v.distinct)
        (λ e. (user.id, refl, rw (← honest) ad)) v

  rejected-Inv :
      (t : Table) (i : ℕ) (k : Keyword) (user : User) (reason : Option Text) (now : ℕ)
      → find_keyword i t.rows ≡ some k
      → Inv roles t
      → Inv roles (reject t k user reason now).0
  unfolding reject
  rejected-Inv t i k user reason now f v =
      written-Inv roles t i k _ f refl refl (found-IsFree i t.rows k f v.distinct)
        (λ e. absurd (rejected-ne-approved e)) v
    where
      rejected-ne-approved : rejected ≡ approved → ⊥
      rejected-ne-approved p = cc

  -- A request keeps the invariant: ids and contents stand once, a merchant has 20 keywords at most,
  -- and every approved keyword names the administrator who approved or wrote it.
  pub step-Inv : (t : Table) (q : Request) → IsHonest roles q → Inv roles t → Inv roles (step t q)
  unfolding step
  step-Inv t (creating m keyword ad_type priority user now) honest v =
      after_create-Inv t m user _ honest (create-Created t m keyword ad_type priority user now) v
  step-Inv t (updating i keyword ad_type priority active user now) honest v =
      elim (Option-cases (find_keyword i t.rows)) [
        | inl e ↦ rw (e, on_found) v
        | inr (k, e) ↦
            rw (e, on_found)
              (after_update-Inv t i k user _ honest e
                (update-Updated t k user keyword ad_type priority active now
                  (found-IsFree i t.rows k e v.distinct))
                v)
      ]
  step-Inv t (approving i user now) honest v = elim (Option-cases (find_keyword i t.rows)) [
    | inl e ↦ rw (e, on_found) v
    | inr (k, e) ↦ elim (Bool-cases (is_admin user.role)) [
      | inl a ↦ rw (e, on_found) (rw a (approved-Inv t i k user now honest a e v))
      | inr a ↦ rw (e, on_found) (rw a v)
    ]
  ]
  step-Inv t (rejecting i user reason now) honest v = elim (Option-cases (find_keyword i t.rows)) [
    | inl e ↦ rw (e, on_found) v
    | inr (k, e) ↦ elim (Bool-cases (is_admin user.role)) [
      | inl a ↦ rw (e, on_found) (rw a (rejected-Inv t i k user reason now e v))
      | inr a ↦ rw (e, on_found) (rw a v)
    ]
  ]
  step-Inv t (removing i) honest v = elim (Option-cases (find_keyword i t.rows)) [
    | inl e ↦ rw (e, on_found) v
    | inr (k, e) ↦ rw (e, on_found) (removed-Inv roles t k v)
  ]

  pub run-Inv :
      (t : Table) (qs : List Request) → All (IsHonest roles) qs → Inv roles t → Inv roles (run t qs)
  unfolding run
  run-Inv t [] h v = v
  run-Inv t (q ∷ qs) h v = run-Inv (step t q) qs h.1 (step-Inv t q h.0 v)

abbrev pub no_keywords : Table
no_keywords = record { rows = []; next_id = 1 }

no_keywords-Inv : (roles : ℕ → Role) → Inv roles no_keywords
unfolding count_for
no_keywords-Inv roles = record {
  below = tt;
  ids = tt;
  distinct = tt;
  capacity = λ m. omega arith;
  vetted = tt;
}

-- After any history of requests from an empty table, ids and contents stand once, a merchant has 20
-- keywords at most, and every approved keyword names an administrator.
pub run-no_keywords :
    (roles : ℕ → Role) (qs : List Request)
    → All (IsHonest roles) qs
    → Inv roles (run no_keywords qs)
run-no_keywords roles qs h = run-Inv roles no_keywords qs h (no_keywords-Inv roles)

-- A keyword of the table that the automatic dispatch may use is one that an administrator let through.
pub usable-Vetted :
    (roles : ℕ → Role) (t : Table) (i : ℕ) (k : Keyword)
    → Inv roles t
    → find_keyword i t.rows ≡ some k
    → is_usable k ≡ true
    → (a : ℕ) × (k.approved_by ≡ some a) × (is_admin (roles a) ≡ true)
usable-Vetted roles t i k v f u =
    All-found (IsVetted roles) i t.rows k f v.vetted (usable_approved k.is_active k.status u)
  where
    usable_approved : (b : Bool) (s : Status) → (b && is_approved s) ≡ true → s ≡ approved
    usable_approved b s h = ground arith
