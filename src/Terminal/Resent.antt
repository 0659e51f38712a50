-- ===== src/Terminal/Resent.antt =====
-- A payment that a terminal sends again is stored once (app/api/terminal_routes.py).
use beautypos.Prelude.{
  ℕ, ◌≡◌, refl, sym, ap, subst, ◌∙◌, inl, inr, true, ◌==◌, Bool-cases, Option-cases, List, ◌∷◌,
  some, first, where_, Result, ok, err,
}
use beautypos.Prelude.Int.{ℤ}
use beautypos.Text.{Text}
use beautypos.Terminal.Auth.{Terminal}
use beautypos.Terminal.Ingest.{
  Transaction, Table, Shops, Merchant, Payment, Answer, duplicate, IngestError, find_approval,
  find_existing, store_or_answer, transaction_of, resolve_staff, ingest_from,
}
use beautypos.Terminal.Held.{Event, steps, transaction, Holds, steps-Holds, store-Stored}

existing-approval :
    (terminal : ℕ) (q : Payment) (c : ℕ) (code : Text) (rows : List Transaction)
    → q.approval_code ≡ some (c ∷ code)
    → find_existing terminal q rows ≡ find_approval terminal (c ∷ code) rows
unfolding find_existing
existing-approval terminal q c code rows e = rw (e, find_existing) refl

-- The merchant of the payment is there, active, and the terminal's own.
abbrev Passes : Shops → Terminal → Payment → Merchant → Type 0
Passes s d q m =
    (first (where_ (λ (m : Merchant). m.id == q.merchant_id) s.merchants) ≡ some m)
    × ((m.is_active ≡ true) × ((d.merchant_id == m.id) ≡ true))

ingest-Passes :
    (s : Shops) (d : Terminal) (q : Payment) (m : Merchant) (t : Table) (now : ℤ)
    → Passes s d q m
    → ingest_from s t now d q
      ≡ ok (
          store_or_answer t
            (transaction_of s d m now q t.next_id)
            (resolve_staff s m.id q.staff_code).1
            (find_existing d.id q t.rows))
unfolding ingest_from
ingest-Passes s d q m t now (e, (f, g)) = rw (e, f, g) refl

ok-Passes :
    (s : Shops) (d : Terminal) (q : Payment) (t : Table) (now : ℤ) (r : Table × Answer)
    → ingest_from s t now d q ≡ ok r
    → (m : Merchant) × Passes s d q m
unfolding ingest_from
ok-Passes s d q t now r h =
    elim (Option-cases (first (where_ (λ (m : Merchant). m.id == q.merchant_id) s.merchants))) [
      | inl e ↦ absurd (err_ok _ r (rw e at h))
      | inr (m, e) ↦ elim (Bool-cases m.is_active) [
        | inr f ↦ absurd (err_ok _ r (rw (e, f) at h))
        | inl f ↦ elim (Bool-cases (d.merchant_id == m.id)) [
          | inr g ↦ absurd (err_ok _ r (rw (e, f, g) at h))
          | inl g ↦ (m, (e, (f, g)))
        ]
      ]
    ]
  where
    err_ok : (e : IngestError) (r : Table × Answer) → err e ≡ ok r → ⊥
    err_ok e r h = cc

ok_inj :
    (x y : Table × Answer) → ◌≡◌ {A = Result IngestError (Table × Answer)} (ok x) (ok y) → x ≡ y
ok_inj x y e = ap (λ (r : Result IngestError (Table × Answer)). elim r [ ok z ↦ z | err f ↦ x ]) e

-- After a payment with an approval code has been received, whether it was stored or known by then, and
-- after any other payments and cancellations, the same payment sent again by the same terminal stores
-- nothing, and is answered as a duplicate with the number of the first, if the shops are unchanged.
pub ingest_from-resent :
    (s : Shops) (d : Terminal) (q : Payment) (c : ℕ) (code : Text) (t : Table) (now later : ℤ)
    (es : List Event) (r : Table × Answer)
    → q.approval_code ≡ some (c ∷ code)
    → ingest_from s t now d q ≡ ok r
    → (x : Transaction) × ((ingest_from s (steps r.0 es) later d q ≡ ok (steps r.0 es, duplicate x))
        × (x.id ≡ (transaction r.1).id))
unfolding store_or_answer transaction_of
ingest_from-resent s d q c code t now later es r e h =
    let (m, passes) = ok-Passes s d q t now r h in
    let row = transaction_of s d m now q t.next_id in
    let remark = (resolve_staff s m.id q.staff_code).1 in
    let same : store_or_answer t row remark (find_existing d.id q t.rows) ≡ r =
      ok_inj _ r (sym (ingest-Passes s d q m t now passes) ∙ h) in
    let held : Holds d.id (c ∷ code) (transaction r.1).id r.0.rows =
      subst (λ (z : Table × Answer). Holds d.id (c ∷ code) (transaction z.1).id z.0.rows) same
        (store-Stored t row remark (c ∷ code) (find_existing d.id q t.rows) e
          (sym (existing-approval d.id q c code t.rows e))) in
    let (x, (found, number)) = steps-Holds d.id (c ∷ code) (transaction r.1).id r.0 es held in
    let after = steps r.0 es in
    (
      x,
      (
        ingest-Passes s d q m after later passes
            ∙ ap
                (λ o.
                  ok (store_or_answer after (transaction_of s d m later q after.next_id) remark o))
                (existing-approval d.id q c code after.rows e ∙ found),
        number,
      ),
    )
