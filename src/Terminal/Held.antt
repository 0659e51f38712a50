-- ===== src/Terminal/Held.antt =====
-- A payment that is in the table stays there under its code (app/api/terminal_routes.py).
use beautypos.Prelude.{
  ℕ, ◌≡◌, refl, ap, ◌∙◌, inl, inr, true, not, ◌==◌, ==_refl, Bool-cases, Option-cases, List, [],
  ◌∷◌, ◌++◌, Option, none, some, first, where_, Result, ok, err, any,
}
use beautypos.Prelude.Int.{ℤ}
use beautypos.Text.{Text, text_eq_refl}
use beautypos.Terminal.Auth.{Terminal}
use beautypos.Terminal.Ingest.{
  Transaction, Table, Shops, Merchant, Payment, Answer, stored, duplicate, Note, IngestError,
  has_code, has_approval, find_approval, find_existing, violates, commit, store_or_answer,
  transaction_of, resolve_staff, ingest_from, is_approved,
}
use beautypos.Terminal.Cancel.{
  Settlement, CancelError, cancel_row, cancelled_row, write_row, find_transaction, covers,
}

-- A request that has passed its authentication
pub data Event : Type 0 where
  receiving : Shops → ℤ → Terminal → Payment → Event
  cancelling : List Settlement → ℤ → ℕ → Option Text → Event

abbrev pub after_ingest : Table → Result IngestError (Table × Answer) → Table
after_ingest t (ok r) = r.0
after_ingest t (err e) = t

abbrev pub after_cancel : Table → Result CancelError Table → Table
after_cancel t (ok r) = r
after_cancel t (err e) = t

abbrev pub cancel_found : List Settlement → Table → ℤ → Option Text → Option Transaction → Table
cancel_found settlements t now reason none = t
cancel_found settlements t now reason (some row) =
    after_cancel t (cancel_row settlements t now reason row)

unfoldable pub step : Table → Event → Table
unfolding ingest_from cancel_row find_transaction
step t (receiving s now terminal q) = after_ingest t (ingest_from s t now terminal q)
step t (cancelling settlements now i reason) =
    cancel_found settlements t now reason (find_transaction i t.rows)

unfoldable pub steps : Table → List Event → Table
unfolding step
steps t [] = t
steps t (e ∷ es) = steps (step t e) es

abbrev pub transaction : Answer → Transaction
transaction (stored row remark) = row
transaction (duplicate row) = row

-- The terminal's payment of a code is there, under a number.
abbrev pub Holds : ℕ → Text → ℕ → List Transaction → Type 0
Holds terminal code i rows =
    (r : Transaction) × ((find_approval terminal code rows ≡ some r) × (r.id ≡ i))

append-Holds :
    (terminal : ℕ) (code : Text) (i : ℕ) (rows : List Transaction) (row : Transaction)
    → Holds terminal code i rows
    → Holds terminal code i (rows ++ (row ∷ []))
unfolding find_approval
append-Holds terminal code i [] row (r, (e, h)) = cc
append-Holds terminal code i (q ∷ qs) row (r, (e, h)) =
    elim (Bool-cases (has_approval terminal code q)) [
      | inl x ↦ rw x (r, ((rw x at e), h))
      | inr x ↦ rw x (append-Holds terminal code i qs row (r, ((rw x at e), h)))
    ]

head_of : (q r : Transaction) → some q ≡ some r → q ≡ r
head_of q r e = ap (λ (o : Option Transaction). elim o [ none ↦ q | some x ↦ x ]) e

write-Holds :
    (terminal : ℕ) (code : Text) (i j : ℕ) (now : ℤ) (reason : Option Text)
    (rows : List Transaction)
    → Holds terminal code i rows
    → Holds terminal code i (write_row j (cancelled_row now reason) rows)
unfolding find_approval write_row cancelled_row
write-Holds terminal code i j now reason [] (r, (e, h)) = cc
write-Holds terminal code i j now reason (q ∷ qs) (r, (e, h)) =
    elim (Bool-cases (has_approval terminal code q)) [
      | inl x ↦ elim (Bool-cases (q.id == j)) [
        | inl y ↦
            rw (y, x)
              (
                cancelled_row now reason q,
                (refl, ap (λ (k : Transaction). k.id) (head_of q r (rw x at e)) ∙ h),
              )
        | inr y ↦ rw (y, x) (r, ((rw x at e), h))
      ]
      | inr x ↦ elim (Bool-cases (q.id == j)) [
        | inl y ↦ rw (y, x) (r, ((rw x at e), h))
        | inr y ↦ rw (y, x) (write-Holds terminal code i j now reason qs (r, ((rw x at e), h)))
      ]
    ]

commit-Holds :
    (terminal : ℕ) (code : Text) (i : ℕ) (t : Table) (row : Transaction) (remark : Option Note)
    → Holds terminal code i t.rows
    → Holds terminal code i (commit t row remark).0.rows
unfolding commit
commit-Holds terminal code i t row remark h =
    elim (Option-cases (violates row.terminal_id row.approval_code t.rows)) [
      | inl e ↦ rw (e, commit) (append-Holds terminal code i t.rows row h)
      | inr (r, e) ↦ rw (e, commit) h
    ]

store-Holds :
    (terminal : ℕ) (code : Text) (i : ℕ) (t : Table) (row : Transaction) (remark : Option Note)
    (existing : Option Transaction)
    → Holds terminal code i t.rows
    → Holds terminal code i (store_or_answer t row remark existing).0.rows
unfolding store_or_answer
store-Holds terminal code i t row remark (some r) h = h
store-Holds terminal code i t row remark none h = commit-Holds terminal code i t row remark h

ingest-Holds :
    (terminal : ℕ) (code : Text) (i : ℕ) (s : Shops) (t : Table) (now : ℤ) (d : Terminal)
    (q : Payment)
    → Holds terminal code i t.rows
    → Holds terminal code i (after_ingest t (ingest_from s t now d q)).rows
unfolding ingest_from
ingest-Holds terminal code i s t now d q h =
    elim (Option-cases (first (where_ (λ (m : Merchant). m.id == q.merchant_id) s.merchants))) [
      | inl e ↦ rw e h
      | inr (m, e) ↦ rw e (elim (Bool-cases (not m.is_active)) [
        | inl f ↦ rw f h
        | inr f ↦ rw f (elim (Bool-cases (not (d.merchant_id == m.id))) [
          | inl g ↦ rw g h
          | inr g ↦ rw g (
              store-Holds terminal code i t (transaction_of s d m now q t.next_id)
                (resolve_staff s m.id q.staff_code).1 (find_existing d.id q t.rows) h)
        ])
      ])
    ]

cancel-Holds :
    (terminal : ℕ) (code : Text) (i : ℕ) (settlements : List Settlement) (t : Table) (now : ℤ)
    (reason : Option Text) (row : Option Transaction)
    → Holds terminal code i t.rows
    → Holds terminal code i (cancel_found settlements t now reason row).rows
unfolding cancel_row
cancel-Holds terminal code i settlements t now reason none h = h
cancel-Holds terminal code i settlements t now reason (some row) h =
    elim (Bool-cases (not (is_approved row.status))) [
      | inl e ↦ rw e h
      | inr e ↦ rw e (elim (Bool-cases (any (covers row) settlements)) [
        | inl f ↦ rw f h
        | inr f ↦ rw f (write-Holds terminal code i row.id now reason t.rows h)
      ])
    ]

step-Holds :
    (terminal : ℕ) (code : Text) (i : ℕ) (t : Table) (e : Event)
    → Holds terminal code i t.rows
    → Holds terminal code i (step t e).rows
unfolding step
step-Holds terminal code i t (receiving s now d q) h = ingest-Holds terminal code i s t now d q h
step-Holds terminal code i t (cancelling settlements now j reason) h =
    cancel-Holds terminal code i settlements t now reason (find_transaction j t.rows) h

pub steps-Holds :
    (terminal : ℕ) (code : Text) (i : ℕ) (t : Table) (es : List Event)
    → Holds terminal code i t.rows
    → Holds terminal code i (steps t es).rows
unfolding steps
steps-Holds terminal code i t [] h = h
steps-Holds terminal code i t (e ∷ es) h =
    steps-Holds terminal code i (step t e) es (step-Holds terminal code i t e h)

-- The last row is found if no other has the code.
find-append :
    (terminal : ℕ) (code : Text) (rows : List Transaction) (row : Transaction)
    → has_approval terminal code row ≡ true
    → find_approval terminal code rows ≡ none
    → find_approval terminal code (rows ++ (row ∷ [])) ≡ some row
unfolding find_approval
find-append terminal code [] row h e = rw h refl
find-append terminal code (q ∷ qs) row h e = elim (Bool-cases (has_approval terminal code q)) [
  | inl x ↦ absurd (some_none q (rw x at e))
  | inr x ↦ rw x (find-append terminal code qs row h (rw x at e))
]
  where
    some_none : (q : Transaction) → some q ≡ none → ⊥
    some_none q e = cc

commit-Stored :
    (t : Table) (row : Transaction) (remark : Option Note) (code : Text)
    → row.approval_code ≡ some code
    → find_approval row.terminal_id code t.rows ≡ none
    → Holds row.terminal_id code
        (transaction (commit t row remark).1).id
        (commit t row remark).0.rows
unfolding commit violates
commit-Stored t row remark code e f =
    let free : violates row.terminal_id row.approval_code t.rows ≡ none =
      ap (λ o. violates row.terminal_id o t.rows) e ∙ f in
    let own : has_approval row.terminal_id code row ≡ true =
      rw (==_refl row.terminal_id) (ap (has_code code) e ∙ text_eq_refl code) in
    rw (free, commit) (row, (find-append row.terminal_id code t.rows row own f, refl))

-- A payment with a code is held once it has been stored or answered.
pub store-Stored :
    (t : Table) (row : Transaction) (remark : Option Note) (code : Text)
    (existing : Option Transaction)
    → row.approval_code ≡ some code
    → find_approval row.terminal_id code t.rows ≡ existing
    → Holds row.terminal_id code
        (transaction (store_or_answer t row remark existing).1).id
        (store_or_answer t row remark existing).0.rows
unfolding store_or_answer
store-Stored t row remark code (some r) e f = (r, (f, refl))
store-Stored t row remark code none e f = commit-Stored t row remark code e f
