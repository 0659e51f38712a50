-- ===== src/Terminal/Unsettled.antt =====
-- A cancellation leaves what has been settled as it is (app/api/terminal_routes.py).
use beautypos.Prelude.{
  ℕ, ◌≡◌, refl, sym, ap, subst, ◌∙◌, inl, inr, Bool, true, false, ◌&&◌, ◌==◌, Bool-cases,
  Option-cases, if◌then◌else◌, List, [], ◌∷◌, Option, none, some, any, Result, ok, err, ◌>>=◌,
  arith, ◌+◌,
}
use beautypos.Prelude.Int.{ℤ}
use beautypos.Text.{Text}
use beautypos.Terminal.Auth.{Terminal}
use beautypos.Terminal.Ingest.{Transaction, Table, Shops, is_approved}
use beautypos.Terminal.Cancel.{
  Settlement, CancelError, Actor, Account, Claims, cancel_row, cancelled_row, write_row,
  find_transaction, covers, auth_cancel_actor, cancel_transaction,
}

-- The approved amount of the payments that a test keeps
unfoldable pub total : (Transaction → Bool) → List Transaction → ℕ
total keeps [] = 0
total keeps (t ∷ ts) = (if is_approved t.status && keeps t then t.amount else 0) + total keeps ts

-- What each settlement adds up
unfoldable pub totals : List Settlement → List Transaction → List ℕ
unfolding total
totals [] rows = []
totals (s ∷ ss) rows = total (λ t. covers t s) rows ∷ totals ss rows

abbrev pub every : Transaction → Bool
every t = true

head_of : (q r : Transaction) → some q ≡ some r → q ≡ r
head_of q r e = ap (λ (o : Option Transaction). elim o [ none ↦ q | some x ↦ x ]) e

-- A row that is approved counts if it is kept, and one that is cancelled does not.
kept-amount :
    (b k : Bool) (amount rest : ℕ)
    → b ≡ true
    → (if b && k then amount else 0) + rest ≡ (if k then amount else 0) + (0 + rest)
kept-amount b k amount rest h = rw h (omega arith)

-- Cancelling the row of a number takes its amount from a total that keeps it.
write-total :
    (keeps : Transaction → Bool) (i : ℕ) (now : ℤ) (reason : Option Text) (rows : List Transaction)
    (t : Transaction)
    → find_transaction i rows ≡ some t
    → is_approved t.status ≡ true
    → total keeps rows
      ≡ (if keeps t then t.amount else 0)
        + total keeps (write_row i (cancelled_row now reason) rows)
unfolding total find_transaction write_row cancelled_row
write-total keeps i now reason [] t e h = cc
write-total keeps i now reason (q ∷ qs) t e h = elim (Bool-cases (q.id == i)) [
  | inl x ↦
      let same = head_of q t (rw x at e) in
      rw x (
        kept-amount (is_approved q.status) (keeps q) q.amount (total keeps qs)
          (ap (λ (z : Transaction). is_approved z.status) same ∙ h)
        ∙ ap (λ (z : Transaction). (if keeps z then z.amount else 0) + (0 + total keeps qs)) same)
  | inr x ↦ rw x (
      ap (λ n. (if is_approved q.status && keeps q then q.amount else 0) + n)
        (write-total keeps i now reason qs t (rw x at e) h)
      ∙ omega arith)
]

zero_left : (a b : ℕ) → a ≡ 0 + b → b ≡ a
zero_left a b e = omega arith

cancelled-Kept :
    (settlements : List Settlement) (i : ℕ) (now : ℤ) (reason : Option Text)
    (rows : List Transaction) (t : Transaction)
    → find_transaction i rows ≡ some t
    → is_approved t.status ≡ true
    → any (covers t) settlements ≡ false
    → totals settlements (write_row i (cancelled_row now reason) rows) ≡ totals settlements rows
unfolding totals
cancelled-Kept [] i now reason rows t e h u = refl
cancelled-Kept (s ∷ ss) i now reason rows t e h u = elim (Bool-cases (covers t s)) [
  | inl x ↦ absurd (true_false (rw x at u))
  | inr x ↦
      ap (λ n. n ∷ totals ss (write_row i (cancelled_row now reason) rows))
        (zero_left _ _ (rw x at (write-total (λ q. covers q s) i now reason rows t e h)))
      ∙ ap (λ ns. total (λ q. covers q s) rows ∷ ns)
          (cancelled-Kept ss i now reason rows t e h (rw x at u))
]
  where
    true_false : true ≡ false → ⊥
    true_false e = cc

cancel_row-Kept :
    (settlements : List Settlement) (now : ℤ) (reason : Option Text) (table after : Table)
    (t : Transaction)
    → find_transaction t.id table.rows ≡ some t
    → cancel_row settlements table now reason t ≡ ok after
    → (totals settlements after.rows ≡ totals settlements table.rows)
      × (total every table.rows ≡ t.amount + total every after.rows)
unfolding cancel_row
cancel_row-Kept settlements now reason table after t e h =
    elim (Bool-cases (is_approved t.status)) [
      | inr x ↦ absurd (err_ok _ after (rw x at h))
      | inl x ↦ elim (Bool-cases (any (covers t) settlements)) [
        | inl y ↦ absurd (err_ok _ after (rw (x, y) at h))
        | inr y ↦
            let written : write_row t.id (cancelled_row now reason) table.rows ≡ after.rows =
              ap (λ (r : Result CancelError Table). elim r [ ok z ↦ z.rows | err f ↦ [] ])
                (rw (x, y) at h) in
            (
              ap (totals settlements) (sym written)
                  ∙ cancelled-Kept settlements t.id now reason table.rows t e x y,
              write-total every t.id now reason table.rows t e x
                  ∙ ap (λ rows. t.amount + total every rows) written,
            )
      ]
    ]
  where
    err_ok : (e : CancelError) (after : Table) → err e ≡ ok after → ⊥
    err_ok e after h = cc

same_id : (a b : ℕ) → (a == b) ≡ true → b ≡ a
same_id a b h = ground arith

found-id :
    (i : ℕ) (rows : List Transaction) (t : Transaction)
    → find_transaction i rows ≡ some t
    → i ≡ t.id
unfolding find_transaction
found-id i [] t e = cc
found-id i (q ∷ qs) t e = elim (Bool-cases (q.id == i)) [
  | inl x ↦ same_id q.id i x ∙ ap (λ (z : Transaction). z.id) (head_of q t (rw x at e))
  | inr x ↦ found-id i qs t (rw x at e)
]

abbrev done : Actor → Table → Result CancelError (Table × Actor)
done a z = ok (z, a)

abbrev table_of : Result CancelError (Table × Actor) → Result CancelError Table
table_of (ok r) = ok r.0
table_of (err e) = err e

-- A cancellation that succeeds is one that the rows allow.
stored_by :
    (auth : Result CancelError Actor) (r : Result CancelError Table) (after : Table) (actor : Actor)
    → (auth >>= λ a. r >>= done a) ≡ ok (after, actor)
    → r ≡ ok after
stored_by (err e) r after actor h = cc
stored_by (ok a) (err e) after actor h = cc
stored_by (ok a) (ok z) after actor h = ap table_of h

-- A cancellation that succeeds takes the amount of its payment from what has been approved, and changes
-- nothing that a settlement of the list adds up.
pub cancel_transaction-Unsettled :
    (fingerprint : Text → Text) (verify : Text → Text → Bool) (s : Shops) (accounts : List Account)
    (settlements : List Settlement) (terminals : List Terminal) (table after : Table) (now : ℤ)
    (i : ℕ) (reason key : Option Text) (token : Option (Option Claims)) (actor : Actor)
    → (cancel_transaction fingerprint verify s accounts settlements terminals table now i reason key
        token).1
      ≡ ok (after, actor)
    → (totals settlements after.rows ≡ totals settlements table.rows)
      × ((t : Transaction) × ((find_transaction i table.rows ≡ some t)
            × (total every table.rows ≡ t.amount + total every after.rows)))
unfolding cancel_transaction
cancel_transaction-Unsettled fingerprint verify s accounts settlements terminals table after now i
      reason key token actor h =
    elim (Option-cases (find_transaction i table.rows)) [
      | inl e ↦ absurd (err_ok _ (after, actor) (rw (e, cancel_transaction) at h))
      | inr (t, e) ↦
          let own =
            subst (λ j. find_transaction j table.rows ≡ some t) (found-id i table.rows t e) e in
          let kept = cancel_row-Kept settlements now reason table after t own (
            stored_by (auth_cancel_actor fingerprint verify s accounts terminals t key token).1
              (cancel_row settlements table now reason t) after actor
              (rw (e, cancel_transaction) at h)) in
          (kept.0, (t, (e, kept.1)))
    ]
  where
    err_ok : (e : CancelError) (r : Table × Actor) → err e ≡ ok r → ⊥
    err_ok e r h = cc
