-- ===== src/Credit/RefundOutcomes.antt =====
-- When a refund is requested, approved and rejected, and what has happened then
-- (app/services/ad_credit.py).
use beautypos.Prelude.{
  ℕ, ◌≡◌, ◌≢◌, refl, ap, ◌⊎◌, inl, inr, true, false, not, Bool-cases, ◌∷◌, Option, none, some, any,
  Result, ok, err, ◌>>=◌, arith, if◌then◌else◌, ◌==◌,
}
use beautypos.Prelude.Int.{
  ℤ, pos, ◌+ℤ◌, ◌≤ℤ◌, ltb_ℤ, leb_ℤ, negate, ltb_ℤ→lt, ltb_ℤ→le, leb_ℤ→le, leb_ℤ→lt, negate_le,
}
use mathlib.Core.Bool.{false≢true}
use beautypos.Text.{Text}
use beautypos.Credit.State.{
  Db, Credit, Entry, Refund, RefundStatus, pending, approved, rejected, refund_entry, lock_credit,
  balance_of, refund_request,
}
use beautypos.Credit.Operations.{
  Error, refund_pending, refund_too_small, refund_already_processed, nothing_to_refund,
}
use beautypos.Credit.Refunds.{
  min_refund_amount, is_pending, pending_for, write_refund, request_refund, payable, processed,
  approve_refund,
}
use beautypos.Credit.Balance.{Locked, lock_credit-Locked, Applies, apply-Locked-Applies}

-- A request asks for the whole balance, and changes nothing but the list of refunds.
pub record Requested (db : Db) (m : ℕ) (r : Db × Refund) : Type 0 where
  pub none_pending : any (pending_for m) db.refunds ≡ false
  pub large : min_refund_amount ≤ℤ balance_of db m
  pub amount : (r.1).amount ≡ balance_of db m
  pub status : (r.1).status ≡ pending
  pub merchant : (r.1).merchant_id ≡ m
  pub after : r.0 ≡ record db { refunds = r.1 ∷ db.refunds }

abbrev pub Requests : Db → ℕ → Result Error (Db × Refund) → Type 0
Requests db m (ok r) = Requested db m r
Requests db m (err e) =
    ((any (pending_for m) db.refunds ≡ true) × (e ≡ refund_pending))
    ⊎ (¬ (min_refund_amount ≤ℤ balance_of db m) × (e ≡ refund_too_small))

Requests-pending :
    (db : Db) (m : ℕ) (x : Result Error (Db × Refund))
    → any (pending_for m) db.refunds ≡ true
    → x ≡ err refund_pending
    → Requests db m x
Requests-pending db m x e h = rw h (inl (e, refl))

-- A refund is requested unless one is pending or the balance is below 10,000 won.
pub request_refund-Requests :
    (db : Db) (m : ℕ) (reason : Option Text) (user : ℕ)
    → Requests db m (request_refund db m reason user)
unfolding request_refund
request_refund-Requests db m reason user = elim (Bool-cases (any (pending_for m) db.refunds)) [
  | inl e ↦ Requests-pending db m _ e (rw e refl)
  | inr e ↦ elim (Bool-cases (ltb_ℤ (balance_of db m) min_refund_amount)) [
    | inl f ↦ rw (e, f) (inr (ltb_ℤ→lt (balance_of db m) min_refund_amount f, refl))
    | inr f ↦
        rw (e, f)
          (record {
            none_pending = e;
            large = ltb_ℤ→le (balance_of db m) min_refund_amount f;
            amount = refl;
            status = refl;
            merchant = refl;
            after = refl;
          })
  ]
]

-- What an approval has done: it pays `paid`, the requested amount or what is left of the balance.
pub record Approved (db : Db) (r : Refund) (paid : ℤ) (s : Db × Refund) : Type 0 where
  pub was_pending : r.status ≡ pending
  pub positive : pos 1 ≤ℤ paid
  pub status : (s.1).status ≡ approved
  pub amount : (s.1).amount ≡ paid
  pub id : (s.1).id ≡ r.id
  pub refunds : (s.0).refunds ≡ write_refund s.1 db.refunds
  pub balances :
      (j : ℕ)
      → balance_of s.0 j ≡ (
          if r.merchant_id == j
          then balance_of db r.merchant_id +ℤ negate paid
          else balance_of db j)
  pub entry : Entry
  pub ledger : (s.0).ledger ≡ entry ∷ db.ledger
  pub entry_is :
      (entry.merchant_id ≡ r.merchant_id)
      × (entry.entry_type ≡ refund_entry)
      × (entry.amount ≡ negate paid)
  pub covered : pos 0 ≤ℤ balance_of s.0 r.merchant_id

abbrev pub Approves : Db → Refund → ℤ → Result Error (Db × Refund) → Type 0
Approves db r paid (ok s) = Approved db r paid s
Approves db r paid (err e) =
    ((r.status ≢ pending) × (e ≡ refund_already_processed))
    ⊎ ((r.status ≡ pending) × (paid ≤ℤ pos 0) × (e ≡ nothing_to_refund))

payable_le : (balance amount : ℤ) → payable balance amount ≤ℤ balance
unfolding payable
payable_le balance amount = ground arith

-- The smaller of two numbers
abbrev pub IsSmaller : ℤ → ℤ → ℤ → Type 0
IsSmaller a b n = (n ≤ℤ a) × (n ≤ℤ b) × ((n ≡ a) ⊎ (n ≡ b))

ltb_ℤ→below : (a b : ℤ) → ltb_ℤ a b ≡ true → a ≤ℤ b
ltb_ℤ→below a b h = ground arith

payable-IsSmaller : (balance amount : ℤ) → IsSmaller balance amount (payable balance amount)
unfolding payable
payable-IsSmaller balance amount = elim (Bool-cases (ltb_ℤ balance amount)) [
  | inl e ↦ rw e (omega arith, ltb_ℤ→below balance amount e, inl refl)
  | inr e ↦ rw e (ltb_ℤ→le balance amount e, omega arith, inr refl)
]

is_pending→pending : (s : RefundStatus) → not (is_pending s) ≡ false → s ≡ pending
is_pending→pending pending h = refl
is_pending→pending approved h = cc
is_pending→pending rejected h = cc

not_pending : (s : RefundStatus) → not (is_pending s) ≡ true → s ≢ pending
not_pending s h e = false≢true (rw e at h)

Approves-apply :
    (db : Db) (r : Refund) (paid : ℤ) (r' : Refund) (x : Result Error (Db × Entry))
    → r.status ≡ pending
    → pos 1 ≤ℤ paid
    → paid ≤ℤ balance_of db r.merchant_id
    → r'.status ≡ approved
    → r'.amount ≡ paid
    → r'.id ≡ r.id
    → Applies db r.merchant_id refund_entry (negate paid) x
    → Approves db r paid
        (do p ← x; ok (record (p.0) { refunds = write_refund r' (p.0).refunds }, r'))
unfolding balance_of
Approves-apply db r paid r' (err e) was positive le st am ident a =
    absurd (a (negate_le paid (balance_of db r.merchant_id) le))
Approves-apply db r paid r' (ok p) was positive le st am ident a = record {
  was_pending = was;
  positive = positive;
  status = st;
  amount = am;
  id = ident;
  refunds = ap (write_refund r') a.refunds;
  balances = a.balances;
  entry = p.1;
  ledger = a.ledger;
  entry_is = (a.merchant, a.kind, a.amount);
  covered = a.covered;
}

pub approve_refund-payable :
    (db : Db) (r : Refund) (admin now : ℕ) (memo : Option Text)
    → Approves db r
        (payable (balance_of db r.merchant_id) r.amount)
        (approve_refund db r admin now memo)
unfolding approve_refund
approve_refund-payable db r admin now memo = elim (Bool-cases (not (is_pending r.status))) [
  | inl e ↦ rw e (inl (not_pending r.status e, refl))
  | inr e ↦ elim (Bool-cases (leb_ℤ (payable c.balance r.amount) (pos 0))) [
    | inl f ↦
        rw (e, f)
          (inr (is_pending→pending r.status e, leb_ℤ→le paid (pos 0) (rw l.balance at f), refl))
    | inr f ↦
        rw (e, f, l.balance)
          (Approves-apply db r paid r' _ (is_pending→pending r.status e)
            (omega (arith, leb_ℤ→lt paid (pos 0) (rw l.balance at f)))
            (payable_le (balance_of db r.merchant_id) r.amount) refl refl refl
            (apply-Locked-Applies db r.merchant_id refund_entry (negate paid)
              (some (refund_request r.id)) (some admin) none db' c l))
  ]
]
  where
    db' : Db
    db' = (lock_credit db r.merchant_id).0

    c : Credit
    c = (lock_credit db r.merchant_id).1

    l : Locked db r.merchant_id db' c
    l = lock_credit-Locked db r.merchant_id

    paid : ℤ
    paid = payable (balance_of db r.merchant_id) r.amount

    r' : Refund
    r' = processed (record r { amount = paid }) approved admin now memo

-- An approval pays the smaller of the requested amount and the balance, if the refund is pending and
-- something is left to pay; otherwise it raises.
pub approve_refund-Approves :
    (db : Db) (r : Refund) (admin now : ℕ) (memo : Option Text)
    → (paid : ℤ) × (IsSmaller (balance_of db r.merchant_id) r.amount paid
        × Approves db r paid (approve_refund db r admin now memo))
approve_refund-Approves db r admin now memo = (
  payable (balance_of db r.merchant_id) r.amount,
  (
    payable-IsSmaller (balance_of db r.merchant_id) r.amount,
    approve_refund-payable db r admin now memo,
  ),
)
