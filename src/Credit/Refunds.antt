-- ===== src/Credit/Refunds.antt =====
-- Refunds: requested by the merchant, approved or rejected by an administrator
-- (app/services/ad_credit.py).
use beautypos.Prelude.{
  ℕ, suc, Bool, true, false, ◌&&◌, not, ◌==◌, if◌then◌else◌, List, [], ◌∷◌, ◌≡◌, refl, Option, none,
  some, length, any, Result, ok, ◌>>=◌, ◌>>◌, raise_if,
}
use beautypos.Prelude.Int.{ℤ, pos, negate, ltb_ℤ, leb_ℤ}
use beautypos.Text.{Text, clean}
use beautypos.Credit.State.{
  Db, Refund, RefundStatus, pending, approved, rejected, refund_entry, lock_credit, balance_of,
  refund_request,
}
use beautypos.Credit.Operations.{
  Error, refund_pending, refund_too_small, refund_already_processed, nothing_to_refund, apply,
}

-- 10,000 won
abbrev pub min_refund_amount : ℤ
min_refund_amount = pos 1000000

abbrev pub is_pending : RefundStatus → Bool
is_pending pending = true
is_pending _ = false

abbrev pub pending_for : ℕ → Refund → Bool
pending_for m r = r.merchant_id == m && is_pending r.status

-- The refund `r` as it is written back.
unfoldable pub write_refund : Refund → List Refund → List Refund
write_refund r [] = []
write_refund r (q ∷ qs) = if q.id == r.id then r ∷ qs else q ∷ write_refund r qs

unfoldable pub request_refund : Db → ℕ → Option Text → ℕ → Result Error (Db × Refund)
request_refund db m reason user = do
  raise_if (any (pending_for m) db.refunds) refund_pending
  let balance = balance_of db m
  raise_if (ltb_ℤ balance min_refund_amount) refund_too_small
  let refund : Refund = record {
    id = suc (length db.refunds);
    merchant_id = m;
    amount = balance;
    status = pending;
    reason = clean reason;
    admin_memo = none;
    requested_by = some user;
    processed_by = none;
    processed_at = none;
  }
  ok (record db { refunds = refund ∷ db.refunds }, refund)

-- What is left of the balance, if orders have used some of it since the request.
unfoldable pub payable : ℤ → ℤ → ℤ
payable balance amount = if ltb_ℤ balance amount then balance else amount

unfoldable pub processed : Refund → RefundStatus → ℕ → ℕ → Option Text → Refund
processed r status admin now memo = record r {
  status = status;
  processed_by = some admin;
  processed_at = some now;
  admin_memo = clean memo;
}

unfoldable pub approve_refund : Db → Refund → ℕ → ℕ → Option Text → Result Error (Db × Refund)
unfolding payable processed
approve_refund db r admin now memo = do
  raise_if (not (is_pending r.status)) refund_already_processed
  let (db', c) = lock_credit db r.merchant_id
  let amount = payable c.balance r.amount
  raise_if (leb_ℤ amount (pos 0)) nothing_to_refund
  paid ←
      apply db' r.merchant_id refund_entry (negate amount) (some (refund_request r.id)) (some admin)
        none (some c)
  let r' = processed (record r { amount = amount }) approved admin now memo
  ok (record (paid.0) { refunds = write_refund r' (paid.0).refunds }, r')

unfoldable pub reject_refund : Db → Refund → ℕ → ℕ → Option Text → Result Error (Db × Refund)
unfolding processed
reject_refund db r admin now memo = do
  raise_if (not (is_pending r.status)) refund_already_processed
  let r' = processed r rejected admin now memo
  ok (record db { refunds = write_refund r' db.refunds }, r')

-- A processed refund is no longer pending.
pub rejected_processed :
    (r : Refund) (admin now : ℕ) (memo : Option Text)
    → is_pending (processed r rejected admin now memo).status ≡ false
unfolding processed
rejected_processed r admin now memo = refl
