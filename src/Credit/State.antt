-- ===== src/Credit/State.antt =====
-- The rows of the credit tables, and the balance row of a merchant
-- (app/models/ad_credit.py, app/services/ad_credit.py). An amount counts hundredths of a won, the
-- unit of the columns `Numeric(14, 2)`.
use beautypos.Prelude.{
  ℕ, ◌≡◌, Bool, true, false, ◌==◌, if◌then◌else◌, List, [], ◌∷◌, Option, none, some, arith,
}
use beautypos.Prelude.Int.{ℤ, pos, ◌+ℤ◌}
use beautypos.Text.{Text}

pub data EntryType : Type 0 where
  charge_entry use_entry reverse_entry refund_entry adjust_entry : EntryType

pub data RefundStatus : Type 0 where
  pending approved rejected : RefundStatus

-- The memo of a ledger entry: a written one, or "환불 신청 #{id} 처리".
pub data Memo : Type 0 where
  written : Text → Memo
  refund_request : ℕ → Memo

-- `MerchantAdCredit`
pub record Credit : Type 0 where
  pub merchant_id : ℕ
  pub balance : ℤ

-- `AdCreditLedger`
pub record Entry : Type 0 where
  pub id : ℕ
  pub merchant_id : ℕ
  pub entry_type : EntryType
  pub amount : ℤ
  pub balance_after : ℤ
  pub ad_order_id : Option ℕ
  pub memo : Option Memo
  pub created_by : Option ℕ

-- `AdCreditRefund`; `processed_at` is a time stamp.
pub record Refund : Type 0 where
  pub id : ℕ
  pub merchant_id : ℕ
  pub amount : ℤ
  pub status : RefundStatus
  pub reason : Option Text
  pub admin_memo : Option Text
  pub requested_by : Option ℕ
  pub processed_by : Option ℕ
  pub processed_at : Option ℕ

pub data Dialect : Type 0 where
  mysql mariadb postgresql sqlite : Dialect

-- The newest ledger entry and the newest refund come first.
pub record Db : Type 0 where
  pub dialect : Dialect
  pub credits : List Credit
  pub ledger : List Entry
  pub refunds : List Refund

-- `.filter(MerchantAdCredit.merchant_id == merchant_id).first()`
unfoldable pub find_credit : ℕ → List Credit → Option Credit
find_credit m [] = none
find_credit m (c ∷ cs) = if c.merchant_id == m then some c else find_credit m cs

-- The row `c` as it is written back.
unfoldable pub write_credit : Credit → List Credit → List Credit
write_credit c [] = c ∷ []
write_credit c (d ∷ cs) = if d.merchant_id == c.merchant_id then c ∷ cs else d ∷ write_credit c cs

unfoldable pub supports_row_lock : Dialect → Bool
supports_row_lock sqlite = false
supports_row_lock _ = true

unfoldable pub get_or_create : Db → ℕ → Db × Credit
get_or_create db m = elim (find_credit m db.credits) [
  | some c ↦ (db, c)
  | none ↦
      let c : Credit = record { merchant_id = m; balance = pos 0 } in
      (record db { credits = write_credit c db.credits }, c)
]

unfoldable pub lock_credit : Db → ℕ → Db × Credit
unfolding get_or_create supports_row_lock
lock_credit db m =
    if supports_row_lock db.dialect
    then elim (find_credit m db.credits) [ some c ↦ (db, c) | none ↦ get_or_create db m ]
    else get_or_create db m

balance_or_zero : Option Credit → ℤ
balance_or_zero none = pos 0
balance_or_zero (some c) = c.balance

unfoldable pub balance_of : Db → ℕ → ℤ
unfolding balance_or_zero
balance_of db m = balance_or_zero (find_credit m db.credits)

unfoldable pub sum_for : ℕ → List Entry → ℤ
sum_for m [] = pos 0
sum_for m (e ∷ es) = if e.merchant_id == m then e.amount +ℤ sum_for m es else sum_for m es

-- The ledger's total of a merchant: `func.coalesce(func.sum(AdCreditLedger.amount), 0)`.
unfoldable pub ledger_total : Db → ℕ → ℤ
ledger_total db m = sum_for m db.ledger

pub find-write :
    (c : Credit) (m : ℕ) (cs : List Credit)
    → find_credit m (write_credit c cs) ≡ (if c.merchant_id == m then some c else find_credit m cs)
unfolding find_credit write_credit
find-write c m [] = ground arith
find-write c m (d ∷ cs) = ground (arith, find-write c m cs)

-- The row that is found bears the merchant that was asked for.
pub find-merchant :
    (m : ℕ) (cs : List Credit) (c : Credit) → find_credit m cs ≡ some c → c.merchant_id ≡ m
unfolding find_credit
find-merchant m [] c e = cc
find-merchant m (d ∷ cs) c e = ground (arith, find-merchant m cs c)
