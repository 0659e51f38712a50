-- ===== src/Credit/Operations.antt =====
-- Charging, using, reversing and adjusting the credit: every change of a balance goes through
-- `apply`, the source's `_apply` (app/services/ad_credit.py). The amounts here are whole hundredths of a
-- won; Exact has charges and adjustments of any amount.
use beautypos.Prelude.{
  ℕ, suc, ◌/◌, if◌then◌else◌, ◌∷◌, Option, none, some, length, Result, ok, err, ◌>>◌, raise_if,
}
use beautypos.Prelude.Int.{ℤ, pos, pos_part, ◌+ℤ◌, ◌-ℤ◌, negate, ltb_ℤ, leb_ℤ, eqb_ℤ}
use beautypos.Text.{Text, strip, or_empty, is_empty}
use beautypos.Credit.State.{
  Db, Credit, Entry, EntryType, charge_entry, use_entry, reverse_entry, adjust_entry, lock_credit,
  write_credit, Memo, written,
}

pub data Error : Type 0 where
  not_enough_balance : Error
  charge_not_positive charge_too_large : Error
  use_not_positive : Error
  -- the whole won that are missing
  short_of : ℕ → Error
  reverse_not_positive : Error
  adjust_without_reason adjust_of_zero : Error
  refund_pending refund_too_small refund_already_processed nothing_to_refund : Error

-- 100,000,000 won
abbrev pub max_charge_amount : ℤ
max_charge_amount = pos 10000000000

-- The row that the caller has locked, or else the merchant's row, locked here.
unfoldable pub row_of : Db → ℕ → Option Credit → Db × Credit
row_of db m none = lock_credit db m
row_of db m (some c) = (db, c)

unfoldable pub record_change :
    Db → ℕ → EntryType → ℤ → Option Memo → Option ℕ → Option ℕ → Credit → ℤ → Db × Entry
record_change db m entry_type delta memo actor order c new_balance =
    let entry : Entry = record {
      id = suc (length db.ledger);
      merchant_id = m;
      entry_type = entry_type;
      amount = delta;
      balance_after = new_balance;
      ad_order_id = order;
      memo = memo;
      created_by = actor;
    } in
    (
      record db {
        credits = write_credit (record c { balance = new_balance }) db.credits;
        ledger = entry ∷ db.ledger;
      },
      entry,
    )

unfoldable pub apply :
    Db
    → ℕ
    → EntryType
    → ℤ
    → Option Memo
    → Option ℕ
    → Option ℕ
    → Option Credit
    → Result Error (Db × Entry)
unfolding row_of record_change
apply db m entry_type delta memo actor order credit =
    let (db', c) = row_of db m credit in
    let new_balance = c.balance +ℤ delta in
    if ltb_ℤ new_balance (pos 0)
    then err not_enough_balance
    else ok (record_change db' m entry_type delta memo actor order c new_balance)

-- For an amount of whole hundredths; `charge_exact` of Exact takes any.
unfoldable pub charge : Db → ℕ → ℤ → Option Memo → Option ℕ → Result Error (Db × Entry)
charge db m value memo actor = do
  raise_if (leb_ℤ value (pos 0)) charge_not_positive
  raise_if (ltb_ℤ max_charge_amount value) charge_too_large
  apply db m charge_entry value memo actor none none

unfoldable pub use_credit :
    Db → ℕ → ℤ → Option ℕ → Option Memo → Option ℕ → Result Error (Db × Entry)
use_credit db m value order memo actor = do
  raise_if (leb_ℤ value (pos 0)) use_not_positive
  let (db', c) = lock_credit db m
  raise_if (ltb_ℤ c.balance value) (short_of (pos_part (value -ℤ c.balance) / 100))
  apply db' m use_entry (negate value) memo actor order (some c)

unfoldable pub reverse_use :
    Db → ℕ → ℤ → Option ℕ → Option Memo → Option ℕ → Result Error (Db × Entry)
reverse_use db m value order memo actor = do
  raise_if (leb_ℤ value (pos 0)) reverse_not_positive
  apply db m reverse_entry value memo actor order none

-- For an amount of whole hundredths; `adjust_exact` of Exact takes any.
unfoldable pub adjust : Db → ℕ → ℤ → Option Text → Option ℕ → Result Error (Db × Entry)
adjust db m delta memo actor = do
  raise_if (is_empty (strip (or_empty memo))) adjust_without_reason
  raise_if (eqb_ℤ delta (pos 0)) adjust_of_zero
  apply db m adjust_entry delta (some (written (strip (or_empty memo)))) actor none none
