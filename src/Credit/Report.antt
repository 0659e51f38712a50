-- ===== src/Credit/Report.antt =====
-- What the screens show of a merchant's credit (app/services/ad_credit.py). The amounts are the
-- exact ones: the conversion to a float for the response is left out.
use beautypos.Prelude.{ℕ, Bool, ◌==◌, List, where_, take}
use beautypos.Prelude.Int.{ℤ, ◌-ℤ◌, leb_ℤ, eqb_ℤ}
use beautypos.Credit.State.{Db, Entry, balance_of, ledger_total}
use beautypos.Credit.Refunds.{min_refund_amount}

-- The newest first, at most `limit`.
pub ledger_list : Db → ℕ → ℕ → List Entry
ledger_list db m limit = take limit (where_ (λ e. e.merchant_id == m) db.ledger)

pub record Verification : Type 0 where
  pub balance : ℤ
  pub ledger_total : ℤ
  pub matches : Bool
  pub difference : ℤ

unfoldable pub verify : Db → ℕ → Verification
verify db m = record {
  balance = balance_of db m;
  ledger_total = ledger_total db m;
  matches = eqb_ℤ (balance_of db m) (ledger_total db m);
  difference = balance_of db m -ℤ ledger_total db m;
}

pub record CreditDict : Type 0 where
  pub merchant_id : ℕ
  pub balance : ℤ
  pub ledger_total : ℤ
  pub balance_matches : Bool
  pub min_refund_amount : ℤ
  pub refundable : Bool

unfoldable pub credit_dict : Db → ℕ → CreditDict
unfolding verify
credit_dict db m =
    let check = verify db m in
    record {
      merchant_id = m;
      balance = check.balance;
      ledger_total = check.ledger_total;
      balance_matches = check.matches;
      min_refund_amount = min_refund_amount;
      refundable = leb_ℤ min_refund_amount check.balance;
    }
