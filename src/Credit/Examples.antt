-- ===== src/Credit/Examples.antt =====
-- The theorems on the credit service at concrete inputs, and runs of it.
use beautypos.Prelude.{
  ℕ, ◌*◌, ◌≤◌, ◌≡◌, refl, true, ltb, ◌==◌, ◌&&◌, ◌||◌, if◌then◌else◌, List, [], ◌∷◌, none, some, ok,
}
use beautypos.Prelude.Int.{ℤ, pos, negsuc, ltb_ℤ, ◌≤ℤ◌, ◌+ℤ◌, negate, ◌-ℤ◌}
use beautypos.Credit.State.{
  Db, Entry, Refund, mariadb, pending, charge_entry, use_entry, balance_of, lock_credit,
  ledger_total, sum_for, find_credit, write_credit,
}
use beautypos.Credit.Operations.{charge, use_credit, reverse_use, apply, record_change}
use beautypos.Credit.Exact.{
  Decimal, Sent, charging_exact, adjusting_exact, other, run_exact, step_exact, charge_exact,
  adjust_exact, apply_exact, run-verify,
}
use beautypos.Text.{codes, strip, is_space}
use beautypos.Credit.Refunds.{request_refund, approve_refund, payable, processed, write_refund}
use beautypos.Credit.Balance.{IsConsistent}
use beautypos.Credit.Outcomes.{Uses, use_credit-Uses, reverse_use-use_credit}
use beautypos.Credit.RefundOutcomes.{Approves, IsSmaller, approve_refund-Approves}
use beautypos.Credit.Report.{verify}
use beautypos.Credit.History.{
  Request, charging, using_credit, requesting, approving, run, fresh, step, find_refund,
  fresh-IsConsistent, run-IsConsistent, run-OnePending, pending_count,
}

-- Merchant 7 charges 50,000 won, uses 12,000, asks for a refund, uses 8,000 more, and is paid.
abbrev history : List Request
history =
    charging 7 (pos 5000000) none (some 1)
    ∷ using_credit 7 (pos 1200000) (some 31) none (some 2)
    ∷ requesting 7 none 2
    ∷ using_credit 7 (pos 800000) (some 32) none (some 2)
    ∷ approving 1 1 99 none
    ∷ []

abbrev funded : Db
funded = run (fresh mariadb) (charging 7 (pos 5000000) none (some 1) ∷ [])

funded-IsConsistent : IsConsistent funded
funded-IsConsistent = run-IsConsistent (fresh mariadb) _ (fresh-IsConsistent mariadb)

use_credit-Uses_example :
    Uses funded 7 (pos 1200000) (use_credit funded 7 (pos 1200000) (some 31) none none)
use_credit-Uses_example = use_credit-Uses funded 7 (pos 1200000) (some 31) none none

abbrev asked : Refund
asked = record {
  id = 1;
  merchant_id = 7;
  amount = pos 3800000;
  status = pending;
  reason = none;
  admin_memo = none;
  requested_by = some 2;
  processed_by = none;
  processed_at = none;
}

approve_refund-Approves_example :
    (paid : ℤ) × (IsSmaller (balance_of funded 7) (pos 3800000) paid
      × Approves funded asked paid (approve_refund funded asked 1 99 none))
approve_refund-Approves_example = approve_refund-Approves funded asked 1 99 none

-- A column that rounds the half away from zero, for amounts of one place more than the hundredths
abbrev rounded : Decimal → ℤ
rounded d =
    if d.rest == 0 || ltb (d.rest * 2) 10
    then d.hundredths
    else if ltb_ℤ d.hundredths (pos 0) && d.rest == 5
    then d.hundredths
    else d.hundredths +ℤ pos 1

rounded_whole : (d : Decimal) → d.rest ≡ 0 → rounded d ≡ d.hundredths
rounded_whole d e = rw e refl

abbrev won : ℕ → Decimal
won n = record { hundredths = pos (n * 100); rest = 0; places = 0 }

abbrev requests : List Sent
requests =
    charging_exact 7 (won 50000) none (some 1)
    ∷ (adjusting_exact 7 (won 200) (some (codes "event")) (some 1)
        ∷ (other (requesting 7 none 2) ∷ []))

run-verify_example :
    ((verify (run_exact rounded (fresh mariadb) requests) 7).matches ≡ true)
    × ((verify (run_exact rounded (fresh mariadb) requests) 7).difference ≡ pos 0)
    × (pos 0 ≤ℤ (verify (run_exact rounded (fresh mariadb) requests) 7).balance)
run-verify_example = run-verify rounded mariadb requests 7 rounded_whole (refl, (refl, (tt, tt)))

-- 10 won, and an adjustment by -0.015: the balance is written as 9.99 and the entry as -0.02.
abbrev drifting : List Sent
drifting =
    charging_exact 7 (won 10) none (some 1)
    ∷ (adjusting_exact 7 (record { hundredths = negsuc 1; rest = 5; places = 1 })
          (some (codes "event")) (some 1)
        ∷ [])

drift : (verify (run_exact rounded (fresh mariadb) drifting) 7).difference ≡ pos 1
unfolding run_exact step_exact charge_exact adjust_exact apply_exact lock_credit find_credit
    write_credit record_change verify balance_of ledger_total sum_for strip is_space ◌+ℤ◌ ◌-ℤ◌
    negate
drift = refl

run-OnePending_example : pending_count 7 (run (fresh mariadb) history).refunds ≤ 1
run-OnePending_example = run-OnePending mariadb history 7

-- The refund of 38,000 won is cut to the 30,000 that are left, and the balance is then nothing.
history-balance : balance_of (run (fresh mariadb) history) 7 ≡ pos 0
unfolding run step charge use_credit request_refund approve_refund apply lock_credit find_credit
    write_credit balance_of find_refund write_refund payable processed ◌+ℤ◌ ◌-ℤ◌ negate
history-balance = refl

abbrev charged : Entry
charged = record {
  id = 1;
  merchant_id = 7;
  entry_type = charge_entry;
  amount = pos 5000000;
  balance_after = pos 5000000;
  ad_order_id = none;
  memo = none;
  created_by = some 1;
}

abbrev used : Entry
used = record {
  id = 2;
  merchant_id = 7;
  entry_type = use_entry;
  amount = negsuc 1199999;
  balance_after = pos 3800000;
  ad_order_id = some 31;
  memo = none;
  created_by = none;
}

abbrev after_use : Db
after_use = record {
  dialect = mariadb;
  credits = record { merchant_id = 7; balance = pos 3800000 } ∷ [];
  ledger = used ∷ charged ∷ [];
  refunds = [];
}

use_succeeds : use_credit funded 7 (pos 1200000) (some 31) none none ≡ ok (after_use, used)
unfolding run step charge use_credit apply lock_credit find_credit write_credit ◌+ℤ◌ ◌-ℤ◌ negate
use_succeeds = refl

reverse_use-use_credit_example :
    (s : Db × Entry) × (reverse_use after_use 7 (pos 1200000) (some 31) none none ≡ ok s)
    × ((j : ℕ) → balance_of s.0 j ≡ balance_of funded j)
reverse_use-use_credit_example =
    reverse_use-use_credit funded 7 (pos 1200000) (some 31) (some 31) none none none none
      (after_use, used) funded-IsConsistent use_succeeds
