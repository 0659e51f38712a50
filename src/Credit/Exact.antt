-- ===== src/Credit/Exact.antt =====
-- Charges and adjustments of any amount (`charge`, `adjust`, `_apply` and `_money` of
-- app/services/ad_credit.py, called with the float of `AdCreditCharge` and `AdCreditAdjust`). A column
-- `Numeric(14, 2)` rounds what is written to it; the rounding is the database's, and a parameter.
use beautypos.Prelude.{
  ℕ, ◌≡◌, refl, sym, ap, subst, Bool, true, ◌==◌, ◌&&◌, ◌||◌, not, if◌then◌else◌, List, [], All,
  ◌∷◌, Option, none, some, Result, ok, err, ◌>>◌, raise_if, arith,
}
use beautypos.Prelude.Int.{ℤ, pos, ◌+ℤ◌, ◌≤ℤ◌, ltb_ℤ, leb_ℤ, eqb_ℤ, eqb_refl, int_laws}
use beautypos.Text.{Text, strip, or_empty, is_empty}
use beautypos.Credit.State.{
  Db, Entry, EntryType, Memo, Dialect, written, charge_entry, adjust_entry, lock_credit,
  ledger_total,
}
use beautypos.Credit.Operations.{
  Error, not_enough_balance, charge_not_positive, charge_too_large, adjust_without_reason,
  adjust_of_zero, max_charge_amount, row_of, record_change, apply, charge, adjust,
}
use beautypos.Credit.Report.{verify}
use beautypos.Credit.Balance.{IsConsistent}
use beautypos.Credit.History.{
  Request, charging, adjusting, after, step, step-IsConsistent, fresh, fresh-IsConsistent,
}

-- `Decimal(str(value or 0))`: `hundredths + rest / 10 ^ places` hundredths of a won, with `rest` less
-- than `10 ^ places`. The number is below 0 exactly if `hundredths` is.
pub record Decimal : Type 0 where
  pub hundredths : ℤ
  pub rest : ℕ
  pub places : ℕ

abbrev pub not_above_0 : Decimal → Bool
not_above_0 d = ltb_ℤ d.hundredths (pos 0) || (eqb_ℤ d.hundredths (pos 0) && d.rest == 0)

abbrev pub is_above : ℤ → Decimal → Bool
is_above limit d = ltb_ℤ limit d.hundredths || (eqb_ℤ limit d.hundredths && not (d.rest == 0))

abbrev pub is_0 : Decimal → Bool
is_0 d = eqb_ℤ d.hundredths (pos 0) && d.rest == 0

abbrev pub plus : ℤ → Decimal → Decimal
plus balance d = record d { hundredths = balance +ℤ d.hundredths }

-- The new balance and the amount of the entry are rounded on their own when they are written.
unfoldable pub apply_exact :
    (Decimal → ℤ)
    → Db
    → ℕ
    → EntryType
    → Decimal
    → Option Memo
    → Option ℕ
    → Result Error (Db × Entry)
unfolding record_change
apply_exact column db m entry_type delta memo actor =
    let (db', c) = lock_credit db m in
    let new_balance = plus c.balance delta in
    if ltb_ℤ new_balance.hundredths (pos 0)
    then err not_enough_balance
    else ok (record_change db' m entry_type (column delta) memo actor none c (column new_balance))

unfoldable pub charge_exact :
    (Decimal → ℤ) → Db → ℕ → Decimal → Option Memo → Option ℕ → Result Error (Db × Entry)
charge_exact column db m value memo actor = do
  raise_if (not_above_0 value) charge_not_positive
  raise_if (is_above max_charge_amount value) charge_too_large
  apply_exact column db m charge_entry value memo actor

unfoldable pub adjust_exact :
    (Decimal → ℤ) → Db → ℕ → Decimal → Option Text → Option ℕ → Result Error (Db × Entry)
adjust_exact column db m delta memo actor = do
  raise_if (is_empty (strip (or_empty memo))) adjust_without_reason
  raise_if (is_0 delta) adjust_of_zero
  apply_exact column db m adjust_entry delta (some (written (strip (or_empty memo)))) actor

-- A request as it is sent: a charge or an adjustment of any amount, or a request of the history
pub data Sent : Type 0 where
  charging_exact : ℕ → Decimal → Option Memo → Option ℕ → Sent
  adjusting_exact : ℕ → Decimal → Option Text → Option ℕ → Sent
  other : Request → Sent

unfoldable pub step_exact : (Decimal → ℤ) → Db → Sent → Db
unfolding charge_exact adjust_exact
step_exact column db (charging_exact m value memo actor) =
    after db (charge_exact column db m value memo actor)
step_exact column db (adjusting_exact m delta memo actor) =
    after db (adjust_exact column db m delta memo actor)
step_exact column db (other q) = step db q

unfoldable pub run_exact : (Decimal → ℤ) → Db → List Sent → Db
unfolding step_exact
run_exact column db [] = db
run_exact column db (q ∷ qs) = run_exact column (step_exact column db q) qs

-- The amount of the request is a whole number of hundredths.
abbrev pub IsWhole : Sent → Type 0
IsWhole (charging_exact m value memo actor) = value.rest ≡ 0
IsWhole (adjusting_exact m delta memo actor) = delta.rest ≡ 0
IsWhole (other q) = Unit

-- A column stores a whole number of hundredths as it is.
abbrev pub StoresWhole : (Decimal → ℤ) → Type 0
StoresWhole column = (d : Decimal) → d.rest ≡ 0 → column d ≡ d.hundredths

to_request : Sent → Request
to_request (charging_exact m value memo actor) = charging m value.hundredths memo actor
to_request (adjusting_exact m delta memo actor) = adjusting m delta.hundredths memo actor
to_request (other q) = q

apply_exact-apply :
    (column : Decimal → ℤ) (db : Db) (m : ℕ) (t : EntryType) (d : Decimal) (memo : Option Memo)
    (actor : Option ℕ)
    → StoresWhole column
    → d.rest ≡ 0
    → apply_exact column db m t d memo actor ≡ apply db m t d.hundredths memo actor none none
unfolding apply_exact apply row_of
apply_exact-apply column db m t d memo actor stores e =
    rw (stores d e, stores (plus (lock_credit db m).1.balance d) e) refl

not_above_0-leb : (d : Decimal) → d.rest ≡ 0 → not_above_0 d ≡ leb_ℤ d.hundredths (pos 0)
not_above_0-leb d e = rw e (ground arith)

is_above-ltb : (limit : ℤ) (d : Decimal) → d.rest ≡ 0 → is_above limit d ≡ ltb_ℤ limit d.hundredths
is_above-ltb limit d e = rw e (ground arith)

is_0-eqb : (d : Decimal) → d.rest ≡ 0 → is_0 d ≡ eqb_ℤ d.hundredths (pos 0)
is_0-eqb d e = rw e (ground arith)

step_exact-step :
    (column : Decimal → ℤ) (db : Db) (q : Sent)
    → StoresWhole column
    → IsWhole q
    → step_exact column db q ≡ step db (to_request q)
unfolding step_exact step charge_exact adjust_exact charge adjust to_request
step_exact-step column db (charging_exact m value memo actor) stores e =
    rw (not_above_0-leb value e, is_above-ltb max_charge_amount value e)
      (ap
        (λ x. after db (
          raise_if (leb_ℤ value.hundredths (pos 0)) charge_not_positive
          >> (raise_if (ltb_ℤ max_charge_amount value.hundredths) charge_too_large >> x)))
        (apply_exact-apply column db m charge_entry value memo actor stores e))
step_exact-step column db (adjusting_exact m delta memo actor) stores e =
    let reason = strip (or_empty memo) in
    rw (is_0-eqb delta e) (
      ap
        (λ x. after db (
          raise_if (is_empty reason) adjust_without_reason
          >> (raise_if (eqb_ℤ delta.hundredths (pos 0)) adjust_of_zero >> x)))
        (apply_exact-apply column db m adjust_entry delta (some (written reason)) actor stores e))
step_exact-step column db (other q) stores e = refl

run_exact-IsConsistent :
    (column : Decimal → ℤ) (db : Db) (qs : List Sent)
    → StoresWhole column
    → All IsWhole qs
    → IsConsistent db
    → IsConsistent (run_exact column db qs)
unfolding run_exact
run_exact-IsConsistent column db [] stores w h = h
run_exact-IsConsistent column db (q ∷ qs) stores w h =
    run_exact-IsConsistent column (step_exact column db q) qs stores w.1 (
      subst IsConsistent (sym (step_exact-step column db q stores w.0))
        (step-IsConsistent db (to_request q) h))

-- After any history of requests whose charges and adjustments are whole hundredths of a won, the check
-- of the administrator's screen finds no difference for any merchant, and the balance is not negative,
-- if a column stores whole hundredths as they are.
pub run-verify :
    (column : Decimal → ℤ) (d : Dialect) (qs : List Sent) (m : ℕ)
    → StoresWhole column
    → All IsWhole qs
    → ((verify (run_exact column (fresh d) qs) m).matches ≡ true)
      × ((verify (run_exact column (fresh d) qs) m).difference ≡ pos 0)
      × (pos 0 ≤ℤ (verify (run_exact column (fresh d) qs) m).balance)
unfolding verify
run-verify column d qs m stores whole =
    let h = run_exact-IsConsistent column (fresh d) qs stores whole (fresh-IsConsistent d) m in
    (
      rw h.0 (eqb_refl (ledger_total (run_exact column (fresh d) qs) m)),
      rw h.0 (omega int_laws),
      h.1,
    )
