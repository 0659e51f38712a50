-- ===== src/Terminal/Ingest.antt =====
-- Receiving a payment (`ingest_transaction` of app/api/terminal_routes.py, app/models/transaction.py).
-- Amounts are counted in hundredths of a won, times are time stamps in seconds. The payload that is
-- kept as a text is left out.
use beautypos.Prelude.{
  ℕ, suc, Bool, true, false, ◌&&◌, not, ◌==◌, List, [], ◌∷◌, ◌++◌, Option, none, some, first,
  where_, Result, ok, err, ◌>>=◌, ◌>>◌, raise_if,
}
use beautypos.Prelude.Int.{ℤ, ◌-ℤ◌, eqb_ℤ}
use beautypos.Text.{Text, text_eq, or_empty}
use beautypos.Terminal.Auth.{Terminal, find_terminal}

pub data TransactionStatus : Type 0 where
  approved cancelled : TransactionStatus

abbrev pub is_approved : TransactionStatus → Bool
is_approved approved = true
is_approved cancelled = false

pub record Transaction : Type 0 where
  pub id : ℕ
  pub merchant_id : ℕ
  pub terminal_id : ℕ
  pub staff_id : Option ℕ
  pub owner_user_id : Option ℕ
  pub amount : ℕ
  pub installment_months : ℕ
  pub card_brand : Option Text
  pub approval_code : Option Text
  pub staff_code_input : Option Text
  pub approved_at : ℤ
  pub status : TransactionStatus
  pub cancelled_at : Option ℤ
  pub cancel_reason : Option Text
  pub created_at : ℤ

pub record Merchant : Type 0 where
  pub id : ℕ
  pub owner_user_id : Option ℕ
  pub is_active : Bool

pub record Staff : Type 0 where
  pub id : ℕ
  pub merchant_id : ℕ
  pub staff_code : Text
  pub is_active : Bool

-- The tables that a payment is checked against
pub record Shops : Type 0 where
  pub merchants : List Merchant
  pub staff : List Staff

-- A time on the clock, with the seconds by which its zone is ahead of UTC, if it says so
pub record Stamp : Type 0 where
  pub seconds : ℤ
  pub ahead : Option ℤ

-- `TerminalTransactionCreate`
pub record Payment : Type 0 where
  pub merchant_id : ℕ
  pub amount : ℕ
  pub installment_months : ℕ
  pub staff_code : Option Text
  pub card_brand : Option Text
  pub approval_code : Option Text
  pub approved_at : Option Stamp

pub data IngestError : Type 0 where
  invalid_key no_merchant inactive_merchant other_merchant : IngestError

pub data Note : Type 0 where
  invalid_staff_code no_staff_code : Note

pub data Answer : Type 0 where
  stored : Transaction → Option Note → Answer
  duplicate : Transaction → Answer

pub record Table : Type 0 where
  pub rows : List Transaction
  pub next_id : ℕ

-- `approved_at.astimezone(utc)` of a time with a zone
unfoldable pub to_utc : Stamp → ℤ
to_utc s = elim s.ahead [ none ↦ s.seconds | some ahead ↦ s.seconds -ℤ ahead ]

abbrev pub has_code : Text → Option Text → Bool
has_code code none = false
has_code code (some c) = text_eq c code

abbrev pub has_approval : ℕ → Text → Transaction → Bool
has_approval terminal code t = t.terminal_id == terminal && has_code code t.approval_code

unfoldable pub find_approval : ℕ → Text → List Transaction → Option Transaction
find_approval terminal code rows = first (where_ (has_approval terminal code) rows)

abbrev pub is_none : Option Text → Bool
is_none none = true
is_none (some s) = false

abbrev pub is_same_payment : ℕ → ℕ → ℤ → Transaction → Bool
is_same_payment terminal amount at t =
    t.terminal_id == terminal
    && (is_none t.approval_code
        && (t.amount == amount && (eqb_ℤ t.approved_at at && is_approved t.status)))

unfoldable pub find_same_payment : ℕ → ℕ → Option ℤ → List Transaction → Option Transaction
find_same_payment terminal amount none rows = none
find_same_payment terminal amount (some at) rows =
    first (where_ (is_same_payment terminal amount at) rows)

-- A payment that was received before: by the code of its approval, and without one by its time
unfoldable pub find_existing : ℕ → Payment → List Transaction → Option Transaction
unfolding find_approval find_same_payment to_utc
find_existing terminal q rows = elim (or_empty q.approval_code) [
  | [] ↦
      find_same_payment terminal q.amount
        (elim q.approved_at [ none ↦ none | some s ↦ some (to_utc s) ]) rows
  | (c ∷ code) ↦ find_approval terminal (c ∷ code) rows
]

unfoldable pub find_staff : Shops → ℕ → Text → Option Staff
find_staff s m code = first (
    where_ (λ (p : Staff). p.merchant_id == m && (text_eq p.staff_code code && p.is_active))
      s.staff)

unfoldable pub resolve_staff : Shops → ℕ → Option Text → Option ℕ × Option Note
unfolding find_staff
resolve_staff s m code = elim (or_empty code) [
  | [] ↦ (none, some no_staff_code)
  | (c ∷ cs) ↦ elim (find_staff s m (c ∷ cs)) [
    | some p ↦ (some p.id, none)
    | none ↦ (none, some invalid_staff_code)
  ]
]

unfoldable pub transaction_of : Shops → Terminal → Merchant → ℤ → Payment → ℕ → Transaction
unfolding resolve_staff to_utc
transaction_of s terminal m now q i = record {
  id = i;
  merchant_id = m.id;
  terminal_id = terminal.id;
  staff_id = (resolve_staff s m.id q.staff_code).0;
  owner_user_id = m.owner_user_id;
  amount = q.amount;
  installment_months = q.installment_months;
  card_brand = q.card_brand;
  approval_code = q.approval_code;
  staff_code_input = q.staff_code;
  approved_at = elim q.approved_at [ none ↦ now | some s ↦ to_utc s ];
  status = approved;
  cancelled_at = none;
  cancel_reason = none;
  created_at = now;
}

-- `UniqueConstraint("terminal_id", "approval_code")`; a missing code is never equal to another.
unfoldable pub violates : ℕ → Option Text → List Transaction → Option Transaction
unfolding find_approval
violates terminal none rows = none
violates terminal (some code) rows = find_approval terminal code rows

-- The row is added, or the constraint answers with the row that is there.
unfoldable pub commit : Table → Transaction → Option Note → Table × Answer
unfolding violates
commit t row remark = elim (violates row.terminal_id row.approval_code t.rows) [
  | some existing ↦ (t, duplicate existing)
  | none ↦ ((record t { rows = t.rows ++ (row ∷ []); next_id = suc t.next_id }), stored row remark)
]

abbrev pub found_merchant : Option Merchant → Result IngestError Merchant
found_merchant none = err no_merchant
found_merchant (some m) = ok m

-- A payment that was received before is answered by its row.
unfoldable pub store_or_answer :
    Table → Transaction → Option Note → Option Transaction → Table × Answer
unfolding commit
store_or_answer t row remark (some existing) = (t, duplicate existing)
store_or_answer t row remark none = commit t row remark

-- A payment from a terminal that has been found by its key
unfoldable pub ingest_from :
    Shops → Table → ℤ → Terminal → Payment → Result IngestError (Table × Answer)
unfolding find_existing transaction_of store_or_answer
ingest_from s t now terminal q = do
  m ← found_merchant (first (where_ (λ (m : Merchant). m.id == q.merchant_id) s.merchants))
  raise_if (not m.is_active) inactive_merchant
  raise_if (not (terminal.merchant_id == m.id)) other_merchant
  ok (
      store_or_answer t (transaction_of s terminal m now q t.next_id)
        (resolve_staff s m.id q.staff_code).1 (find_existing terminal.id q t.rows))

-- `POST /transactions`, with the key and the serial number that the terminal sends
module _ (fingerprint : Text → Text) (verify : Text → Text → Bool) where
  unfoldable pub ingest_transaction :
      Shops
      → List Terminal
      → Table
      → ℤ
      → Text
      → Option Text
      → Payment
      → List Terminal × Result IngestError (Table × Answer)
  unfolding find_terminal ingest_from
  ingest_transaction s terminals t now key serial q =
      let found = find_terminal fingerprint verify terminals key serial in
      (
        found.0,
        elim found.1 [ none ↦ err invalid_key | some terminal ↦ ingest_from s t now terminal q ],
      )
