-- ===== src/Terminal/Examples.antt =====
-- A payment that is received, cancelled and sent again, and payments with an empty code.
use beautypos.Prelude.{ℕ, ◌≡◌, refl, true, [], ◌∷◌, Option, none, some, ok, ◌+◌}
use beautypos.Prelude.Int.{pos}
use beautypos.Text.{codes, text_eq}
use beautypos.Terminal.Auth.{Terminal}
use beautypos.Terminal.Ingest.{
  Shops, Merchant, Payment, Transaction, Table, stored, duplicate, no_staff_code, ingest_from,
  find_existing, find_same_payment, transaction_of, resolve_staff, store_or_answer, commit,
  violates, find_approval,
}
use beautypos.Accounts.{admin}
use beautypos.Terminal.Cancel.{
  Settlement, Account, Claims, admin_actor, cancelled_row, cancel_transaction, find_transaction,
  auth_cancel_actor, token_actor, cancel_row, covers, write_row,
}
use beautypos.Terminal.Unsettled.{total, totals, every, cancel_transaction-Unsettled}
use beautypos.Terminal.Held.{receiving, cancelling, steps}
use beautypos.Terminal.Resent.{ingest_from-resent}

abbrev shop : Merchant
shop = record { id = 7; owner_user_id = some 3; is_active = true }

abbrev shops : Shops
shops = record { merchants = shop ∷ []; staff = [] }

abbrev device : Terminal
device = record {
  id = 4;
  merchant_id = 7;
  terminal_serial = codes "T-4";
  api_key_hash = codes "hash";
  api_key_fingerprint = none;
  is_active = true;
}

abbrev payment : Payment
payment = record {
  merchant_id = 7;
  amount = 55000;
  installment_months = 0;
  staff_code = none;
  card_brand = none;
  approval_code = some (codes "30012");
  approved_at = none;
}

abbrev no_rows : Table
no_rows = record { rows = []; next_id = 1 }

abbrev first_row : Transaction
first_row = transaction_of shops device shop (pos 100) payment 1

abbrev after_first : Table
after_first = record { rows = first_row ∷ []; next_id = 2 }

stored_first :
    ingest_from shops no_rows (pos 100) device payment
    ≡ ok (after_first, stored first_row (some no_staff_code))
unfolding ingest_from find_existing find_approval transaction_of resolve_staff store_or_answer
    commit violates
stored_first = refl

ingest_from-resent_example :
    (x : Transaction) × ((ingest_from shops
          (steps after_first (
            cancelling [] (pos 200) 1 none
            ∷ (receiving shops
                  (pos 250)
                  device
                  (record payment { approval_code = some (codes "7") })
                ∷ [])))
          (pos 300)
          device
          payment
        ≡ ok (
          steps after_first (
              cancelling [] (pos 200) 1 none
              ∷ (receiving shops
                    (pos 250)
                    device
                    (record payment { approval_code = some (codes "7") })
                  ∷ [])),
          duplicate x,
        ))
      × (x.id ≡ first_row.id))
ingest_from-resent_example =
    ingest_from-resent shops device payment 51 (codes "0012") no_rows (pos 100) (pos 300)
      (cancelling [] (pos 200) 1 none
        ∷ (receiving shops (pos 250) device (record payment { approval_code = some (codes "7") })
            ∷ []))
      (after_first, stored first_row (some no_staff_code)) refl stored_first

-- A settlement of a time before the payment
abbrev earlier : Settlement
earlier = record { merchant_id = 7; period_start = pos 0; period_end = pos 90 }

abbrev boss : Account
boss = record { id = 1; role = admin; is_active = true }

abbrev session : Option (Option Claims)
session = some (some (record { is_access = true; sub = some 1 }))

abbrev after_cancelling : Table
after_cancelling = record {
  rows = cancelled_row (pos 200) (some (codes "wrong amount")) first_row ∷ [];
  next_id = 2;
}

cancelled_first :
    (cancel_transaction
      (λ k. k)
      (λ k h. true)
      shops
      (boss ∷ [])
      (earlier ∷ [])
      (device ∷ [])
      after_first
      (pos 200)
      1
      (some (codes "wrong amount"))
      none
      session).1
    ≡ ok (after_cancelling, admin_actor)
unfolding cancel_transaction find_transaction auth_cancel_actor token_actor cancel_row covers
    write_row transaction_of
cancelled_first = refl

cancel_transaction-Unsettled_example :
    (totals (earlier ∷ []) after_cancelling.rows ≡ totals (earlier ∷ []) after_first.rows)
    × ((t : Transaction) × ((find_transaction 1 after_first.rows ≡ some t)
          × (total every after_first.rows ≡ t.amount + total every after_cancelling.rows)))
cancel_transaction-Unsettled_example =
    cancel_transaction-Unsettled (λ k. k) (λ k h. true) shops (boss ∷ []) (earlier ∷ [])
      (device ∷ []) after_first after_cancelling (pos 200) 1 (some (codes "wrong amount")) none
      session admin_actor cancelled_first

-- An empty code is stored as it is, so the next payment without a code is taken for the first one.
abbrev without_code : ℕ → Payment
without_code n = record payment { amount = n; approval_code = some [] }

abbrev empty_code : Table
empty_code = record {
  rows = transaction_of shops device shop (pos 100) (without_code 55000) 1 ∷ [];
  next_id = 2;
}

lost_payment :
    ingest_from shops empty_code (pos 500) device (without_code 8000)
    ≡ ok (empty_code, duplicate (transaction_of shops device shop (pos 100) (without_code 55000) 1))
unfolding ingest_from find_existing find_approval find_same_payment transaction_of resolve_staff
    store_or_answer commit violates text_eq
lost_payment = refl
