-- ===== src/Credit/Balance.antt =====
-- What each operation on the credit does to the balances and the ledger.
use beautypos.Prelude.{
  ℕ, ◌≡◌, refl, sym, ap, inl, inr, Bool-cases, ◌==◌, if◌then◌else◌, List, ◌∷◌, Option, none, some,
  Option-cases, suc, length, ==_refl, ==_iff, subst, Result, ok, err, arith,
}
use beautypos.Prelude.Int.{ℤ, pos, ◌+ℤ◌, ◌≤ℤ◌, ltb_ℤ, +ℤ_comm, ltb_ℤ→lt, ltb_ℤ→le}
use beautypos.Credit.State.{
  Db, Credit, Entry, EntryType, Memo, find_credit, write_credit, find-write, find-merchant,
  get_or_create, lock_credit, balance_of, sum_for, ledger_total,
}
use beautypos.Credit.Operations.{Error, apply}

-- The cached balance is the ledger's total, and it is never negative, for every merchant.
abbrev pub IsConsistent : Db → Type 0
IsConsistent db = (m : ℕ) → (balance_of db m ≡ ledger_total db m) × (pos 0 ≤ℤ balance_of db m)

-- The balance row that `c` is, and nothing else changed: `db'` may have a new row of nothing.
pub record Locked (db : Db) (m : ℕ) (db' : Db) (c : Credit) : Type 0 where
  pub balances : (j : ℕ) → balance_of db' j ≡ balance_of db j
  pub ledger : db'.ledger ≡ db.ledger
  pub refunds : db'.refunds ≡ db.refunds
  pub balance : c.balance ≡ balance_of db m
  pub merchant : c.merchant_id ≡ m

get_or_create-Locked : (db : Db) (m : ℕ) → Locked db m (get_or_create db m).0 (get_or_create db m).1
unfolding get_or_create balance_of
get_or_create-Locked db m = elim (Option-cases (find_credit m db.credits)) [
  | inl e ↦
      rw (e, get_or_create)
        (record {
          balances = λ j.
              grind (arith, find-write (record { merchant_id = m; balance = pos 0 }) j db.credits);
          ledger = refl;
          refunds = refl;
          balance = rw e refl;
          merchant = refl;
        })
  | inr (c, e) ↦
      rw (e, get_or_create)
        (record {
          balances = λ j. refl;
          ledger = refl;
          refunds = refl;
          balance = rw e refl;
          merchant = find-merchant m db.credits c e;
        })
]

-- With or without a row lock the same row is read.
lock_credit-eq-get_or_create : (db : Db) (m : ℕ) → lock_credit db m ≡ get_or_create db m
unfolding lock_credit
lock_credit-eq-get_or_create db m = ground arith

pub lock_credit-Locked : (db : Db) (m : ℕ) → Locked db m (lock_credit db m).0 (lock_credit db m).1
lock_credit-Locked db m = rw (lock_credit-eq-get_or_create db m) (get_or_create-Locked db m)

balance_of-write :
    (db : Db) (c : Credit) (es : List Entry) (j : ℕ)
    → balance_of (record db { credits = write_credit c db.credits; ledger = es }) j
      ≡ (if c.merchant_id == j then c.balance else balance_of db j)
unfolding balance_of
balance_of-write db c es j = grind (arith, find-write c j db.credits)

-- What `apply` has done, where it returns.
pub record Applied (db : Db) (m : ℕ) (entry_type : EntryType) (delta : ℤ) (r : Db × Entry)
    : Type 0 where
  pub balances :
      (j : ℕ) → balance_of r.0 j ≡ (if m == j then balance_of db m +ℤ delta else balance_of db j)
  pub ledger : (r.0).ledger ≡ r.1 ∷ db.ledger
  pub refunds : (r.0).refunds ≡ db.refunds
  pub merchant : (r.1).merchant_id ≡ m
  pub kind : (r.1).entry_type ≡ entry_type
  pub amount : (r.1).amount ≡ delta
  pub balance_after : (r.1).balance_after ≡ balance_of r.0 m
  pub covered : pos 0 ≤ℤ balance_of r.0 m

abbrev pub Applies : Db → ℕ → EntryType → ℤ → Result Error (Db × Entry) → Type 0
Applies db m entry_type delta (ok r) = Applied db m entry_type delta r
Applies db m entry_type delta (err e) = ¬ (pos 0 ≤ℤ balance_of db m +ℤ delta)

-- On a row that is locked.
pub apply-Locked-Applies :
    (db : Db) (m : ℕ) (entry_type : EntryType) (delta : ℤ) (memo : Option Memo)
    (actor order : Option ℕ) (db' : Db) (c : Credit)
    → Locked db m db' c
    → Applies db m entry_type delta (apply db' m entry_type delta memo actor order (some c))
unfolding apply
apply-Locked-Applies db m entry_type delta memo actor order db' c l =
    elim (Bool-cases (ltb_ℤ (c.balance +ℤ delta) (pos 0))) [
      | inl e ↦ rw e (ltb_ℤ→lt (balance_of db m +ℤ delta) (pos 0) (rw l.balance at e))
      | inr e ↦ rw e (record {
        balances = at_row;
        ledger = ap (λ es. entry ∷ es) l.ledger;
        refunds = l.refunds;
        merchant = refl;
        kind = refl;
        amount = refl;
        balance_after = sym own_row;
        covered = rw own_row (ltb_ℤ→le (c.balance +ℤ delta) (pos 0) e);
      })
    ]
  where
    entry : Entry
    entry = record {
      id = suc (length db'.ledger);
      merchant_id = m;
      entry_type = entry_type;
      amount = delta;
      balance_after = c.balance +ℤ delta;
      ad_order_id = order;
      memo = memo;
      created_by = actor;
    }

    db'' : Db
    db'' = record db' {
      credits = write_credit (record c { balance = c.balance +ℤ delta }) db'.credits;
      ledger = entry ∷ db'.ledger;
    }

    at_row :
        (j : ℕ) → balance_of db'' j ≡ (if m == j then balance_of db m +ℤ delta else balance_of db j)
    at_row j =
        rw
          (
            balance_of-write db' (record c { balance = c.balance +ℤ delta }) (entry ∷ db'.ledger) j,
            l.merchant,
            l.balance,
            l.balances j,
          )
          refl

    own_row : balance_of db'' m ≡ c.balance +ℤ delta
    own_row = rw (at_row m, ==_refl m, l.balance) refl

-- On a row that `apply` locks itself.
pub apply_fresh-Applies :
    (db : Db) (m : ℕ) (entry_type : EntryType) (delta : ℤ) (memo : Option Memo)
    (actor order : Option ℕ)
    → Applies db m entry_type delta (apply db m entry_type delta memo actor order none)
unfolding apply
apply_fresh-Applies db m entry_type delta memo actor order =
    let (db', c) = lock_credit db m in
    apply-Locked-Applies db m entry_type delta memo actor order db' c (lock_credit-Locked db m)

-- A balance and the ledger move together.
pub moved-IsConsistent :
    (db db' : Db) (m : ℕ) (delta : ℤ) (e : Entry)
    → ((j : ℕ) → balance_of db' j ≡ (if m == j then balance_of db m +ℤ delta else balance_of db j))
    → db'.ledger ≡ e ∷ db.ledger
    → e.merchant_id ≡ m
    → e.amount ≡ delta
    → pos 0 ≤ℤ balance_of db' m
    → IsConsistent db
    → IsConsistent db'
unfolding ledger_total sum_for
moved-IsConsistent db db' m delta e balances ledger merchant amount covered h j =
    elim (Bool-cases (m == j)) [
      | inl t ↦
          let same : m ≡ j = (==_iff m j).0 t in
          (
            rw (balances j, ledger, merchant, t, amount)
                (rw (← (h j).0, ← same) (+ℤ_comm (balance_of db m) delta)),
            subst (λ k. pos 0 ≤ℤ balance_of db' k) same covered,
          )
      | inr t ↦ (rw (balances j, ledger, merchant, t) (h j).0, rw (balances j, t) (h j).1)
    ]

pub Applied-IsConsistent :
    (db : Db) (m : ℕ) (t : EntryType) (delta : ℤ) (r : Db × Entry)
    → Applied db m t delta r
    → IsConsistent db
    → IsConsistent r.0
Applied-IsConsistent db m t delta r a =
    moved-IsConsistent db r.0 m delta r.1 a.balances a.ledger a.merchant a.amount a.covered

-- A call that moves the balance of `m` by `delta` under an entry of the given kind, or raises.
abbrev pub Outcome : Db → ℕ → EntryType → ℤ → Type 0 → Result Error (Db × Entry) → Type 0
Outcome db m t delta Allowed (ok r) = Allowed × Applied db m t delta r
Outcome db m t delta Allowed (err e) = ¬ Allowed
