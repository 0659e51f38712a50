-- ===== src/Orders/Undone.antt =====
-- A change of the credit and what undoes it (`_sync_order_credit` of app/api/admin/_helpers.py).
use beautypos.Prelude.{
  ℕ, ◌≡◌, sym, ap, ◌∙◌, subst, inl, inr, Bool-cases, ◌==◌, ==_refl, ==_iff, Option, some, Result,
  Result-cases, ok,
}
use beautypos.Prelude.Int.{ℤ, pos, ◌+ℤ◌, ◌≤ℤ◌, negate, int_laws, +ℤ_cancel_negate}
use beautypos.Credit.State.{Db, Entry, Memo, EntryType, balance_of, use_entry, reverse_entry}
use beautypos.Credit.Operations.{Error, use_credit, reverse_use}
use beautypos.Credit.Balance.{IsConsistent, Applied, Applied-IsConsistent, Outcome}
use beautypos.Credit.Outcomes.{Uses, use_credit-Uses, reverse_use-Outcome}
use beautypos.Orders.Status.{order_sum, kept_db}
use beautypos.Orders.Sums.{Adds, use_credit-Adds, reverse_use-Adds}

-- The balances and the totals of the orders are those of before.
pub record Restored (db db' : Db) : Type 0 where
  pub consistent : IsConsistent db'
  pub sums : (i : ℕ) → order_sum i db'.ledger ≡ order_sum i db.ledger
  pub balances : (j : ℕ) → balance_of db' j ≡ balance_of db j

cancels : (a b : ℤ) → negate a +ℤ (a +ℤ b) ≡ b
cancels a b = omega int_laws

cancels_back : (a b : ℤ) → a +ℤ (negate a +ℤ b) ≡ b
cancels_back a b = omega int_laws

-- Two changes of one order and one merchant whose amounts cancel
both-Restored :
    (db : Db) (m i : ℕ) (a b : ℤ) (r s : Db × Entry) (t u : EntryType)
    → ((c : ℤ) → b +ℤ (a +ℤ c) ≡ c)
    → ((c : ℤ) → (c +ℤ a) +ℤ b ≡ c)
    → IsConsistent db
    → Applied db m t a r
    → Applied r.0 m u b s
    → Adds db (some i) a (ok r)
    → Adds r.0 (some i) b (ok s)
    → Restored db s.0
both-Restored db m i a b r s t u zero swapped h ar as_ dr ds = record {
  consistent = Applied-IsConsistent r.0 m u b s as_ (Applied-IsConsistent db m t a r ar h);
  sums = λ j. elim (Bool-cases (i == j)) [
    | inl x ↦ (rw x at (ds j)) ∙ ap (λ c. b +ℤ c) (rw x at (dr j)) ∙ zero (order_sum j db.ledger)
    | inr x ↦ (rw x at (ds j)) ∙ (rw x at (dr j))
  ];
  balances = λ j. elim (Bool-cases (m == j)) [
    | inl x ↦
        (rw x at (as_.balances j))
        ∙ ap (λ c. c +ℤ b) (rw (==_refl m) at (ar.balances m))
        ∙ swapped (balance_of db m)
        ∙ ap (balance_of db) ((==_iff m j).0 x)
    | inr x ↦ (rw x at (as_.balances j)) ∙ (rw x at (ar.balances j))
  ];
}

cancels_right : (a c : ℤ) → (c +ℤ a) +ℤ negate a ≡ c
cancels_right a c = omega int_laws

-- An amount that is given back can be used again, since the balance was not below 0.
pub use_again-Restored :
    (db : Db) (m i : ℕ) (amount : ℤ) (memo : Option Memo) (actor : Option ℕ) (r : Db × Entry)
    → IsConsistent db
    → reverse_use db m amount (some i) memo actor ≡ ok r
    → Restored db (kept_db r.0 (use_credit r.0 m amount (some i) memo actor))
use_again-Restored db m i amount memo actor r h e =
    elim (Result-cases (use_credit r.0 m amount (some i) memo actor)) [
      | inl (s, f) ↦ rw f (
          both-Restored db m i amount (negate amount) r s _ _ (cancels amount)
            (cancels_right amount) h back.1
            (subst (Uses r.0 m amount) f (use_credit-Uses r.0 m amount (some i) memo actor)).2
            (subst (Adds db (some i) amount) e (reverse_use-Adds db m amount (some i) memo actor))
            (subst (Adds r.0 (some i) (negate amount)) f
              (use_credit-Adds r.0 m amount (some i) memo actor)))
      | inr (g, f) ↦ absurd (
          (subst (Uses r.0 m amount) f (use_credit-Uses r.0 m amount (some i) memo actor)).0
            (back.0, covered))
    ]
  where
    back : Outcome db m reverse_entry amount (pos 1 ≤ℤ amount) (ok r)
    back =
        subst (Outcome db m reverse_entry amount (pos 1 ≤ℤ amount)) e
          (reverse_use-Outcome db m amount (some i) memo actor h)

    covered : amount ≤ℤ balance_of r.0 m
    covered =
        subst (λ b. amount ≤ℤ b) (sym (rw (==_refl m) at (back.1.balances m)))
          (omega (int_laws, (h m).1))

-- An amount that is used can be given back.
pub give_back-Restored :
    (db : Db) (m i : ℕ) (amount : ℤ) (memo : Option Memo) (actor : Option ℕ) (r : Db × Entry)
    → IsConsistent db
    → use_credit db m amount (some i) memo actor ≡ ok r
    → Restored db (kept_db r.0 (reverse_use r.0 m amount (some i) memo actor))
give_back-Restored db m i amount memo actor r h e =
    elim (Result-cases (reverse_use r.0 m amount (some i) memo actor)) [
      | inl (s, f) ↦ rw f (
          both-Restored db m i (negate amount) amount r s _ _ (cancels_back amount)
            (λ b. +ℤ_cancel_negate b amount) h used.2
            (subst Back f (reverse_use-Outcome r.0 m amount (some i) memo actor after)).1
            (subst (Adds db (some i) (negate amount)) e
              (use_credit-Adds db m amount (some i) memo actor))
            (subst (Adds r.0 (some i) amount) f
              (reverse_use-Adds r.0 m amount (some i) memo actor)))
      | inr (g, f) ↦
          absurd
            ((subst Back f (reverse_use-Outcome r.0 m amount (some i) memo actor after)) used.0)
    ]
  where
    used : Uses db m amount (ok r)
    used = subst (Uses db m amount) e (use_credit-Uses db m amount (some i) memo actor)

    after : IsConsistent r.0
    after = Applied-IsConsistent db m use_entry (negate amount) r used.2 h

    Back : Result Error (Db × Entry) → Type 0
    Back = Outcome r.0 m reverse_entry amount (pos 1 ≤ℤ amount)
