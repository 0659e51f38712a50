-- ===== src/Credit/Outcomes.antt =====
-- When each operation on the credit succeeds, and what it has done then
-- (app/services/ad_credit.py).
use beautypos.Prelude.{
  ℕ, ◌/◌, ◌≡◌, ◌≢◌, refl, sym, ap, ◌∙◌, subst, inl, inr, false, Bool-cases, Option, none, some,
  Result, ok, err, arith, ==_refl, ==_iff, ◌==◌,
}
use beautypos.Prelude.Int.{
  ℤ, pos, pos_part, ◌+ℤ◌, ◌-ℤ◌, ◌≤ℤ◌, ltb_ℤ, leb_ℤ, eqb_ℤ, negate, int_laws, ltb_ℤ→lt, ltb_ℤ→le,
  leb_ℤ→le, leb_ℤ→lt, eqb_ℤ→eq, eqb_ℤ→ne, +ℤ_cancel_negate,
}
use mathlib.Core.Bool.{false≢true}
use beautypos.Text.{Text, strip, or_empty, is_empty}
use beautypos.Credit.State.{
  Db, Credit, Entry, EntryType, Memo, written, charge_entry, use_entry, reverse_entry, adjust_entry,
  lock_credit, balance_of,
}
use beautypos.Credit.Operations.{
  Error, max_charge_amount, charge, use_credit, reverse_use, adjust, short_of,
}
use beautypos.Credit.Balance.{
  IsConsistent, Locked, lock_credit-Locked, Applied, Applies, Outcome, apply-Locked-Applies,
  apply_fresh-Applies, Applied-IsConsistent,
}

-- An outcome, from what `apply` has done once the guards have passed.
Outcome-apply :
    (db : Db) (m : ℕ) (t : EntryType) (delta : ℤ) (Allowed : Type 0) (r : Result Error (Db × Entry))
    → Allowed
    → pos 0 ≤ℤ balance_of db m +ℤ delta
    → Applies db m t delta r
    → Outcome db m t delta Allowed r
Outcome-apply db m t delta Allowed (ok r) allowed covered a = (allowed, a)
Outcome-apply db m t delta Allowed (err e) allowed covered a = absurd (a covered)

-- A charge is accepted exactly if it is positive and at most 100,000,000 won.
pub charge-Outcome :
    (db : Db) (m : ℕ) (value : ℤ) (memo : Option Memo) (actor : Option ℕ)
    → IsConsistent db
    → Outcome db m charge_entry value
        ((pos 1 ≤ℤ value) × (value ≤ℤ max_charge_amount))
        (charge db m value memo actor)
unfolding charge
charge-Outcome db m value memo actor h = elim (Bool-cases (leb_ℤ value (pos 0))) [
  | inl e ↦ rw e (λ p. omega (arith, leb_ℤ→le value (pos 0) e))
  | inr e ↦ elim (Bool-cases (ltb_ℤ max_charge_amount value)) [
    | inl f ↦ rw (e, f) (λ p. ltb_ℤ→lt max_charge_amount value f p.1)
    | inr f ↦
        rw (e, f)
          (Outcome-apply db m charge_entry value _ _
            (omega (arith, leb_ℤ→lt value (pos 0) e), ltb_ℤ→le max_charge_amount value f)
            (omega (int_laws, (h m).1, leb_ℤ→lt value (pos 0) e))
            (apply_fresh-Applies db m charge_entry value memo actor none))
  ]
]

-- What `use` may do: it takes `value` off a balance that covers it; it raises otherwise, and names
-- the whole won that are missing if the amount is positive.
abbrev pub Uses : Db → ℕ → ℤ → Result Error (Db × Entry) → Type 0
Uses db m value (ok r) =
    (pos 1 ≤ℤ value) × (value ≤ℤ balance_of db m) × Applied db m use_entry (negate value) r
Uses db m value (err e) =
    ¬ ((pos 1 ≤ℤ value) × (value ≤ℤ balance_of db m))
    × (pos 1 ≤ℤ value → e ≡ short_of (pos_part (value -ℤ balance_of db m) / 100))

Uses-apply :
    (db : Db) (m : ℕ) (value : ℤ) (r : Result Error (Db × Entry))
    → pos 1 ≤ℤ value
    → value ≤ℤ balance_of db m
    → Applies db m use_entry (negate value) r
    → Uses db m value r
Uses-apply db m value (ok r) p q a = (p, q, a)
Uses-apply db m value (err e) p q a = absurd (a (omega int_laws))

-- `use` takes the amount off the balance exactly if it is positive and the balance covers it.
pub use_credit-Uses :
    (db : Db) (m : ℕ) (value : ℤ) (order : Option ℕ) (memo : Option Memo) (actor : Option ℕ)
    → Uses db m value (use_credit db m value order memo actor)
unfolding use_credit
use_credit-Uses db m value order memo actor = elim (Bool-cases (leb_ℤ value (pos 0))) [
  | inl e ↦ rw e (
    (λ p. omega (arith, leb_ℤ→le value (pos 0) e)),
    λ p. absurd (omega (arith, leb_ℤ→le value (pos 0) e)),
  )
  | inr e ↦ elim (Bool-cases (ltb_ℤ c.balance value)) [
    | inl f ↦
        rw (e, f)
          ((λ p. ltb_ℤ→lt (balance_of db m) value (rw l.balance at f) p.1), λ p. rw l.balance refl)
    | inr f ↦
        rw (e, f)
          (Uses-apply db m value _ (omega (arith, leb_ℤ→lt value (pos 0) e))
            (ltb_ℤ→le (balance_of db m) value (rw l.balance at f))
            (apply-Locked-Applies db m use_entry (negate value) memo actor order db' c l))
  ]
]
  where
    db' : Db
    db' = (lock_credit db m).0

    c : Credit
    c = (lock_credit db m).1

    l : Locked db m db' c
    l = lock_credit-Locked db m

-- A use is reversed in full exactly if the amount is positive.
pub reverse_use-Outcome :
    (db : Db) (m : ℕ) (value : ℤ) (order : Option ℕ) (memo : Option Memo) (actor : Option ℕ)
    → IsConsistent db
    → Outcome db m reverse_entry value (pos 1 ≤ℤ value) (reverse_use db m value order memo actor)
unfolding reverse_use
reverse_use-Outcome db m value order memo actor h = elim (Bool-cases (leb_ℤ value (pos 0))) [
  | inl e ↦ rw e (λ p. omega (arith, leb_ℤ→le value (pos 0) e))
  | inr e ↦ rw e (
      Outcome-apply db m reverse_entry value _ _ (omega (arith, leb_ℤ→lt value (pos 0) e))
        (omega (int_laws, (h m).1, leb_ℤ→lt value (pos 0) e))
        (apply_fresh-Applies db m reverse_entry value memo actor order))
]

-- When the administrator may adjust: a reason is given, the amount is not nothing, and the balance
-- does not fall below zero.
pub record MayAdjust (db : Db) (m : ℕ) (delta : ℤ) (memo : Option Text) : Type 0 where
  pub reason : is_empty (strip (or_empty memo)) ≡ false
  pub some_delta : delta ≢ pos 0
  pub covered : pos 0 ≤ℤ balance_of db m +ℤ delta

covered_after :
    (db : Db) (m : ℕ) (delta : ℤ) (r : Db × Entry)
    → Applied db m adjust_entry delta r
    → pos 0 ≤ℤ balance_of db m +ℤ delta
covered_after db m delta r a = subst (λ b. pos 0 ≤ℤ b) (rw (a.balances m, ==_refl m) refl) a.covered

adjust_of_apply :
    (db : Db) (m : ℕ) (delta : ℤ) (memo : Option Text) (r : Result Error (Db × Entry))
    → is_empty (strip (or_empty memo)) ≡ false
    → delta ≢ pos 0
    → Applies db m adjust_entry delta r
    → Outcome db m adjust_entry delta (MayAdjust db m delta memo) r
adjust_of_apply db m delta memo (ok r) reason some_delta a =
    (record { reason = reason; some_delta = some_delta; covered = covered_after db m delta r a }, a)
adjust_of_apply db m delta memo (err e) reason some_delta a = λ p. a p.covered

-- An adjustment is made exactly where it is allowed.
pub adjust-Outcome :
    (db : Db) (m : ℕ) (delta : ℤ) (memo : Option Text) (actor : Option ℕ)
    → Outcome db m adjust_entry delta (MayAdjust db m delta memo) (adjust db m delta memo actor)
unfolding adjust
adjust-Outcome db m delta memo actor = elim (Bool-cases (is_empty (strip (or_empty memo)))) [
  | inl e ↦ rw e (λ p. false≢true (sym p.reason ∙ e))
  | inr e ↦ elim (Bool-cases (eqb_ℤ delta (pos 0))) [
    | inl f ↦ rw (e, f) (λ p. p.some_delta (eqb_ℤ→eq delta (pos 0) f))
    | inr f ↦
        rw (e, f)
          (adjust_of_apply db m delta memo _ e (eqb_ℤ→ne delta (pos 0) f) (
            apply_fresh-Applies db m adjust_entry delta (some (written (strip (or_empty memo))))
              actor none))
  ]
]

-- What a use has taken, a reversal of the same amount gives back: it succeeds, and every balance is
-- what it was before the use.
pub reverse_use-use_credit :
    (db : Db) (m : ℕ) (value : ℤ) (order order' : Option ℕ) (memo memo' : Option Memo)
    (actor actor' : Option ℕ) (r : Db × Entry)
    → IsConsistent db
    → use_credit db m value order memo actor ≡ ok r
    → (s : Db × Entry) × (reverse_use r.0 m value order' memo' actor' ≡ ok s)
      × ((j : ℕ) → balance_of s.0 j ≡ balance_of db j)
reverse_use-use_credit db m value order order' memo memo' actor actor' r h e =
    finish (reverse_use r.0 m value order' memo' actor') refl (
      reverse_use-Outcome r.0 m value order' memo' actor'
        (Applied-IsConsistent db m use_entry (negate value) r used.2 h))
  where
    used : Uses db m value (ok r)
    used = subst (Uses db m value) e (use_credit-Uses db m value order memo actor)

    finish :
        (x : Result Error (Db × Entry))
        → reverse_use r.0 m value order' memo' actor' ≡ x
        → Outcome r.0 m reverse_entry value (pos 1 ≤ℤ value) x
        → (s : Db × Entry) × (reverse_use r.0 m value order' memo' actor' ≡ ok s)
          × ((j : ℕ) → balance_of s.0 j ≡ balance_of db j)
    finish (err f) q o = absurd (o used.0)
    finish (ok s) q o = (s, q, back)
      where
        back : (j : ℕ) → balance_of s.0 j ≡ balance_of db j
        back j = elim (Bool-cases (m == j)) [
          | inl t ↦
              rw (o.1.balances j, t, used.2.balances m, ==_refl m)
                (+ℤ_cancel_negate (balance_of db m) value ∙ ap (balance_of db) ((==_iff m j).0 t))
          | inr t ↦ rw (o.1.balances j, t, used.2.balances j, t) refl
        ]
