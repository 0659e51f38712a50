-- ===== src/Dispatch/Affordable.antt =====
-- What the check against the balance promises (`_apply_balance_gate` of app/services/ad_dispatch.py).
use beautypos.Prelude.{
  ℕ, ◌+◌, ◌*◌, ◌≡◌, refl, sym, ap, subst, ◌⊎◌, inl, inr, true, false, Bool-cases, List, [], ◌∷◌,
  map, Option, none, some,
}
use beautypos.Prelude.Int.{ℤ, pos, ◌≤ℤ◌, ltb_ℤ, ltb_ℤ→le, ltb_ℤ→lt}
use beautypos.Text.{Text}
use beautypos.Dispatch.Preview.{Item}
use beautypos.Dispatch.Gate.{
  Budget, BalanceInfo, Basis, hold_back, is_dispatch, to_dispatch, required, decide, known_balance,
  with_balance, apply_balance_gate, read_info, mission_key, add_cost, times, point_cost,
  supply_total, sale_total, required_of,
}

none_left :
    (needed : ℕ) (balance : ℤ) (items : List Item)
    → to_dispatch (map (hold_back needed balance) items) ≡ []
unfolding to_dispatch
none_left needed balance [] = refl
none_left needed balance (i ∷ items) = elim (Bool-cases (is_dispatch i.verdict)) [
  | inl e ↦ rw e (none_left needed balance items)
  | inr e ↦ rw (e, e) (none_left needed balance items)
]

-- The orders cost `n` together at the supply prices.
abbrev pub Costs : (Text → Option ℕ) → List Item → ℕ → Type 0
Costs price [] n = n ≡ 0
Costs price (i ∷ items) n =
    (unit : ℕ) × (rest : ℕ) × (price (mission_key i.mission) ≡ some unit)
    × Costs price items rest
    × (n ≡ unit * i.target + rest)

-- An order has no supply price.
abbrev pub Unpriced : (Text → Option ℕ) → List Item → Type 0
Unpriced price [] = ⊥
Unpriced price (i ∷ items) = (price (mission_key i.mission) ≡ none) ⊎ Unpriced price items

-- The sum of the estimates at the sale prices
abbrev pub estimates : List Item → ℕ
estimates [] = 0
estimates (i ∷ items) = i.est_cost + estimates items

-- The points that the orders need together: at the supply prices if all of them have one, and by the
-- estimates otherwise
abbrev pub Needs : Option (Text → Option ℕ) → List Item → ℕ → Type 0
Needs none [] n = n ≡ 0
Needs none (i ∷ items) n = n ≡ estimates (i ∷ items)
Needs (some price) items n = Costs price items n ⊎ (Unpriced price items × (n ≡ estimates items))

sale_total-estimates : (items : List Item) → sale_total items ≡ estimates items
sale_total-estimates [] = refl
sale_total-estimates (i ∷ items) = ap (λ n. i.est_cost + n) (sale_total-estimates items)

-- What a sum of costs says of the orders
abbrev IsTotal : (Text → Option ℕ) → List Item → Option ℕ → Type 0
IsTotal price items none = Unpriced price items
IsTotal price items (some n) = Costs price items n

add-IsTotal :
    (price : Text → Option ℕ) (i : Item) (items : List Item) (unit rest : Option ℕ)
    → price (mission_key i.mission) ≡ unit
    → IsTotal price items rest
    → IsTotal price (i ∷ items) (add_cost (times unit i.target) rest)
add-IsTotal price i items none rest e t = inl e
add-IsTotal price i items (some u) none e t = inr t
add-IsTotal price i items (some u) (some n) e t = (u, n, e, t, refl)

supply_total-IsTotal :
    (price : Text → Option ℕ) (items : List Item)
    → IsTotal price items (supply_total (some price) items)
unfolding supply_total point_cost
supply_total-IsTotal price [] = refl
supply_total-IsTotal price (i ∷ items) =
    add-IsTotal price i items (price (mission_key i.mission)) (supply_total (some price) items) refl
      (supply_total-IsTotal price items)

required_of-Needs :
    (price : Text → Option ℕ) (items : List Item) (o : Option ℕ)
    → IsTotal price items o
    → Needs (some price) items (required_of o items).0
unfolding required_of
required_of-Needs price items none t = inr (t, sale_total-estimates items)
required_of-Needs price items (some n) t = inl t

required-Needs :
    (prices : Option (Text → Option ℕ)) (items : List Item)
    → Needs prices items (required prices items).0
unfolding required supply_total point_cost required_of
required-Needs none [] = refl
required-Needs none (i ∷ items) = sale_total-estimates (i ∷ items)
required-Needs (some price) items =
    required_of-Needs price items (supply_total (some price) items)
      (supply_total-IsTotal price items)

-- The plan goes out as it is if the balance covers what it needs, and nothing goes out otherwise.
abbrev Held : ℕ → ℤ → List Item → List Item → Type 0
Held n balance items gated =
    ((pos n ≤ℤ balance) × (gated ≡ items)) ⊎ (¬ (pos n ≤ℤ balance) × (to_dispatch gated ≡ []))

-- That, with the points that the orders of the plan need together
abbrev pub IsCovered : Budget → ℤ → List Item → List Item → Type 0
IsCovered b balance items gated =
    (n : ℕ) × (Needs b.by_mission (to_dispatch items) n × Held n balance items gated)

decide-Held :
    (items : List Item) (balance : ℤ) (need : ℕ × Basis) (info : BalanceInfo)
    → Held need.0 balance items (decide true items balance need info).0
unfolding decide
decide-Held items balance (needed, basis) info = elim (Bool-cases (ltb_ℤ balance (pos needed))) [
  | inl e ↦ rw e (inr (ltb_ℤ→lt balance (pos needed) e, none_left needed balance items))
  | inr e ↦ rw e (inl (ltb_ℤ→le balance (pos needed) e, refl))
]

known_balance-Held :
    (b : Budget) (items : List Item) (balance : ℤ) (info : BalanceInfo) (targets : List Item)
    → b.enforce ≡ true
    → to_dispatch items ≡ targets
    → Held
        (required b.by_mission targets).0
        balance
        items
        (known_balance b items balance info targets).0
unfolding known_balance required supply_total required_of
known_balance-Held b items balance info [] t e = elim (Bool-cases (ltb_ℤ balance (pos 0))) [
  | inl f ↦ inr (ltb_ℤ→lt balance (pos 0) f, e)
  | inr f ↦ inl (ltb_ℤ→le balance (pos 0) f, refl)
]
known_balance-Held b items balance info (i ∷ is) t e =
    rw t (decide-Held items balance (required b.by_mission (i ∷ is)) info)

-- With a known balance that is enforced the check leaves the plan as it is if the balance covers the
-- points that all its orders need together, and nothing to send at all otherwise. The orders need their
-- supply prices times their targets if each has a supply price, and the sum of their estimates if not.
pub gate-IsCovered :
    (b : Budget) (items : List Item) (balance : ℤ)
    → b.enforce ≡ true
    → b.balance ≡ some balance
    → IsCovered b balance items (apply_balance_gate items (some b)).0
unfolding apply_balance_gate with_balance
gate-IsCovered b items balance t known = (
  (required b.by_mission (to_dispatch items)).0,
  (
    required-Needs b.by_mission (to_dispatch items),
    subst
        (λ o.
          Held (required b.by_mission (to_dispatch items)).0 balance items
            (with_balance b items o).0)
        (sym known) (known_balance-Held b items balance (read_info b) (to_dispatch items) t refl),
  ),
)

decide-unforced :
    (items : List Item) (balance : ℤ) (need : ℕ × Basis) (info : BalanceInfo)
    → (decide false items balance need info).0 ≡ items
unfolding decide
decide-unforced items balance (needed, basis) info =
    elim (Bool-cases (ltb_ℤ balance (pos needed))) [ inl e ↦ rw e refl | inr e ↦ rw e refl ]

known_balance-unforced :
    (b : Budget) (items : List Item) (balance : ℤ) (info : BalanceInfo) (targets : List Item)
    → b.enforce ≡ false
    → (known_balance b items balance info targets).0 ≡ items
unfolding known_balance
known_balance-unforced b items balance info [] t = refl
known_balance-unforced b items balance info (i ∷ is) t =
    rw t (decide-unforced items balance (required b.by_mission (i ∷ is)) info)

-- A balance that could not be read, or that is not enforced, holds nothing back.
pub gate-unforced :
    (b : Budget) (items : List Item)
    → (b.balance ≡ none) ⊎ (b.enforce ≡ false)
    → (apply_balance_gate items (some b)).0 ≡ items
unfolding apply_balance_gate with_balance
gate-unforced b items (inl e) = subst (λ o. (with_balance b items o).0 ≡ items) (sym e) refl
gate-unforced b items (inr t) = either b.balance
  where
    either : (o : Option ℤ) → (with_balance b items o).0 ≡ items
    either none = refl
    either (some balance) =
        known_balance-unforced b items balance (read_info b) (to_dispatch items) t
