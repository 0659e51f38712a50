-- ===== src/Dispatch/Split.antt =====
-- How a day's visits are split over the actions (`build_plan` of app/services/ad_dispatch.py).
use beautypos.Prelude.{
  ℕ, ◌+◌, ◌*◌, ◌/◌, ◌%◌, ◌<◌, ◌≡◌, refl, ap, ◌∙◌, inl, inr, Bool-cases, ◌==◌, List, [], ◌∷◌, map,
  length, sum, All, arith,
}
use beautypos.Text.{Text}
use beautypos.Calendar.{Date}
use beautypos.Dispatch.Config.{Setting, visit_actions}
use beautypos.Dispatch.Preview.{Item, split_entries, split_visit}

abbrev pub targets : List Item → ℕ
targets items = sum (map (λ (i : Item). i.target) items)

abbrev pub costs : List Item → ℕ
costs items = sum (map (λ (i : Item). i.est_cost) items)

-- An entry asks for something, at the price of the entry that was split.
abbrev pub IsPart : Item → Item → Type 0
IsPart e i = (0 < i.target) × (i.est_cost ≡ e.unit_price * i.target)

sum-split_entries :
    (e : Item) (base : ℕ) (actions : List Text)
    → targets (split_entries e base 0 actions) ≡ base * length actions
unfolding split_entries
sum-split_entries e base [] = grind arith
sum-split_entries e base (a ∷ as_) = ground (arith, sum-split_entries e base as_)

IsPart-split_entries :
    (e : Item) (base extra : ℕ) (actions : List Text)
    → All (IsPart e) (split_entries e base extra actions)
unfolding split_entries
IsPart-split_entries e base extra [] = tt
IsPart-split_entries e base extra (a ∷ as_) = elim (Bool-cases (base + extra == 0)) [
  | inl t ↦ rw t (IsPart-split_entries e base 0 as_)
  | inr t ↦ rw t ((ground (arith, t), refl), IsPart-split_entries e base 0 as_)
]

costs-parts :
    (e : Item) (items : List Item)
    → All (IsPart e) items
    → costs items ≡ e.unit_price * targets items
costs-parts e [] h = grind arith
costs-parts e (i ∷ items) h = grind (arith, costs-parts e items h.1, h.0.1)

sum-split_first :
    (e : Item) (base extra : ℕ) (actions : List Text)
    → 0 < length actions
    → targets (split_entries e base extra actions) ≡ base * length actions + extra
unfolding split_entries
sum-split_first e base extra [] h = absurd (omega arith)
sum-split_first e base extra (a ∷ as_) h = ground (arith, sum-split_entries e base as_)

div_mod : (n k : ℕ) → 0 < k → n / k * k + n % k ≡ n
div_mod n k h = grind arith

-- The orders that a day's visits are split into ask for the day's target together, each of them for
-- one visit or more, and cost together what the whole target costs at the entry's unit price, if the
-- shuffle keeps the number of the actions.
pub split_visit-Whole :
    (s : Setting) (day : Date) (e : Item)
    → ((d : Date) (xs : List Text) → length (s.shuffle d xs) ≡ length xs)
    → (targets (split_visit s day e) ≡ e.target)
      × ((costs (split_visit s day e) ≡ e.unit_price * e.target)
          × All (IsPart e) (split_visit s day e))
unfolding split_visit
split_visit-Whole s day e keeps =
    let actions = s.shuffle day visit_actions in
    let eight : length actions ≡ 8 = keeps day visit_actions in
    let n = length actions in
    let parts = IsPart-split_entries e (e.target / n) (e.target % n) actions in
    let whole : targets (split_entries e (e.target / n) (e.target % n) actions) ≡ e.target =
      sum-split_first e (e.target / n) (e.target % n) actions (omega (arith, eight))
      ∙ div_mod e.target n (omega (arith, eight)) in
    (
      whole,
      (
        costs-parts e (split_entries e (e.target / n) (e.target % n) actions) parts
            ∙ ap (λ t. e.unit_price * t) whole,
        parts,
      ),
    )
