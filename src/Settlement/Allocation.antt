-- ===== src/Settlement/Allocation.antt =====
-- Splitting an integer total by weights (app/services/settlement_service.py).
use beautypos.Prelude.{
  ◌≡◌, refl, sym, ◌∙◌, Bool-cases, inl, inr, if◌then◌else◌, List, [], ◌∷◌, length, arith,
}
use beautypos.Prelude.Int.{ℤ, pos, ◌+ℤ◌, ◌-ℤ◌, +ℤ_zero_left, +ℤ_assoc, int_laws}
use beautypos.Settlement.Floats.{Floats}

abbrev pub sum_ℤ : List ℤ → ℤ
sum_ℤ [] = pos 0
sum_ℤ (x ∷ xs) = x +ℤ sum_ℤ xs

module _ (fl : Floats) where
  open fl use {Float, of_int, sum, mul, div, le, round}

  -- `out = [0] * n; out[-1] = total`
  unfoldable pub all_to_last : ℤ → List Float → List ℤ
  all_to_last total [] = []
  all_to_last total (w ∷ []) = total ∷ []
  all_to_last total (w ∷ v ∷ ws) = pos 0 ∷ all_to_last total (v ∷ ws)

  -- The loop over `weights[:-1]`; the last weight takes what is left of `total`.
  unfoldable pub shares : ℤ → Float → ℤ → List Float → List ℤ
  shares total weight_sum running [] = []
  shares total weight_sum running (w ∷ []) = (total -ℤ running) ∷ []
  shares total weight_sum running (w ∷ v ∷ ws) =
      let share = round (mul (of_int total) (div w weight_sum)) in
      share ∷ shares total weight_sum (running +ℤ share) (v ∷ ws)

  unfoldable pub allocate_with_remainder : ℤ → List Float → List ℤ
  allocate_with_remainder total weights =
      let weight_sum = sum weights in
      if le weight_sum (of_int (pos 0))
      then all_to_last total weights
      else shares total weight_sum (pos 0) weights

  sum-all_to_last :
      (total : ℤ) (w : Float) (ws : List Float) → sum_ℤ (all_to_last total (w ∷ ws)) ≡ total
  unfolding all_to_last
  sum-all_to_last total w [] = omega int_laws
  sum-all_to_last total w (v ∷ ws) =
      +ℤ_zero_left (sum_ℤ (all_to_last total (v ∷ ws))) ∙ sum-all_to_last total v ws

  sum-shares :
      (total : ℤ) (weight_sum : Float) (running : ℤ) (w : Float) (ws : List Float)
      → running +ℤ sum_ℤ (shares total weight_sum running (w ∷ ws)) ≡ total
  unfolding shares
  sum-shares total weight_sum running w [] = omega int_laws
  sum-shares total weight_sum running w (v ∷ ws) =
      let share = round (mul (of_int total) (div w weight_sum)) in
      sym (+ℤ_assoc running share (sum_ℤ (shares total weight_sum (running +ℤ share) (v ∷ ws))))
      ∙ sum-shares total weight_sum (running +ℤ share) v ws

  length-all_to_last : (total : ℤ) (ws : List Float) → length (all_to_last total ws) ≡ length ws
  unfolding all_to_last
  length-all_to_last total [] = refl
  length-all_to_last total (w ∷ []) = refl
  length-all_to_last total (w ∷ v ∷ ws) = omega (arith, length-all_to_last total (v ∷ ws))

  length-shares :
      (total : ℤ) (weight_sum : Float) (running : ℤ) (ws : List Float)
      → length (shares total weight_sum running ws) ≡ length ws
  unfolding shares
  length-shares total weight_sum running [] = refl
  length-shares total weight_sum running (w ∷ []) = refl
  length-shares total weight_sum running (w ∷ v ∷ ws) = omega (
    arith,
    length-shares total weight_sum (running +ℤ round (mul (of_int total) (div w weight_sum)))
        (v ∷ ws),
  )

  -- The shares add up to the total exactly, whatever the floats round to.
  pub sum-allocate_with_remainder :
      (total : ℤ) (w : Float) (ws : List Float)
      → sum_ℤ (allocate_with_remainder total (w ∷ ws)) ≡ total
  unfolding allocate_with_remainder
  sum-allocate_with_remainder total w ws = elim (Bool-cases (le (sum (w ∷ ws)) (of_int (pos 0)))) [
    | inl e ↦ rw e (sum-all_to_last total w ws)
    | inr e ↦ rw e (
        sym (+ℤ_zero_left (sum_ℤ (shares total (sum (w ∷ ws)) (pos 0) (w ∷ ws))))
        ∙ sum-shares total (sum (w ∷ ws)) (pos 0) w ws)
  ]

  -- There is one share for each weight.
  pub length-allocate_with_remainder :
      (total : ℤ) (ws : List Float) → length (allocate_with_remainder total ws) ≡ length ws
  unfolding allocate_with_remainder
  length-allocate_with_remainder total ws = elim (Bool-cases (le (sum ws) (of_int (pos 0)))) [
    | inl e ↦ rw e (length-all_to_last total ws)
    | inr e ↦ rw e (length-shares total (sum ws) (pos 0) ws)
  ]
