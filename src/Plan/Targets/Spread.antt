-- ===== src/Plan/Targets/Spread.antt =====
-- The daily targets of a month add up to the monthly target and differ by one at most.
use beautypos.Prelude.{
  ℕ, zero, suc, ◌+◌, ◌-◌, ◌*◌, ◌/◌, ◌%◌, ◌≤◌, ◌<◌, max, ◌≡◌, refl, arith, ltb, ◌==◌, ap, ◌∙◌, ◌⊎◌,
  inl, inr, Bool-cases, true, false,
}
use native.Mathlib.Nat.{
  mod-lt, div-add-mod, div-add-mod', mul-add-div, div-lt_iff_lt-mul, zero-div, div-eq_of_lt,
  le-div_iff_mul-le,
}
use beautypos.Prelude.Int.{ℤ, pos_part}
use beautypos.Calendar.{Date, days_in_month}
use beautypos.Plan.Targets.{
  non_negative, daily_target_for_date, expected_target_through_date, round_div, Description,
  no_target, one_every, between, exactly, daily_target_description,
}

pub days_in_month_bounds : (y m : ℕ) → (28 ≤ days_in_month y m) × (days_in_month y m ≤ 31)
unfolding days_in_month
days_in_month_bounds y m = ground arith

pub div_mono : (a b n : ℕ) → a ≤ b → a / n ≤ b / n
div_mono a b n h = grind arith

-- The daily targets of the days 1 to `n` of a month, added up.
pub daily_sum : ℤ → ℕ → ℕ → ℕ → ℕ
daily_sum t y m zero = 0
daily_sum t y m (suc n) =
    daily_sum t y m n + daily_target_for_date t (record { year = y; month = m; day = suc n })

-- Day by day the daily targets add up to the target that is due by that day.
daily_sum-eq-expected :
    (t : ℤ) (y m n : ℕ)
    → daily_sum t y m n ≡ expected_target_through_date t (record { year = y; month = m; day = n })
unfolding daily_sum daily_target_for_date expected_target_through_date
daily_sum-eq-expected t y m zero = ground arith
daily_sum-eq-expected t y m (suc n) = ground (
  arith,
  daily_sum-eq-expected t y m n,
  div_mono (n * pos_part t) (suc n * pos_part t) (days_in_month y m),
)

pub full-div : (k n : ℕ) → 0 < n → n * k / n ≡ k
full-div k n h = grind arith

-- The daily targets of a whole month add up to the monthly target (to 0 if that is negative).
pub daily_sum-month : (t : ℤ) (y m : ℕ) → daily_sum t y m (days_in_month y m) ≡ non_negative t
unfolding expected_target_through_date
daily_sum-month t y m =
    daily_sum-eq-expected t y m (days_in_month y m)
    ∙ full-div (pos_part t) (days_in_month y m) (omega (arith, days_in_month_bounds y m))

div-split : (a k n : ℕ) → 0 < n → (a + k) / n ≡ a / n + k / n + (a % n + k % n) / n
div-split a k n h = ap (λ x. x / n) regroup ∙ mul-add-div h (a / n + k / n) (a % n + k % n)
  where
    regroup : a + k ≡ n * (a / n + k / n) + (a % n + k % n)
    regroup = omega (arith, div-add-mod a n, div-add-mod k n)

div-step : (a k n : ℕ) → 0 < n → (k / n ≤ (a + k) / n - a / n) × ((a + k) / n - a / n ≤ k / n + 1)
div-step a k n h =
    let carry : (a % n + k % n) / n < 2 =
      (div-lt_iff_lt-mul h).1 (omega (arith, mod-lt a h, mod-lt k h)) in
    (omega (arith, div-split a k n h), omega (arith, div-split a k n h))

div-step_exact : (a k n : ℕ) → 0 < n → k % n ≡ 0 → (a + k) / n - a / n ≡ k / n
div-step_exact a k n h e =
    let carry : (a % n + k % n) / n < 1 = (div-lt_iff_lt-mul h).1 (omega (arith, mod-lt a h)) in
    omega (arith, div-split a k n h)

round_div-cases :
    (a b : ℕ)
    → ((round_div a b ≡ a / b) × (a % b + a % b ≤ b))
      ⊎ ((round_div a b ≡ a / b + 1) × (b ≤ a % b + a % b))
unfolding round_div
round_div-cases a b = elim (Bool-cases (ltb (a % b + a % b) b)) [
  | inl e ↦ inl (rw e refl, ground (arith, e))
  | inr e ↦ elim (Bool-cases (ltb b (a % b + a % b))) [
    | inl f ↦ inr (rw (e, f) refl, ground (arith, f))
    | inr f ↦ elim (Bool-cases (a / b % 2 == 0)) [
      | inl g ↦ inl (rw (e, f, g) refl, ground (arith, f))
      | inr g ↦ inr (rw (e, f, g) refl, ground (arith, e))
    ]
  ]
]

round_div-nearest :
    (a b : ℕ)
    → 0 < b
    → (2 * a ≤ 2 * (round_div a b * b) + b) × (2 * (round_div a b * b) ≤ 2 * a + b)
round_div-nearest a b pos_b = elim (round_div-cases a b) [
  | inl (e, h) ↦ rw e (omega (arith, div-add-mod' a b, mod-lt a pos_b))
  | inr (e, h) ↦ rw e (omega (arith, div-add-mod' a b, mod-lt a pos_b))
]

-- What a description says of the target `n` of a day, at the monthly target `m` over `days` days:
-- the number of days between two units is the nearest one to `days / m`.
abbrev pub Describes : Description → ℕ → ℕ → ℕ → Type 0
Describes no_target m days n = n ≡ 0
Describes (one_every k) m days n =
    (n ≤ 1) × (1 ≤ k) × (2 * days ≤ 2 * (k * m) + m) × (2 * (k * m) ≤ 2 * days + m)
Describes (between low high) m days n = (low ≤ n) × (n ≤ high) × (high ≡ low + 1)
Describes (exactly low) m days n = n ≡ low

daily-step :
    (t : ℤ) (y m d : ℕ)
    → let n = days_in_month y m in
      let x = daily_target_for_date t (record { year = y; month = m; day = suc d }) in
      (pos_part t / n ≤ x) × (x ≤ pos_part t / n + 1)
unfolding daily_target_for_date
daily-step t y m d =
    let n = days_in_month y m in
    let shift : suc d * pos_part t ≡ d * pos_part t + pos_part t = omega arith in
    let pred_suc : suc d - 1 ≡ d = omega arith in
    rw (pred_suc, shift)
      (div-step (d * pos_part t) (pos_part t) n (omega (arith, days_in_month_bounds y m)))

daily-step_exact :
    (t : ℤ) (y m d : ℕ)
    → pos_part t % days_in_month y m ≡ 0
    → daily_target_for_date t (record { year = y; month = m; day = suc d })
      ≡ pos_part t / days_in_month y m
unfolding daily_target_for_date
daily-step_exact t y m d e =
    let shift : suc d * pos_part t ≡ d * pos_part t + pos_part t = omega arith in
    let pred_suc : suc d - 1 ≡ d = omega arith in
    rw (pred_suc, shift)
      (div-step_exact (d * pos_part t) (pos_part t) (days_in_month y m)
        (omega (arith, days_in_month_bounds y m)) e)

nothing :
    (t : ℤ) (y m d : ℕ)
    → pos_part t ≡ 0
    → daily_target_for_date t (record { year = y; month = m; day = suc d }) ≡ 0
nothing t y m d z =
    let n = days_in_month y m in
    let quotient : pos_part t / n ≡ 0 = ap (λ x. x / n) z ∙ zero-div n in
    let remainder : pos_part t % n ≡ 0 = omega (arith, div-add-mod' (pos_part t) n) in
    daily-step_exact t y m d remainder ∙ quotient

sparse :
    (t : ℤ) (y m d : ℕ)
    → 0 < pos_part t
    → pos_part t < days_in_month y m
    → Describes
        (one_every (max 1 (round_div (days_in_month y m) (pos_part t))))
        (pos_part t)
        (days_in_month y m)
        (daily_target_for_date t (record { year = y; month = m; day = suc d }))
sparse t y m d positive few =
    let n = days_in_month y m in
    let r = round_div n (pos_part t) in
    let whole : 1 ≤ n / pos_part t = (le-div_iff_mul-le positive).1 (omega arith) in
    let at_least : 1 ≤ r = omega (arith, round_div-cases n (pos_part t)) in
    let kept : max 1 r ≡ r = omega arith in
    let quotient : pos_part t / n ≡ 0 = div-eq_of_lt few in
    rw kept (
      omega (arith, daily-step t y m d),
      at_least,
      (round_div-nearest n (pos_part t) positive).0,
      (round_div-nearest n (pos_part t) positive).1,
    )

daily-between :
    (t : ℤ) (y m d : ℕ)
    → let low = pos_part t / days_in_month y m in
      let date : Date = record { year = y; month = m; day = suc d } in
      Describes
        (between low (low + 1))
        (pos_part t)
        (days_in_month y m)
        (daily_target_for_date t date)
daily-between t y m d = ((daily-step t y m d).0, (daily-step t y m d).1, refl)

self_test :
    (t : ℤ) (y m : ℕ)
    → ((pos_part t / days_in_month y m + 0) == pos_part t / days_in_month y m) ≡ true
self_test t y m = ground arith

next_test :
    (t : ℤ) (y m : ℕ)
    → ((pos_part t / days_in_month y m + 1) == pos_part t / days_in_month y m) ≡ false
next_test t y m = ground arith

-- The sentence shown for a monthly target is true of every day of the month.
pub daily_target_description-Describes :
    (t : ℤ) (y m d : ℕ)
    → let date : Date = record { year = y; month = m; day = suc d } in
      Describes
        (daily_target_description t date)
        (non_negative t)
        (days_in_month y m)
        (daily_target_for_date t date)
unfolding daily_target_description
daily_target_description-Describes t y m d = elim (Bool-cases (pos_part t == 0)) [
  | inl e ↦ rw e (nothing t y m d (ground (arith, e)))
  | inr e ↦ elim (Bool-cases (ltb (pos_part t) (days_in_month y m))) [
    | inl f ↦ rw (e, f) (sparse t y m d (ground (arith, e)) (ground (arith, f)))
    | inr f ↦ elim (Bool-cases (pos_part t % days_in_month y m == 0)) [
      | inl g ↦ rw (e, f, g, self_test t y m) (daily-step_exact t y m d (ground (arith, g)))
      | inr g ↦ rw (e, f, g, next_test t y m) (daily-between t y m d)
    ]
  ]
]
