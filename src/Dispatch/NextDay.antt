-- ===== src/Dispatch/NextDay.antt =====
-- The next day has the next ordinal number (`date + timedelta` in app/services/ad_dispatch.py).
use beautypos.Prelude.{
  ℕ, zero, suc, ◌+◌, ◌≤◌, ◌≡◌, refl, inl, inr, Bool-cases, ltb, if◌then◌else◌, ltb→lt, ltb→ge,
  arith,
}
use beautypos.Calendar.{
  Date, is_leap, days_in_month, days_before_year, days_before_month, toordinal,
}
use beautypos.Dispatch.BlogDates.{next_day, add_days}

-- A date of the calendar
pub record IsDate (d : Date) : Type 0 where
  pub year : 1 ≤ d.year
  pub month : (1 ≤ d.month) × (d.month ≤ 12)
  pub day : (1 ≤ d.day) × (d.day ≤ days_in_month d.year d.month)

-- The days of a year
year_days : (y : ℕ) → days_before_month y 12 + 31 ≡ 365 + (if is_leap y then 1 else 0)
unfolding days_before_month days_in_month
year_days y = elim (Bool-cases (is_leap y)) [
  | inl e ↦ rw (e) (omega arith)
  | inr e ↦ rw (e) (omega arith)
]

next_year :
    (n : ℕ)
    → days_before_year (suc (suc n))
      ≡ days_before_year (suc n) + 365 + (if is_leap (suc n) then 1 else 0)
unfolding days_before_year is_leap
next_year n = ground arith

first_month : (y : ℕ) → days_before_month y 1 ≡ 0
unfolding days_before_month
first_month y = refl

next_month :
    (y m : ℕ) → 1 ≤ m → days_before_month y (suc m) ≡ days_before_month y m + days_in_month y m
unfolding days_before_month
next_month y zero h = absurd (omega arith)
next_month y (suc m) h = refl

end_of_year :
    (y : ℕ)
    → 1 ≤ y
    → days_before_year (suc y) + 1 ≡ days_before_year y + (days_before_month y 12 + 31) + 1
end_of_year zero h = absurd (omega arith)
end_of_year (suc n) h = omega (arith, next_year n, year_days (suc n))

december : (y : ℕ) → days_in_month y 12 ≡ 31
unfolding days_in_month
december y = refl

in_december :
    (y m day : ℕ)
    → m ≤ 12
    → 12 ≤ m
    → day ≤ days_in_month y m
    → days_in_month y m ≤ day
    → days_before_month y m + day ≡ days_before_month y 12 + 31
in_december y m day h k l g =
    let last : m ≡ 12 = omega arith in
    rw last (omega (arith, december y, (rw last at l), (rw last at g)))

-- The next day's ordinal number is one more.
pub toordinal-next_day : (d : Date) → IsDate d → toordinal (next_day d) ≡ suc (toordinal d)
unfolding toordinal next_day
toordinal-next_day d h = elim (Bool-cases (ltb d.day (days_in_month d.year d.month))) [
  | inl e ↦ rw e (omega arith)
  | inr e ↦
      let last : days_in_month d.year d.month ≤ d.day = ltb→ge _ _ e in
      rw e (elim (Bool-cases (ltb d.month 12)) [
        | inl f ↦ rw f (omega (arith, next_month d.year d.month h.month.0, last, h.day.1))
        | inr f ↦ rw f (
            omega (
              arith,
              first_month (suc d.year),
              end_of_year d.year h.year,
              in_december d.year d.month d.day h.month.1 (ltb→ge _ _ f) h.day.1 last,
            ))
      ])
]

some_days : (y m : ℕ) → 1 ≤ days_in_month y m
unfolding days_in_month is_leap
some_days y m = ground arith

pub next_day-IsDate : (d : Date) → IsDate d → IsDate (next_day d)
unfolding next_day
next_day-IsDate d h = elim (Bool-cases (ltb d.day (days_in_month d.year d.month))) [
  | inl e ↦
      rw e (record {
        year = h.year;
        month = h.month;
        day = (omega arith, omega (arith, ltb→lt _ _ e));
      })
  | inr e ↦ rw e (elim (Bool-cases (ltb d.month 12)) [
    | inl f ↦ rw f (record {
      year = h.year;
      month = (omega arith, omega (arith, ltb→lt _ _ f));
      day = (omega arith, some_days d.year (suc d.month));
    })
    | inr f ↦ rw f (record {
      year = omega arith;
      month = (omega arith, omega arith);
      day = (omega arith, some_days (suc d.year) 1);
    })
  ])
]

pub toordinal-add_days : (n : ℕ) (d : Date) → IsDate d → toordinal (add_days n d) ≡ toordinal d + n
unfolding add_days
toordinal-add_days zero d h = omega arith
toordinal-add_days (suc n) d h =
    omega (arith, toordinal-add_days n (next_day d) (next_day-IsDate d h), toordinal-next_day d h)
