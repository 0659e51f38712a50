-- ===== src/Dispatch/Campaign.antt =====
-- The dates of a blog campaign (`_next_blog_weekday` and `_blog_work_days` of
-- app/services/ad_dispatch.py) against the calendar.
use beautypos.Prelude.{
  ℕ, zero, suc, ◌+◌, ◌-◌, ◌%◌, ◌<◌, ◌≤◌, ◌≡◌, refl, ap, ◌∙◌, inl, inr, false, Bool-cases, leb, ◌==◌,
  if◌then◌else◌, leb→le, arith,
}
use beautypos.Calendar.{Date, toordinal, weekday}
use beautypos.Plan.Summary.{month_end}
use beautypos.Dispatch.BlogDates.{
  next_day, add_days, skip_weekend, next_blog_weekday, blog_work_days,
}
use beautypos.Dispatch.NextDay.{IsDate, toordinal-add_days, toordinal-next_day, next_day-IsDate}

-- The weekday of an ordinal number
abbrev pub weekday_of : ℕ → ℕ
weekday_of n = (n + 6) % 7

-- The days that a weekend has left
abbrev left : ℕ → ℕ
left w = if w == 5 then 2 else if w == 6 then 1 else 0

two_left :
    (o : ℕ) → 5 ≤ weekday_of o → 5 ≤ weekday_of (suc o) → suc (suc o) ≡ o + left (weekday_of o)
two_left o h k = ground arith

one_left : (o : ℕ) → 5 ≤ weekday_of o → weekday_of (suc o) < 5 → suc o ≡ o + left (weekday_of o)
one_left o h k = ground arith

none_left : (o : ℕ) → weekday_of o < 5 → o ≡ o + left (weekday_of o)
none_left o h = ground arith

leb→gt : (a b : ℕ) → leb a b ≡ false → b < a
leb→gt a b h = ground arith

weekday-next_day : (d : Date) → IsDate d → weekday (next_day d) ≡ weekday_of (suc (toordinal d))
unfolding weekday
weekday-next_day d h = ap weekday_of (toordinal-next_day d h)

weekday-toordinal : (d : Date) → weekday d ≡ weekday_of (toordinal d)
unfolding weekday
weekday-toordinal d = refl

-- The days that are skipped from a date on
toordinal-skip_weekend :
    (d : Date)
    → IsDate d
    → toordinal (skip_weekend 2 d) ≡ toordinal d + left (weekday_of (toordinal d))
unfolding skip_weekend
toordinal-skip_weekend d h = elim (Bool-cases (leb 5 (weekday d))) [
  | inr e ↦ rw e (none_left (toordinal d) (leb→gt 5 _ (rw (weekday-toordinal d) at e)))
  | inl e ↦
      let weekend = leb→le 5 _ (rw (weekday-toordinal d) at e) in
      rw e (elim (Bool-cases (leb 5 (weekday (next_day d)))) [
        | inl f ↦ rw f (
            toordinal-next_day (next_day d) (next_day-IsDate d h)
            ∙ ap suc (toordinal-next_day d h)
            ∙ two_left (toordinal d) weekend (leb→le 5 _ (rw (weekday-next_day d h) at f)))
        | inr f ↦ rw f (
            toordinal-next_day d h
            ∙ one_left (toordinal d) weekend (leb→gt 5 _ (rw (weekday-next_day d h) at f)))
      ])
]

left_workday : (o : ℕ) → weekday_of (o + left (weekday_of o)) < 5
left_workday o = ground arith

left_first : (o n : ℕ) → o ≤ n → n < o + left (weekday_of o) → 5 ≤ weekday_of n
left_first o n low high = ground arith

-- The first day on which a campaign may start: not the present day from 16 o'clock on
abbrev pub earliest : Date → ℕ → ℕ
earliest d hour = toordinal d + (if leb 16 hour then 1 else 0)

-- A workday from the earliest day on, with none before it.
pub record IsStart (d : Date) (hour : ℕ) (start : Date) : Type 0 where
  pub workday : weekday start < 5
  pub from : earliest d hour ≤ toordinal start
  pub first : (n : ℕ) → earliest d hour ≤ n → n < toordinal start → 5 ≤ weekday_of n

next_blog_weekday-IsStart :
    (d : Date) (hour : ℕ) → IsDate d → IsStart d hour (next_blog_weekday d hour)
unfolding next_blog_weekday weekday
next_blog_weekday-IsStart d hour h = elim (Bool-cases (leb 5 (weekday d))) [
  | inl e ↦
      let o = toordinal-add_days (7 - weekday d) d h in
      rw e (record {
        workday = ground (arith, o, e);
        from = ground (arith, o, e);
        first = λ n low high. ground (arith, o, e, low, high);
      })
  | inr e ↦ rw e (elim (Bool-cases (leb 16 hour)) [
    | inl f ↦
        let next = suc (toordinal d) in
        let o : toordinal (skip_weekend 2 (next_day d)) ≡ next + left (weekday_of next) =
          toordinal-skip_weekend (next_day d) (next_day-IsDate d h)
          ∙ ap (λ n. n + left (weekday_of n)) (toordinal-next_day d h) in
        rw f (record {
          workday = rw o (left_workday next);
          from = rw (f, o) (omega arith);
          first = λ n low high.
              left_first next n (omega (arith, (rw f at low))) (omega (arith, o, high));
        })
    | inr f ↦ rw f (record {
      workday = ground (arith, e);
      from = ground (arith, e);
      first = λ n low high. absurd (omega (arith, low, high));
    })
  ])
]

add_days-IsDate : (n : ℕ) (d : Date) → IsDate d → IsDate (add_days n d)
unfolding add_days
add_days-IsDate zero d h = h
add_days-IsDate (suc n) d h = add_days-IsDate n (next_day d) (next_day-IsDate d h)

skip_weekend-IsDate : (n : ℕ) (d : Date) → IsDate d → IsDate (skip_weekend n d)
unfolding skip_weekend
skip_weekend-IsDate zero d h = h
skip_weekend-IsDate (suc n) d h = elim (Bool-cases (leb 5 (weekday d))) [
  | inl e ↦ rw e (skip_weekend-IsDate n (next_day d) (next_day-IsDate d h))
  | inr e ↦ rw e h
]

next_blog_weekday-IsDate : (d : Date) (hour : ℕ) → IsDate d → IsDate (next_blog_weekday d hour)
unfolding next_blog_weekday
next_blog_weekday-IsDate d hour h = elim (Bool-cases (leb 5 (weekday d))) [
  | inl e ↦ rw e (add_days-IsDate (7 - weekday d) d h)
  | inr e ↦ rw e (elim (Bool-cases (leb 16 hour)) [
    | inl f ↦ rw f (skip_weekend-IsDate 2 (next_day d) (next_day-IsDate d h))
    | inr f ↦ rw f h
  ])
]

work_days-month_end :
    (d : Date) → IsDate d → toordinal d + blog_work_days d ≡ toordinal (month_end d) + 1
unfolding blog_work_days month_end toordinal
work_days-month_end d h = omega (arith, h.day.1)

-- The start of a blog campaign is the first workday from the present day on, or from the next day on
-- if it is 16 o'clock or later, over the ends of months and years, for any date of the calendar; and
-- the campaign's last day is the last day of the month that it starts in.
pub campaign-IsStart :
    (d : Date) (hour : ℕ)
    → IsDate d
    → IsStart d hour (next_blog_weekday d hour)
      × (toordinal (next_blog_weekday d hour) + blog_work_days (next_blog_weekday d hour)
          ≡ toordinal (month_end (next_blog_weekday d hour)) + 1)
campaign-IsStart d hour h = (
  next_blog_weekday-IsStart d hour h,
  work_days-month_end (next_blog_weekday d hour) (next_blog_weekday-IsDate d hour h),
)
