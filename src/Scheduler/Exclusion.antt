-- ===== src/Scheduler/Exclusion.antt =====
-- One process a period gets the lock, however the statements interleave
-- (app/services/ad_dispatch_scheduler.py).
use beautypos.Prelude.{
  ℕ, zero, suc, max, ◌+◌, ◌≤◌, ◌≡◌, ◌≢◌, refl, Bool, true, false, ◌==◌, List, [], ◌∷◌, none, some,
  if◌then◌else◌, any, arith,
}
use beautypos.Scheduler.Lock.{
  Row, Phase, called, row_missing, row_there, returned, raised, is_other, conditional_update,
  advance, move_at, interleave, Processes,
}

-- How many processes were told to run.
abbrev pub got : Phase → ℕ
got (returned true) = 1
got _ = 0

abbrev pub granted : List Phase → ℕ
granted [] = 0
granted (p ∷ ps) = got p + granted ps

-- Whether the row holds the period.
abbrev pub holds : ℕ → Row → ℕ
holds today none = 0
holds today (some none) = 0
holds today (some (some value)) = if value == today then 1 else 0

-- What a phase says of the row: a process that waits for its update has seen the row, and one that
-- has returned knows that the row holds the period.
abbrev need : Phase → ℕ
need row_there = 1
need (returned b) = 2
need _ = 0

abbrev needs : List Phase → ℕ
needs [] = 0
needs (p ∷ ps) = max (need p) (needs ps)

abbrev level : ℕ → Row → ℕ
level today none = 0
level today (some none) = 1
level today (some (some value)) = if value == today then 2 else 1

abbrev pub has_returned : Phase → Bool
has_returned (returned b) = true
has_returned _ = false

abbrev pub waiting : ℕ → List Phase
waiting zero = []
waiting (suc n) = called ∷ waiting n

granted-advance :
    (today : ℕ) (row : Row) (p : Phase)
    → today ≢ 0
    → got (advance today row p).1 + holds today row ≡ got p + holds today (advance today row p).0
unfolding advance conditional_update is_other
granted-advance today none called h = refl
granted-advance today (some v) called h = refl
granted-advance today none row_missing h = ground arith
granted-advance today (some v) row_missing h = refl
granted-advance today none row_there h = refl
granted-advance today (some none) row_there h = ground arith
granted-advance today (some (some v)) row_there h = ground arith
granted-advance today row (returned b) h = refl
granted-advance today row raised h = refl

granted-move_at :
    (today i : ℕ) (row : Row) (ps : List Phase)
    → today ≢ 0
    → granted (move_at today i row ps).1 + holds today row
      ≡ granted ps + holds today (move_at today i row ps).0
unfolding move_at
granted-move_at today i row [] h = refl
granted-move_at today zero row (p ∷ ps) h = omega (arith, granted-advance today row p h)
granted-move_at today (suc i) row (p ∷ ps) h = omega (arith, granted-move_at today i row ps h)

granted-interleave :
    (today : ℕ) (s : Processes) (is : List ℕ)
    → today ≢ 0
    → granted (interleave today s is).phases + holds today s.row
      ≡ granted s.phases + holds today (interleave today s is).row
unfolding interleave
granted-interleave today s [] h = refl
granted-interleave today s (i ∷ is) h = omega (
  arith,
  granted-move_at today i s.row s.phases h,
  granted-interleave today
      (record {
        row = (move_at today i s.row s.phases).0;
        phases = (move_at today i s.row s.phases).1;
      })
      is h,
)

need-advance :
    (today : ℕ) (row : Row) (p : Phase)
    → need p ≤ level today row
    → (need (advance today row p).1 ≤ level today (advance today row p).0)
      × (level today row ≤ level today (advance today row p).0)
unfolding advance conditional_update is_other
need-advance today none called n = omega arith
need-advance today (some none) called n = omega arith
need-advance today (some (some v)) called n = ground arith
need-advance today none row_missing n = ground arith
need-advance today (some v) row_missing n = omega arith
need-advance today none row_there n = omega arith
need-advance today (some none) row_there n = ground arith
need-advance today (some (some v)) row_there n = ground arith
need-advance today row (returned b) n = (n, omega arith)
need-advance today row raised n = omega arith

needs-move_at :
    (today i : ℕ) (row : Row) (ps : List Phase)
    → needs ps ≤ level today row
    → (needs (move_at today i row ps).1 ≤ level today (move_at today i row ps).0)
      × (level today row ≤ level today (move_at today i row ps).0)
unfolding move_at
needs-move_at today i row [] n = omega arith
needs-move_at today zero row (p ∷ ps) n =
    let step = need-advance today row p (omega arith) in omega (arith, step.0, step.1)
needs-move_at today (suc i) row (p ∷ ps) n =
    let rest = needs-move_at today i row ps (omega arith) in omega (arith, rest.0, rest.1)

needs-interleave :
    (today : ℕ) (s : Processes) (is : List ℕ)
    → needs s.phases ≤ level today s.row
    → needs (interleave today s is).phases ≤ level today (interleave today s is).row
unfolding interleave
needs-interleave today s [] n = n
needs-interleave today s (i ∷ is) n =
    needs-interleave today
      (record {
        row = (move_at today i s.row s.phases).0;
        phases = (move_at today i s.row s.phases).1;
      })
      is (needs-move_at today i s.row s.phases n).0

granted-waiting : (n : ℕ) → granted (waiting n) ≡ 0
granted-waiting zero = refl
granted-waiting (suc n) = omega (arith, granted-waiting n)

needs-waiting : (n : ℕ) → needs (waiting n) ≡ 0
needs-waiting zero = refl
needs-waiting (suc n) = omega (arith, needs-waiting n)

needs-returned : (ps : List Phase) → any has_returned ps ≡ true → 2 ≤ needs ps
needs-returned [] h = ground arith
needs-returned (called ∷ ps) h = omega (arith, needs-returned ps h)
needs-returned (row_missing ∷ ps) h = omega (arith, needs-returned ps h)
needs-returned (row_there ∷ ps) h = omega (arith, needs-returned ps h)
needs-returned (returned b ∷ ps) h = omega arith
needs-returned (raised ∷ ps) h = omega (arith, needs-returned ps h)

holds-level : (today : ℕ) (row : Row) → 2 ≤ level today row → holds today row ≡ 1
holds-level today none h = omega arith
holds-level today (some none) h = omega arith
holds-level today (some (some v)) h = ground arith

pub holds_bound : (today : ℕ) (row : Row) → holds today row ≤ 1
holds_bound today none = omega arith
holds_bound today (some none) = omega arith
holds_bound today (some (some v)) = ground arith

-- Any number of processes call for the lock of one period, and their statements interleave in any
-- way. At most one of them is told to run, and none if the row holds the period already. Once any of
-- them has returned, exactly one has been told to run, unless the row held the period already.
-- A period is not the empty text of a new row.
pub interleave-Exclusive :
    (today n : ℕ) (row : Row) (is : List ℕ)
    → today ≢ 0
    → (let s = interleave today (record { row = row; phases = waiting n }) is in
        (granted s.phases + holds today row ≤ 1)
        × (any has_returned s.phases ≡ true → granted s.phases + holds today row ≡ 1))
interleave-Exclusive today n row is h =
    let begin : Processes = record { row = row; phases = waiting n } in
    let s = interleave today begin is in
    let count = granted-interleave today begin is h in
    let need = needs-interleave today begin is (omega (arith, needs-waiting n)) in
    (
      omega (arith, count, granted-waiting n, holds_bound today s.row),
      (λ r. omega (
        arith,
        count,
        granted-waiting n,
        holds-level today s.row (omega (arith, need, needs-returned s.phases r)),
      )),
    )
