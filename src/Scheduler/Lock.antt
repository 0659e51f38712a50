-- ===== src/Scheduler/Lock.antt =====
-- The lock that lets one process run a day's or a month's advertising
-- (app/services/ad_dispatch_scheduler.py, app/models/system_config.py). A period, the day or the
-- month that the row holds as a text, is a number; a new row holds the empty text, here 0, which is
-- no period.
use beautypos.Prelude.{
  ℕ, zero, suc, Bool, true, false, not, ◌==◌, List, [], ◌∷◌, Option, none, some, if◌then◌else◌,
}

-- The row of the lock's key: missing, or its value, which may be NULL.
abbrev pub Row : Type 0
Row = Option (Option ℕ)

-- What the row's value has to be for the conditional update to find it.
unfoldable pub is_other : ℕ → Option ℕ → Bool
is_other today none = true
is_other today (some value) = not (value == today)

-- `UPDATE … WHERE config_key = :key AND (config_value IS NULL OR config_value <> :today)`, and
-- whether it changed a row.
unfoldable pub conditional_update : ℕ → Row → Row × Bool
unfolding is_other
conditional_update today none = (none, false)
conditional_update today (some value) =
    if is_other today value then (some (some today), true) else (some value, false)

-- `acquire_daily_lock` and `acquire_blog_monthly_lock`, run by one process alone
unfoldable pub acquire_lock : ℕ → Row → Row × Bool
unfolding conditional_update
acquire_lock today none = conditional_update today (some (some 0))
acquire_lock today (some value) = conditional_update today (some value)

-- Where a process stands in the function. `row_missing` has seen no row, and inserts one next.
pub data Phase : Type 0 where
  called row_missing row_there : Phase
  returned : Bool → Phase
  -- the insert broke the unique key
  raised : Phase

-- One statement of one process, which the database runs alone.
unfoldable pub advance : ℕ → Row → Phase → Row × Phase
unfolding conditional_update
advance today none called = (none, row_missing)
advance today (some value) called = (some value, row_there)
advance today none row_missing = (some (some 0), row_there)
advance today (some value) row_missing = (some value, raised)
advance today row row_there =
    let (row', changed) = conditional_update today row in (row', returned changed)
advance today row (returned b) = (row, returned b)
advance today row raised = (row, raised)

pub record Processes : Type 0 where
  pub row : Row
  pub phases : List Phase

-- The process at a place moves.
unfoldable pub move_at : ℕ → ℕ → Row → List Phase → Row × List Phase
unfolding advance
move_at today i row [] = (row, [])
move_at today zero row (p ∷ ps) = let (row', p') = advance today row p in (row', p' ∷ ps)
move_at today (suc i) row (p ∷ ps) = let (row', ps') = move_at today i row ps in (row', p ∷ ps')

-- Any interleaving: the places of the processes that move, one after the other.
unfoldable pub interleave : ℕ → Processes → List ℕ → Processes
unfolding move_at
interleave today s [] = s
interleave today s (i ∷ is) =
    let (row', phases') = move_at today i s.row s.phases in
    interleave today (record { row = row'; phases = phases' }) is
