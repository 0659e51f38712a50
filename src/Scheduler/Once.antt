-- ===== src/Scheduler/Once.antt =====
-- One run a day (app/services/ad_dispatch_scheduler.py).
use beautypos.Prelude.{
  ℕ, ◌+◌, ◌≤◌, ◌≡◌, ◌≢◌, Bool, true, false, List, [], ◌∷◌, Option, none, some, arith,
}
use beautypos.Scheduler.Clock.{is_due}
use beautypos.Scheduler.Lock.{Row, acquire_lock, conditional_update, is_other}
use beautypos.Scheduler.Runs.{
  Verdict, starts, begin_run, due_run, or_default, daily_turn, Turn, Minute, daily_turns,
}
use beautypos.Scheduler.Exclusion.{holds, holds_bound}

abbrev pub started : Verdict → ℕ
started starts = 1
started _ = 0

abbrev pub started_by : Option Verdict → ℕ
started_by none = 0
started_by (some v) = started v

abbrev pub runs_started : List Turn → ℕ
runs_started [] = 0
runs_started (t ∷ ts) = started_by t.run + runs_started ts

started-begin_run :
    (enabled : Bool) (today : ℕ) (row : Row)
    → today ≢ 0
    → started (begin_run enabled false today row).1 + holds today row
      ≡ holds today (begin_run enabled false today row).0
unfolding begin_run acquire_lock conditional_update is_other
started-begin_run false today row h = omega arith
started-begin_run true today none h = ground arith
started-begin_run true today (some none) h = ground arith
started-begin_run true today (some (some v)) h = ground arith

started-due_run :
    (due enabled : Bool) (today : ℕ) (row : Row)
    → today ≢ 0
    → started_by (due_run due enabled today row).1 + holds today row
      ≡ holds today (due_run due enabled today row).0
unfolding due_run
started-due_run true enabled today row h = started-begin_run enabled today row h
started-due_run false enabled today row h = omega arith

started-daily_turn :
    (m : Minute) (today : ℕ) (last : Option ℕ) (row : Row)
    → today ≢ 0
    → (let t = daily_turn m.settings m.enabled m.now today last row in
        started_by t.run + holds today row ≡ holds today t.row)
unfolding daily_turn
started-daily_turn m today last row h =
    let s = or_default m.settings in
    started-due_run (is_due m.now s.hour s.minute) m.enabled today row h

-- In the minutes of one day, whatever the settings that they read, the loop starts the advertising at
-- most once, and not at all if the row of the lock holds the day already. A day is
-- not the empty text of a new row.
pub runs_started-daily_turns :
    (today : ℕ) (last : Option ℕ) (row : Row) (ms : List Minute)
    → today ≢ 0
    → runs_started (daily_turns today last row ms) + holds today row ≤ 1
unfolding daily_turns
runs_started-daily_turns today last row [] h = omega (arith, holds_bound today row)
runs_started-daily_turns today last row (m ∷ ms) h =
    let t = daily_turn m.settings m.enabled m.now today last row in
    omega (
      arith,
      started-daily_turn m today last row h,
      runs_started-daily_turns today t.last_status_slot t.row ms h,
    )
