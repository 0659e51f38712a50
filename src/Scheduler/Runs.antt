-- ===== src/Scheduler/Runs.antt =====
-- When a call of `run_once` or `run_blog_once` starts the advertising, and a minute of the two loops
-- (app/services/ad_dispatch_scheduler.py). What the advertising then does is not decided here.
use beautypos.Prelude.{
  ℕ, Bool, false, ◌&&◌, not, ◌%◌, ◌/◌, ◌==◌, List, [], ◌∷◌, Option, none, some, if◌then◌else◌,
}
use beautypos.Calendar.{Date}
use beautypos.Scheduler.Clock.{is_due, is_first_weekday_of_month}
use beautypos.Scheduler.Lock.{Row, acquire_lock}

pub data Verdict : Type 0 where
  integration_off already_run starts : Verdict

-- `run_once(force)` and `run_blog_once(force)` up to the call of the advertising
unfoldable pub begin_run : Bool → Bool → ℕ → Row → Row × Verdict
unfolding acquire_lock
begin_run enabled force period row =
    if not enabled
    then (row, integration_off)
    else if force
    then (row, starts)
    else let (row', acquired) = acquire_lock period row in
      (row', if acquired then starts else already_run)

-- The settings that a loop reads each minute; `none` is what it uses when it cannot read them.
pub record Settings : Type 0 where
  pub hour : ℕ
  pub minute : ℕ
  pub integration_enabled : Bool

abbrev pub or_default : Option Settings → Settings
or_default none = record { hour = 14; minute = 0; integration_enabled = false }
or_default (some s) = s

-- One turn of `_blog_scheduler_loop`: nothing, or a call of `run_blog_once`
unfoldable pub blog_turn : Option Settings → Bool → ℕ → Date → ℕ → Row → Row × Option Verdict
unfolding begin_run
blog_turn settings enabled now today month row =
    let s = or_default settings in
    if is_due now s.hour s.minute && is_first_weekday_of_month today
    then (let (row', v) = begin_run enabled false month row in (row', some v))
    else (row, none)

-- The slot of five minutes in which the states of the campaigns are fetched
unfoldable pub status_slot : ℕ → Option ℕ
status_slot now = if now / 60 % 60 % 5 == 0 then some (now / 60) else none

abbrev is_slot : ℕ → Option ℕ → Bool
is_slot slot none = false
is_slot slot (some last) = last == slot

-- What one turn of `_scheduler_loop` does, and the slot that it remembers
pub record Turn : Type 0 where
  pub last_status_slot : Option ℕ
  pub refreshes : Bool
  pub row : Row
  pub run : Option Verdict

abbrev refreshes_at : Bool → Option ℕ → Option ℕ → Bool
refreshes_at enabled none last = false
refreshes_at enabled (some slot) last = enabled && not (is_slot slot last)

-- The call of `run_once` at the due time
unfoldable pub due_run : Bool → Bool → ℕ → Row → Row × Option Verdict
unfolding begin_run
due_run due enabled today row =
    if due
    then (let (row', verdict) = begin_run enabled false today row in (row', some verdict))
    else (row, none)

unfoldable pub daily_turn : Option Settings → Bool → ℕ → ℕ → Option ℕ → Row → Turn
unfolding due_run status_slot
daily_turn settings enabled now today last row =
    let s = or_default settings in
    let slot = status_slot now in
    let refreshes = refreshes_at s.integration_enabled slot last in
    let (row', verdict) = due_run (is_due now s.hour s.minute) enabled today row in
    record {
      last_status_slot = if refreshes then slot else last;
      refreshes = refreshes;
      row = row';
      run = verdict;
    }

-- The minutes of one day: what each turn reads, one after the other.
pub record Minute : Type 0 where
  pub settings : Option Settings
  pub enabled : Bool
  pub now : ℕ

unfoldable pub daily_turns : ℕ → Option ℕ → Row → List Minute → List Turn
unfolding daily_turn
daily_turns today last row [] = []
daily_turns today last row (m ∷ ms) =
    let turn = daily_turn m.settings m.enabled m.now today last row in
    turn ∷ daily_turns today turn.last_status_slot turn.row ms
