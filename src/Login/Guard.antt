-- ===== src/Login/Guard.antt =====
-- The counters of failed logins and the lock (app/services/login_guard.py). A time counts
-- nanoseconds of the monotonic clock; `now - last` stops at 0, where a monotonic clock never is
-- below it. `str.lower` is the parameter `lower`. A call holds the lock, so calls do not interleave.
use beautypos.Prelude.{
  ℕ, suc, ◌+◌, ◌-◌, ◌*◌, ◌/◌, max, ltb, leb, if◌then◌else◌, List, [], ◌∷◌, ◌++◌, Option, none, some,
  length,
}
use beautypos.Text.{Text, text_eq, strip, or_empty, codes}

-- key -> (failures in a row, time of the last one)
abbrev pub Failures : Type 0
Failures = List (Text × (ℕ × ℕ))

pub record Settings : Type 0 where
  pub login_max_attempts : ℕ
  pub login_lockout_seconds : ℕ

abbrev pub second : ℕ
second = 1000000000

abbrev pub max_entries : ℕ
max_entries = 10000

abbrev pub max_attempts : Settings → ℕ
max_attempts s = max 1 s.login_max_attempts

abbrev pub lockout : Settings → ℕ
lockout s = max 1 s.login_lockout_seconds * second

abbrev pub forget_after : Settings → ℕ
forget_after s = max 1 s.login_lockout_seconds * 2 * second

-- `_failures.get(key, (0, 0.0))`
unfoldable pub get : Failures → Text → ℕ × ℕ
get [] k = (0, 0)
get ((j, v) ∷ m) k = if text_eq j k then v else get m k

-- `_failures[key] = v`
unfoldable pub put : Text → ℕ × ℕ → Failures → Failures
put k v [] = (k, v) ∷ []
put k v ((j, w) ∷ m) = if text_eq j k then (k, v) ∷ m else (j, w) ∷ put k v m

-- `_failures.pop(key, None)`
unfoldable pub pop : Text → Failures → Failures
pop k [] = []
pop k ((j, w) ∷ m) = if text_eq j k then pop k m else (j, w) ∷ pop k m

unfoldable pub drop_stale : ℕ → ℕ → Failures → Failures
drop_stale now limit [] = []
drop_stale now limit ((j, (n, last)) ∷ m) =
    if ltb limit (now - last)
    then drop_stale now limit m
    else (j, (n, last)) ∷ drop_stale now limit m

unfoldable pub prune : ℕ → ℕ → Failures → Failures
prune now limit m = if leb (length m) max_entries then m else drop_stale now limit m

abbrev pub email_key : Text → Text
email_key email = codes "email:" ++ email

abbrev pub ip_key : Text → Text → Text
ip_key ip email = codes "ip:" ++ (ip ++ (codes "|email:" ++ email))

unfoldable pub keys : (Text → Text) → Option Text → Text → List Text
keys lower email ip = let e = lower (strip (or_empty email)) in email_key e ∷ ip_key ip e ∷ []

-- One round of the loop of `check`: the seconds to wait are those of the answer 429.
unfoldable pub check_key : Settings → ℕ → Text → Failures → Failures × Option ℕ
check_key s now k m =
    let (count, last) = get m k in
    if ltb count (max_attempts s)
    then (m, none)
    else if leb (lockout s) (now - last)
    then (pop k m, none)
    else (m, some ((lockout s - (now - last)) / second + 1))

unfoldable pub check_keys : Settings → ℕ → List Text → Failures → Failures × Option ℕ
check_keys s now [] m = (m, none)
check_keys s now (k ∷ ks) m =
    let (m', answer) = check_key s now k m in
    elim answer [ none ↦ check_keys s now ks m' | some wait ↦ (m', some wait) ]

-- The table after the call, which keeps what was removed, and the wait if the login is refused.
unfoldable pub check :
    (Text → Text) → Settings → ℕ → Option Text → Text → Failures → Failures × Option ℕ
unfolding check_keys
check lower s now email ip m = check_keys s now (keys lower email ip) m

unfoldable pub count_failure : Settings → ℕ → Text → Failures → Failures
count_failure s now k m =
    let (count, last) = get m k in
    let kept = if ltb (forget_after s) (now - last) then 0 else count in put k (suc kept, now) m

unfoldable pub count_failures : Settings → ℕ → List Text → Failures → Failures
count_failures s now [] m = m
count_failures s now (k ∷ ks) m = count_failures s now ks (count_failure s now k m)

unfoldable pub record_failure :
    (Text → Text) → Settings → ℕ → Option Text → Text → Failures → Failures
unfolding count_failures prune
record_failure lower s now email ip m =
    count_failures s now (keys lower email ip) (prune now (forget_after s) m)

unfoldable pub pop_all : List Text → Failures → Failures
pop_all [] m = m
pop_all (k ∷ ks) m = pop_all ks (pop k m)

unfoldable pub record_success : (Text → Text) → Option Text → Text → Failures → Failures
unfolding pop_all
record_success lower email ip m = pop_all (keys lower email ip) m

pub reset : Failures → Failures
reset m = []
