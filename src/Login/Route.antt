-- ===== src/Login/Route.antt =====
-- The login with its guard (`login` of app/api/auth_routes.py). Whether the account is found, its
-- password is right and it is active is an argument; the tokens that a success issues are left out.
use beautypos.Prelude.{ℕ, Bool, true, false, List, [], ◌∷◌, Option, none, some}
use beautypos.Text.{Text}
use beautypos.Login.Guard.{Failures, Settings, check, record_failure, record_success}

-- What the table of users says of the name and the password
pub data Credentials : Type 0 where
  wrong disabled right : Credentials

pub data Answer : Type 0 where
  -- 429, with the seconds to wait
  too_many : ℕ → Answer
  -- 401, 403 and the tokens
  invalid_credentials account_disabled tokens : Answer

abbrev pub is_too_many : Answer → Bool
is_too_many (too_many wait) = true
is_too_many _ = false

unfoldable pub verified :
    (Text → Text) → Settings → ℕ → Option Text → Text → Credentials → Failures → Failures × Answer
verified lower s now email ip wrong m = (record_failure lower s now email ip m, invalid_credentials)
verified lower s now email ip disabled m = (m, account_disabled)
verified lower s now email ip right m = (record_success lower email ip m, tokens)

-- A login that is refused is not verified, and is not counted.
unfoldable pub guarded :
    (Text → Text)
    → Settings
    → ℕ
    → Option Text
    → Text
    → Credentials
    → Failures × Option ℕ
    → Failures × Answer
unfolding verified
guarded lower s now email ip c (m, none) = verified lower s now email ip c m
guarded lower s now email ip c (m, some wait) = (m, too_many wait)

unfoldable pub login :
    (Text → Text) → Settings → ℕ → Option Text → Text → Credentials → Failures → Failures × Answer
unfolding guarded
login lower s now email ip c m = guarded lower s now email ip c (check lower s now email ip m)

-- Logins with wrong passwords at the given times, the first one first, and their answers
unfoldable pub burst :
    (Text → Text) → Settings → Option Text → Text → List ℕ → Failures → Failures × List Answer
unfolding login
burst lower s email ip [] m = (m, [])
burst lower s email ip (t ∷ ts) m =
    let (m', answer) = login lower s t email ip wrong m in
    let (m'', answers) = burst lower s email ip ts m' in (m'', answer ∷ answers)
