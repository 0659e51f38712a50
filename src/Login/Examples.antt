-- ===== src/Login/Examples.antt =====
-- The theorems on the login guard at concrete inputs, and a run of it.
use beautypos.Prelude.{
  any, ◌⊎◌, ℕ, ◌*◌, ◌≡◌, refl, true, false, List, [], ◌∷◌, ◌++◌, none, some, arith,
}
use beautypos.Text.{Text, codes, strip, is_empty, left_strip, is_space, text_eq}
use beautypos.Login.Guard.{Settings, Failures, second, check, get, record_failure, record_success}
use beautypos.Login.Lockout.{
  refused, Counted, by_email, by_ip, record_failure-Counted, check-record_success, check-expired,
}
use beautypos.Login.Route.{right, is_too_many, login, burst}
use beautypos.Login.Burst.{check-burst}
use beautypos.Login.ClientIp.{client_ip}
use beautypos.Login.Spoofing.{client_ip-proxy}

-- The defaults of the settings: five attempts, five minutes.
abbrev settings : Settings
settings = record { login_max_attempts = 5; login_lockout_seconds = 300 }

abbrev same : Text → Text
same t = t

abbrev email : Text
email = codes "kim@example.com"

abbrev address : Text
address = codes "10.0.0.7"

abbrev at : ℕ → ℕ
at n = n * second

abbrev times : List ℕ
times = at 2 ∷ at 3 ∷ at 4 ∷ at 5 ∷ []

check-burst_example :
    (any is_too_many (burst same settings (some email) address (at 1 ∷ times) []).1 ≡ true)
    ⊎ (is_too_many
          (login same settings
            (at 20)
            (some email)
            address
            right
            (burst same settings (some email) address (at 1 ∷ times) []).0).1
        ≡ true)
check-burst_example =
    check-burst same settings (some email) address (at 1) times (at 20) right [] tt (omega arith)
      (omega arith) (omega arith)

check-record_success_example :
    refused (
      check same settings
        (at 20)
        (some email)
        address
        (record_success same (some email) address []))
    ≡ false
check-record_success_example = check-record_success same settings (some email) address (at 20) []

abbrev old : Failures
old = (by_email same (some email), (9, at 1)) ∷ []

check-expired_example : refused (check same settings (at 1000) (some email) address old) ≡ false
unfolding get text_eq strip left_strip is_space
check-expired_example =
    check-expired same settings (some email) address (at 1000) old (omega arith) (omega arith)

record_failure-Counted_example :
    Counted settings
      (at 9)
      (by_email same (some email))
      (by_ip same (some email) address)
      []
      (record_failure same settings (at 9) (some email) address [])
record_failure-Counted_example =
    record_failure-Counted same settings (some email) address (at 9) [] tt

address_shown : is_empty (strip address) ≡ false
unfolding strip left_strip is_space
address_shown = refl

client_ip-proxy_example :
    client_ip (some (record { peer = none; forwarded = some (codes "1.2.3.4" ++ b',' ∷ address) }))
    ≡ strip address
client_ip-proxy_example =
    client_ip-proxy none (codes "1.2.3.4") address (ground arith) address_shown
