-- ===== src/Rewardpop/Unrepeated.antt =====
-- An order that the provider may have taken is not offered for a retry (app/services/rewardpop.py with
-- app/services/ad_dispatch.py).
use beautypos.Prelude.{ℕ, ◌≡◌, Bool, true, false, ◌||◌, Option, none, some, Result, ok, err}
use beautypos.Text.{Text}
use beautypos.Dispatch.State.{Row, retryable, is_executed, is_failed}
use beautypos.Dispatch.Provider.{Provider, Payload, Error, is_retryable}
use beautypos.Rewardpop.Json.{Json}
use beautypos.Rewardpop.Client.{Response, create_order}

-- A failure that makes no sense to retry by itself
abbrev IsFinal {ℓ} : {A : Type ℓ} → Result Error A → Type 0
IsFinal (ok a) = Unit
IsFinal (err e) = is_retryable e ≡ false

-- The row counts as executed, or as failed for good.
abbrev pub IsSettled : Row → Type 0
IsSettled r = (retryable r ≡ false) × ((is_executed r.status || is_failed r.status) ≡ true)

-- Of what an order returns, if its request does not raise
abbrev pub Returned : (Row → Type 0) → Option Row → Type 0
Returned P none = Unit
Returned P (some r) = P r

-- The provider as the program's client knows it, whatever the connection gives back
unfoldable pub client : (Text → Text) → Bool → Text → (ℕ → Payload → Response) → Provider → Provider
unfolding create_order
client lower has_key path connection p = record p {
  create_order = λ n. create_order lower has_key path (connection n);
}
