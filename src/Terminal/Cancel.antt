-- ===== src/Terminal/Cancel.antt =====
-- Cancelling a payment (`_auth_cancel_actor` and `cancel_transaction` of app/api/terminal_routes.py).
-- The token is given as what `decode_token` makes of it.
use beautypos.Prelude.{
  ℕ, Bool, false, ◌&&◌, not, ◌==◌, if◌then◌else◌, List, [], ◌∷◌, Option, none, some, first, where_,
  any, Result, ok, err, ◌>>=◌, ◌>>◌, raise_if,
}
use beautypos.Prelude.Int.{ℤ, leb_ℤ}
use beautypos.Text.{Text, or_none, or_empty, strip}
use beautypos.Accounts.{Role, admin, sales, owner, designer}
use beautypos.Terminal.Auth.{Terminal, find_terminal}
use beautypos.Terminal.Ingest.{Transaction, cancelled, is_approved, Merchant, Shops, Table}

-- A `Settlement`, as far as a cancellation reads it
pub record Settlement : Type 0 where
  pub merchant_id : ℕ
  pub period_start : ℤ
  pub period_end : ℤ

pub record Account : Type 0 where
  pub id : ℕ
  pub role : Role
  pub is_active : Bool

pub data CancelError : Type 0 where
  not_found invalid_key other_terminal not_authenticated invalid_token no_user : CancelError
  not_own_merchant no_right already_cancelled in_settlement : CancelError

pub data Actor : Type 0 where
  terminal_actor admin_actor owner_actor : Actor

-- What `decode_token` returns
pub record Claims : Type 0 where
  pub is_access : Bool
  pub sub : Option ℕ

unfoldable pub find_transaction : ℕ → List Transaction → Option Transaction
find_transaction i [] = none
find_transaction i (t ∷ ts) = let rest = find_transaction i ts in if t.id == i then some t else rest

unfoldable pub covers : Transaction → Settlement → Bool
covers t s =
    s.merchant_id == t.merchant_id
    && (leb_ℤ s.period_start t.created_at && leb_ℤ t.created_at s.period_end)

abbrev pub serial_of : Option Terminal → Option Text
serial_of none = none
serial_of (some t) = some t.terminal_serial

same_terminal : ℕ → Option Terminal → Result CancelError Actor
same_terminal i none = err invalid_key
same_terminal i (some t) = if t.id == i then ok terminal_actor else err other_terminal

owns : Shops → ℕ → Transaction → Bool
owns s u t =
    any
      (λ (m : Merchant).
        m.id == t.merchant_id && (elim m.owner_user_id [ none ↦ false | some o ↦ o == u ]))
      s.merchants

account_actor : Shops → Transaction → Option Account → Result CancelError Actor
unfolding owns
account_actor s t none = err no_user
account_actor s t (some a) = elim a.role [
  | admin ↦ ok admin_actor
  | owner ↦ if owns s a.id t then ok owner_actor else err not_own_merchant
  | sales ↦ err no_right
  | designer ↦ err no_right
]

abbrev pub required_claims : Option Claims → Result CancelError Claims
required_claims none = err invalid_token
required_claims (some c) = ok c

abbrev pub required_sub : Option ℕ → Result CancelError ℕ
required_sub none = err invalid_token
required_sub (some u) = ok u

-- The token of an account; a missing one is told from one that does not decode.
unfoldable pub token_actor :
    Shops → List Account → Transaction → Option (Option Claims) → Result CancelError Actor
unfolding account_actor
token_actor s accounts t none = err not_authenticated
token_actor s accounts t (some claims) = do
  c ← required_claims claims
  raise_if (not c.is_access) invalid_token
  u ← required_sub c.sub
  account_actor s t (first (where_ (λ (a : Account). a.id == u && a.is_active) accounts))

module _ (fingerprint : Text → Text) (verify : Text → Text → Bool) where
  unfoldable pub auth_cancel_actor :
      Shops
      → List Account
      → List Terminal
      → Transaction
      → Option Text
      → Option (Option Claims)
      → List Terminal × Result CancelError Actor
  unfolding find_terminal same_terminal token_actor
  auth_cancel_actor s accounts terminals t (some (c ∷ key)) token =
      let own = first (where_ (λ (d : Terminal). d.id == t.terminal_id) terminals) in
      let found = find_terminal fingerprint verify terminals (c ∷ key) (serial_of own) in
      (found.0, same_terminal t.terminal_id found.1)
  auth_cancel_actor s accounts terminals t _ token = (terminals, token_actor s accounts t token)

unfoldable pub cancelled_row : ℤ → Option Text → Transaction → Transaction
cancelled_row now reason t = record t {
  status = cancelled;
  cancelled_at = some now;
  cancel_reason = or_none (strip (or_empty reason));
}

unfoldable pub write_row : ℕ → (Transaction → Transaction) → List Transaction → List Transaction
write_row i f [] = []
write_row i f (t ∷ ts) = let rest = write_row i f ts in if t.id == i then f t ∷ ts else t ∷ rest

-- What follows once the one who asks is known to be allowed to
unfoldable pub cancel_row :
    List Settlement → Table → ℤ → Option Text → Transaction → Result CancelError Table
unfolding covers cancelled_row write_row
cancel_row settlements table now reason t = do
  raise_if (not (is_approved t.status)) already_cancelled
  raise_if (any (covers t) settlements) in_settlement
  ok (record table { rows = write_row t.id (cancelled_row now reason) table.rows })

module _ (fingerprint : Text → Text) (verify : Text → Text → Bool) where
  -- `POST /transactions/{transaction_id}/cancel`
  unfoldable pub cancel_transaction :
      Shops
      → List Account
      → List Settlement
      → List Terminal
      → Table
      → ℤ
      → ℕ
      → Option Text
      → Option Text
      → Option (Option Claims)
      → List Terminal × Result CancelError (Table × Actor)
  unfolding find_transaction auth_cancel_actor cancel_row
  cancel_transaction s accounts settlements terminals table now i reason key token =
      elim (find_transaction i table.rows) [
        | none ↦ (terminals, err not_found)
        | some t ↦
            let auth = auth_cancel_actor fingerprint verify s accounts terminals t key token in
            (
              auth.0,
              auth.1 >>= λ actor.
                  cancel_row settlements table now reason t >>= λ after. ok (after, actor),
            )
      ]
