-- ===== src/Accounts.antt =====
-- The roles of the users (app/models/user.py).
use beautypos.Prelude.{ℕ, Bool, true, false}

-- `UserRole`
pub data Role : Type 0 where
  admin sales owner designer : Role

-- What the services read of a `User`.
pub record User : Type 0 where
  pub id : ℕ
  pub role : Role

abbrev pub is_admin : Role → Bool
is_admin admin = true
is_admin _ = false
