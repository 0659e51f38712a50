-- ===== src/Terminal/Auth.antt =====
-- Which terminal a key belongs to (app/services/terminal_auth.py, app/models/terminal.py). The digest
-- of a key and the check of a key against its hash are parameters.
use beautypos.Prelude.{
  ℕ, Bool, true, false, ◌&&◌, not, ◌==◌, if◌then◌else◌, List, [], ◌∷◌, Option, none, some, first,
  where_,
}
use beautypos.Text.{Text, text_eq, is_empty, or_empty}

-- `TerminalDevice`
pub record Terminal : Type 0 where
  pub id : ℕ
  pub merchant_id : ℕ
  pub terminal_serial : Text
  pub api_key_hash : Text
  pub api_key_fingerprint : Option Text
  pub is_active : Bool

abbrev pub has_fingerprint : Terminal → Bool
has_fingerprint t = not (is_empty (or_empty t.api_key_fingerprint))

-- `api_key_fingerprint IS NULL`
abbrev pub is_legacy : Terminal → Bool
is_legacy t = elim t.api_key_fingerprint [ none ↦ true | some f ↦ false ]

abbrev pub has_print : Text → Terminal → Bool
has_print print t = elim t.api_key_fingerprint [ none ↦ false | some f ↦ text_eq f print ]

unfoldable pub write_print : ℕ → Text → List Terminal → List Terminal
write_print i print [] = []
write_print i print (t ∷ ts) =
    let rest = write_print i print ts in
    if t.id == i then (record t { api_key_fingerprint = some print }) ∷ ts else t ∷ rest

-- `fingerprint`, and `pwd_context.verify` of a key and a hash, which a broken hash fails
module _ (fingerprint : Text → Text) (verify : Text → Text → Bool) where
  unfoldable pub is_verified : Text → Terminal → Bool
  is_verified api_key t = not (is_empty t.api_key_hash) && verify api_key t.api_key_hash

  unfoldable pub backfill : Text → Terminal → List Terminal → List Terminal
  unfolding write_print
  backfill api_key t ts =
      if has_fingerprint t then ts else write_print t.id (fingerprint api_key) ts

  -- A terminal that is found and verified, with its fingerprint filled in
  verified_or : Text → Option Terminal → List Terminal → List Terminal × Option Terminal
  unfolding is_verified backfill
  verified_or api_key none ts = (ts, none)
  verified_or api_key (some t) ts =
      if is_verified api_key t then (backfill api_key t ts, some t) else (ts, none)

  unfoldable pub find_legacy : Text → List Terminal → Option Terminal
  unfolding is_verified
  find_legacy api_key [] = none
  find_legacy api_key (t ∷ ts) =
      let rest = find_legacy api_key ts in
      if t.is_active && is_legacy t && is_verified api_key t then some t else rest

  by_print : Text → List Terminal → List Terminal × Option Terminal
  unfolding is_verified find_legacy verified_or
  by_print api_key ts =
      let legacy = verified_or api_key (find_legacy api_key ts) ts in
      elim (first (where_ (λ t. has_print (fingerprint api_key) t && t.is_active) ts)) [
        | none ↦ legacy
        | some t ↦ if is_verified api_key t then (ts, some t) else legacy
      ]

  -- By the serial number if there is one, else by the fingerprint, else among the old rows
  unfoldable pub find_terminal :
      List Terminal → Text → Option Text → List Terminal × Option Terminal
  unfolding verified_or by_print
  find_terminal ts [] serial = (ts, none)
  find_terminal ts (c ∷ key) (some (d ∷ serial)) =
      verified_or (c ∷ key)
        (first (where_ (λ t. text_eq t.terminal_serial (d ∷ serial) && t.is_active) ts)) ts
  find_terminal ts (c ∷ key) _ = by_print (c ∷ key) ts
