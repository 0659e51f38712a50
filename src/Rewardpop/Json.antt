-- ===== src/Rewardpop/Json.antt =====
-- The values of a reply of the provider, and the number of an order in them (`_find_identifier` of
-- app/services/rewardpop.py). Lower-casing is a parameter; a key stands once in its object.
use beautypos.Prelude.{
  ℕ, zero, suc, ◌+◌, ◌/◌, ◌%◌, Bool, true, false, ◌==◌, ltb, if◌then◌else◌, List, [], ◌∷◌, Option,
  none, some, any,
}
use beautypos.Prelude.Int.{ℤ, pos, negsuc}
use beautypos.Text.{Text, text_eq, codes, strip}

-- A whole number, or the whole part of a number with a fraction
mutual
  pub data Json : Type 0 where
    null : Json
    boolean : Bool → Json
    whole : ℤ → Json
    fraction : ℤ → Json
    text : Text → Json
    array : Items → Json
    object : Fields → Json

  pub data Items : Type 0 where
    no_item : Items
    item : Json → Items → Items

  pub data Fields : Type 0 where
    no_field : Fields
    field : Text → Json → Fields → Fields

-- `str(n)`; as much fuel as the number itself is more than it has digits.
unfoldable pub digits : ℕ → ℕ → Text → Text
digits zero n rest = rest
digits (suc fuel) n rest =
    let more = digits fuel (n / 10) ((48 + n % 10) ∷ rest) in
    if ltb n 10 then (48 + n) ∷ rest else more

unfoldable pub decimal : ℤ → Text
unfolding digits
decimal (pos n) = digits (suc n) n []
decimal (negsuc n) = 45 ∷ digits (suc (suc n)) (suc n) []

-- `key.replace("_", "")`
unfoldable pub without_underscores : Text → Text
without_underscores [] = []
without_underscores (c ∷ s) = let rest = without_underscores s in if c == 95 then rest else c ∷ rest

abbrev pub order_id_keys : List Text
order_id_keys =
    codes "externalorderid"
    ∷ codes "orderid"
    ∷ codes "orderno"
    ∷ codes "campaignid"
    ∷ codes "id"
    ∷ codes "uid"
    ∷ codes "no"
    ∷ []

abbrev pub is_among : List Text → Text → Bool
is_among names s = any (text_eq s) names

-- `str(value).strip()` of a text or a whole number, if it is not empty; a Boolean is a number there.
abbrev pub filled : Text → Option Text
filled [] = none
filled (c ∷ s) = some (c ∷ s)

unfoldable pub identifier_of : Json → Option Text
unfolding decimal
identifier_of (text s) = filled (strip s)
identifier_of (whole n) = some (decimal n)
identifier_of (boolean true) = some (codes "True")
identifier_of (boolean false) = some (codes "False")
identifier_of _ = none

abbrev pub first_of : Option Text → Option Text → Option Text
first_of (some s) other = some s
first_of none other = other

unfoldable pub status_text : Json → Option Text
status_text (text s) = filled (strip s)
status_text _ = none

module _ (lower : Text → Text) where
  unfoldable pub plain_key : Text → Text
  unfolding without_underscores
  plain_key key = without_underscores (lower key)

  -- The fields of an object that are looked at before the values inside it
  unfoldable pub direct_identifier : Fields → Option Text
  unfolding identifier_of plain_key
  direct_identifier no_field = none
  direct_identifier (field key v fs) =
      let rest = direct_identifier fs in
      if is_among order_id_keys (plain_key key) then first_of (identifier_of v) rest else rest

-- The value of a field of an object, and the values inside it after that
unfoldable mutual
  unfolding direct_identifier

  pub find_identifier : (Text → Text) → Json → Option Text
  find_identifier lower (object fs) =
      first_of (direct_identifier lower fs) (identifier_in_fields lower fs)
  find_identifier lower (array xs) = identifier_in_items lower xs
  find_identifier lower _ = none

  pub identifier_in_items : (Text → Text) → Items → Option Text
  identifier_in_items lower no_item = none
  identifier_in_items lower (item x xs) =
      first_of (find_identifier lower x) (identifier_in_items lower xs)

  pub identifier_in_fields : (Text → Text) → Fields → Option Text
  identifier_in_fields lower no_field = none
  identifier_in_fields lower (field key v fs) =
      first_of (find_identifier lower v) (identifier_in_fields lower fs)
