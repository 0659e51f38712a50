-- ===== src/Dispatch/Provider.antt =====
-- What the engine sends to the provider and what it gets back (`_build_request` of
-- app/services/ad_dispatch.py, and the results of app/services/rewardpop.py as the engine reads them).
use beautypos.Prelude.{
  ℕ, Bool, false, if◌then◌else◌, List, [], ◌∷◌, ◌++◌, Option, none, some, Result,
}
use beautypos.Prelude.Int.{ℤ, pos, eqb_ℤ}
use beautypos.Text.{Text, codes}
use beautypos.Calendar.{Date}
use beautypos.Dispatch.Config.{Setting, is_manual_mode}
use beautypos.Dispatch.Preview.{Item, Mission}

-- `SpecMissing`, and any other `RewardpopError` with whether a retry makes sense
pub data Error : Type 0 where
  spec_missing : Text → Error
  rewardpop_error : Text → Bool → Error

abbrev pub message_of : Error → Text
message_of (spec_missing text) = text
message_of (rewardpop_error text retryable) = text

abbrev pub is_retryable : Error → Bool
is_retryable (spec_missing text) = false
is_retryable (rewardpop_error text retryable) = retryable

-- The values of `EXTERNAL_STATUS_MAP`
pub data Reported : Type 0 where
  as_sent as_running as_stopped as_done as_failed : Reported

-- The numbers of `extract_counts` that the engine keeps
pub record Counts : Type 0 where
  pub delivered_count : Option ℤ
  pub reward_count : Option ℤ
  pub keyword_count : Option ℤ

pub record Reply : Type 0 where
  pub external_order_id : Option Text
  pub status : Option Reported
  pub raw_status : Option Text
  pub counts : Counts

-- What `get_ad_keywords` finds
pub record Found : Type 0 where
  pub keywords : List Text
  pub keyword_count : Option ℤ

pub record Payload : Type 0 where
  pub place_code : ℤ
  pub mission_category : Option Text
  pub mission_action : Option Text
  pub start_date : Date
  pub work_days : ℕ
  pub daily_quantity : ℕ
  pub keyword_mode : Text
  pub keywords : Option Text
  pub auto_count : Option ℤ

-- The answers of the provider: to the order of a row, and about an order by its number
pub record Provider : Type 0 where
  pub create_order : ℕ → Payload → Result Error Reply
  pub get_ad_keywords : Text → Result Error Found
  pub get_order_status : Text → Result Error Reply

-- `sep.join(words)`
unfoldable pub join : Text → List Text → Text
join sep [] = []
join sep (w ∷ []) = w
join sep (w ∷ v ∷ ws) = w ++ (sep ++ join sep (v ∷ ws))

-- `override or config_action`
abbrev pub or_else : Option Text → Option Text → Option Text
or_else (some (c ∷ s)) other = some (c ∷ s)
or_else _ other = other

abbrev pub category_in : Option Mission → Option Text
category_in none = none
category_in (some c) = c.mission_category

abbrev pub action_in : Option Mission → Option Text
action_in none = none
action_in (some c) = c.mission_action

-- `cfg.get("keyword_mode", "MANUAL")`
abbrev pub mode_in : Option Mission → Text
mode_in none = codes "MANUAL"
mode_in (some c) = c.keyword_mode

-- A count of 0 is not sent.
abbrev pub nonzero : Option ℤ → Option ℤ
nonzero none = none
nonzero (some n) = if eqb_ℤ n (pos 0) then none else some n

abbrev pub auto_count_in : Option Mission → Option ℤ
auto_count_in none = none
auto_count_in (some c) = nonzero c.auto_count

abbrev pub int_of : (Text → Option ℤ) → Option Text → Option ℤ
int_of to_int none = none
int_of to_int (some code) = to_int code

payload_of : Item → Date → ℤ → Payload
payload_of i day place =
    let mode = mode_in i.mission in
    record {
      place_code = place;
      mission_category = category_in i.mission;
      mission_action = or_else i.mission_action_override (action_in i.mission);
      start_date = day;
      work_days = 1;
      daily_quantity = i.target;
      keyword_mode = mode;
      keywords = if is_manual_mode mode then some (join (codes "|") i.keywords) else none;
      auto_count = if is_manual_mode mode then none else auto_count_in i.mission;
    }

-- Nothing where the conversion of the place code raises
unfoldable pub build_request : Setting → Item → Date → Option Payload
unfolding payload_of
build_request s i day = elim (int_of s.to_int i.place_code) [
  | none ↦ none
  | some place ↦ some (payload_of i day place)
]
