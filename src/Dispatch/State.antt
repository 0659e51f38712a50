-- ===== src/Dispatch/State.antt =====
-- The rows of the dispatch ledger and its database (app/models/ad_dispatch.py). Amounts are counted in
-- hundredths of a won, a time is a time stamp in seconds. The columns that only keep what was sent
-- and received as text, `request_json` and the replies in `response_json`, and the person who made the
-- row, are left out.
use beautypos.Prelude.{
  ℕ, zero, suc, Bool, true, false, ◌&&◌, not, ltb, ◌==◌, if◌then◌else◌, List, [], ◌∷◌, Option, none,
  some, ◌++◌,
}
use beautypos.Prelude.Int.{ℤ, pos}
use beautypos.Text.{Text, text_eq}
use beautypos.Calendar.{Date}
use beautypos.Plan.Rows.{AdType, number}
use beautypos.Plan.Summary.{Execution, date_eq}

pub data Source : Type 0 where
  auto order manual : Source

-- `DISPATCH_STATUSES`
pub data Status : Type 0 where
  pending dry_run sent running done stopped failed skipped manual_queued manual_done : Status

pub data SkipReason : Type 0 where
  no_keyword no_plan zero_target already_done integration_off no_price : SkipReason
  low_balance no_config no_place_code invalid_config : SkipReason

-- `EXECUTED_STATUSES`
unfoldable pub is_executed : Status → Bool
is_executed sent = true
is_executed running = true
is_executed done = true
is_executed stopped = true
is_executed manual_done = true
is_executed _ = false

-- The key before the mission's action is hung on to it. The texts that the source builds tell the
-- same keys apart.
pub data KeyBase : Type 0 where
  auto_key : ℕ → AdType → Date → KeyBase
  order_key : ℕ → AdType → KeyBase
  manual_key : ℕ → AdType → Date → KeyBase

pub record Key : Type 0 where
  pub base : KeyBase
  pub action : Option Text

auto_or_manual : Source → ℕ → AdType → Date → KeyBase
auto_or_manual manual m t d = manual_key m t d
auto_or_manual _ m t d = auto_key m t d

-- An order with the number 0 counts as none.
unfoldable pub build_idempotency_key : Source → ℕ → AdType → Date → Option ℕ → KeyBase
unfolding auto_or_manual
build_idempotency_key order m t d (some (suc i)) = order_key (suc i) t
build_idempotency_key source m t d _ = auto_or_manual source m t d

abbrev pub same_base : KeyBase → KeyBase → Bool
same_base (auto_key m t d) (auto_key n u e) = m == n && number t == number u && date_eq d e
same_base (order_key i t) (order_key j u) = i == j && number t == number u
same_base (manual_key m t d) (manual_key n u e) = m == n && number t == number u && date_eq d e
same_base _ _ = false

abbrev pub same_action : Option Text → Option Text → Bool
same_action none none = true
same_action (some s) (some t) = text_eq s t
same_action _ _ = false

unfoldable pub same_key : Key → Key → Bool
same_key a b = same_base a.base b.base && same_action a.action b.action

-- What is written into `error_message`; a sentence of another part stands for itself.
pub data Message : Type 0 where
  said : Text → Message
  registration_error : Message
  provider_status : Option Text → Message
  provider_stopped : Option Text → Message
  bad_mission bad_keyword_mode bad_auto_count place_code_not_numeric : Message
  points_short : ℕ → ℤ → Message

-- The notes on a manual completion that `response_json` keeps
pub record Meta : Type 0 where
  pub note : Option Text
  pub completed_by : Option ℕ
  pub completed_at : Option ℕ
  pub daily_target : Option ℕ
  pub reverted : Option (Option ℕ × ℕ)

-- `AdDispatch`
pub record Row : Type 0 where
  pub id : ℕ
  pub merchant_id : ℕ
  pub ad_type : AdType
  pub execution_date : Date
  pub source : Source
  pub ad_order_id : Option ℕ
  pub requested_count : ℕ
  pub keyword : Option Text
  pub status : Status
  pub skip_reason : Option SkipReason
  pub delivered_count : Option ℤ
  pub reward_count : Option ℤ
  pub keyword_count : Option ℤ
  pub keywords_json : Option (List Text)
  pub external_status : Option Text
  pub external_order_id : Option Text
  pub key : Key
  pub notes : Option Meta
  pub error_message : Option Message
  pub retry_count : ℕ
  pub next_retry_at : Option ℕ
  pub cost_amount : ℕ
  pub is_dry_run : Bool

-- `MAX_RETRY`
abbrev pub max_retry : ℕ
max_retry = 3

-- `RETRY_BACKOFF_MINUTES[min(n, 2)]`
abbrev pub backoff_minutes : ℕ → ℕ
backoff_minutes zero = 10
backoff_minutes (suc zero) = 30
backoff_minutes (suc (suc n)) = 120

abbrev pub or_count : Option ℤ → ℤ → ℤ
or_count none n = n
or_count (some k) n = k

unfoldable pub effective_count : Row → ℤ
effective_count r = or_count r.reward_count (or_count r.delivered_count (pos r.requested_count))

unfoldable pub counts_as_executed : Row → Bool
counts_as_executed r = is_executed r.status && not r.is_dry_run

abbrev pub is_failed : Status → Bool
is_failed failed = true
is_failed _ = false

abbrev pub is_manual_source : Source → Bool
is_manual_source manual = true
is_manual_source _ = false

unfoldable pub retryable : Row → Bool
retryable r = not (is_manual_source r.source) && (is_failed r.status && ltb r.retry_count max_retry)

-- `AdOrderStatus`
pub data OrderStatus : Type 0 where
  order_requested order_reviewing order_running order_done order_rejected : OrderStatus

-- An `AdOrder`, as far as the engine writes it
pub record Order : Type 0 where
  pub id : ℕ
  pub status : OrderStatus

-- The table with the id that comes next, the executions that the progress is read from, and the
-- orders of the merchants
pub record Db : Type 0 where
  pub rows : List Row
  pub next_id : ℕ
  pub executions : List Execution
  pub orders : List Order

-- A row as the database makes it, before an operation writes its columns
abbrev pub new_row : ℕ → ℕ → AdType → Date → Source → Option ℕ → Key → Row
new_row i m t d source order_id key = record {
  id = i;
  merchant_id = m;
  ad_type = t;
  execution_date = d;
  source = source;
  ad_order_id = order_id;
  requested_count = 0;
  keyword = none;
  status = pending;
  skip_reason = none;
  delivered_count = none;
  reward_count = none;
  keyword_count = none;
  keywords_json = none;
  external_status = none;
  external_order_id = none;
  key = key;
  notes = none;
  error_message = none;
  retry_count = 0;
  next_retry_at = none;
  cost_amount = 0;
  is_dry_run = false;
}

-- `.filter(idempotency_key == key).first()`
unfoldable pub find_key : Key → List Row → Option Row
find_key k [] = none
find_key k (r ∷ rs) = let rest = find_key k rs in if same_key r.key k then some r else rest

unfoldable pub find_row : ℕ → List Row → Option Row
find_row i [] = none
find_row i (r ∷ rs) = let rest = find_row i rs in if r.id == i then some r else rest

-- The columns of the row of an id are written.
unfoldable pub update_row : ℕ → (Row → Row) → List Row → List Row
update_row i f [] = []
update_row i f (r ∷ rs) = let rest = update_row i f rs in if r.id == i then f r ∷ rs else r ∷ rest

-- The row of the key is written, and made before if there is none; with the row.
unfoldable pub upsert : Key → (Row → Row) → (ℕ → Row) → Db → Db × Row
unfolding find_key update_row
upsert k f make db = elim (find_key k db.rows) [
  | some r ↦ ((record db { rows = update_row r.id f db.rows }), f r)
  | none ↦
      let made = f (make db.next_id) in
      ((record db { rows = db.rows ++ (made ∷ []); next_id = suc db.next_id }), made)
]
