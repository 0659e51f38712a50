-- ===== src/Rewardpop/Status.antt =====
-- The state of an order in a reply (`map_external_status` of app/services/rewardpop.py).
use beautypos.Prelude.{◌==◌, if◌then◌else◌, List, [], ◌∷◌, Option, none, some}
use beautypos.Text.{Text, text_eq, codes}
use beautypos.Dispatch.Provider.{Reported, as_sent, as_running, as_stopped, as_done, as_failed}
use beautypos.Rewardpop.Json.{
  Json, array, object, Items, no_item, item, Fields, no_field, field, is_among, first_of,
  status_text,
}

-- `k.lower() in STATUS_KEYS`, and a text that is not blank
abbrev pub status_keys : List Text
status_keys =
    codes "status"
    ∷ codes "state"
    ∷ codes "order_status"
    ∷ codes "campaign_status"
    ∷ codes "result"
    ∷ []

module _ (lower : Text → Text) where
  unfoldable pub direct_status : Fields → Option Text
  unfolding status_text
  direct_status no_field = none
  direct_status (field key v fs) =
      let rest = direct_status fs in
      if is_among status_keys (lower key) then first_of (status_text v) rest else rest

unfoldable mutual
  unfolding direct_status

  pub find_status : (Text → Text) → Json → Option Text
  find_status lower (object fs) = first_of (direct_status lower fs) (status_in_fields lower fs)
  find_status lower (array xs) = status_in_items lower xs
  find_status lower _ = none

  pub status_in_items : (Text → Text) → Items → Option Text
  status_in_items lower no_item = none
  status_in_items lower (item x xs) = first_of (find_status lower x) (status_in_items lower xs)

  pub status_in_fields : (Text → Text) → Fields → Option Text
  status_in_fields lower no_field = none
  status_in_fields lower (field key v fs) =
      first_of (find_status lower v) (status_in_fields lower fs)

-- `EXTERNAL_STATUS_MAP.get(raw.lower().replace("-", "_"))`
unfoldable pub with_underscores : Text → Text
with_underscores [] = []
with_underscores (c ∷ s) = (if c == 45 then 95 else c) ∷ with_underscores s

abbrev pub status_table : List (Text × Reported)
status_table =
    (codes "active", as_running)
    ∷ (codes "pending", as_sent)
    ∷ (codes "stop", as_stopped)
    ∷ (codes "stopped", as_stopped)
    ∷ (codes "done", as_done)
    ∷ (codes "complete", as_done)
    ∷ (codes "completed", as_done)
    ∷ (codes "finished", as_done)
    ∷ (codes "success", as_done)
    ∷ (codes "succeeded", as_done)
    ∷ (codes "running", as_running)
    ∷ (codes "progress", as_running)
    ∷ (codes "in_progress", as_running)
    ∷ (codes "processing", as_running)
    ∷ (codes "waiting", as_running)
    ∷ (codes "fail", as_failed)
    ∷ (codes "failed", as_failed)
    ∷ (codes "error", as_failed)
    ∷ (codes "cancel", as_failed)
    ∷ (codes "cancelled", as_failed)
    ∷ (codes "canceled", as_failed)
    ∷ (codes "rejected", as_failed)
    ∷ []

unfoldable pub look_up : Text → List (Text × Reported) → Option Reported
look_up key [] = none
look_up key ((name, status) ∷ rest) =
    let further = look_up key rest in if text_eq name key then some status else further

-- The status, if it is known, and the text it was read from
unfoldable pub map_external_status : (Text → Text) → Json → Option Reported × Option Text
unfolding find_status with_underscores look_up
map_external_status lower body = elim (find_status lower body) [
  | none ↦ (none, none)
  | some raw ↦ (look_up (with_underscores (lower raw)) status_table, some raw)
]
