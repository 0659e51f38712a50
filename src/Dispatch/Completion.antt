-- ===== src/Dispatch/Completion.antt =====
-- Marking an order as placed by hand, and taking that back (`complete_manual` and `revert_manual` of
-- app/services/ad_dispatch.py).
use beautypos.Prelude.{
  ℕ, ◌*◌, false, not, ◌==◌, if◌then◌else◌, Option, none, some, any, Result, ok, err, ◌>>◌, raise_if,
}
use beautypos.Prelude.Int.{ℤ, pos, leb_ℤ, pos_part}
use beautypos.Text.{Text, or_none, or_empty, strip}
use beautypos.Calendar.{Date}
use beautypos.Plan.Rows.{AdType}
use beautypos.Dispatch.State.{
  Row, Db, Meta, manual, manual_done, manual_queued, is_manual_source, find_key, upsert, new_row,
}
use beautypos.Dispatch.Config.{Setting, Merchant}
use beautypos.Dispatch.Rows.{sync_execution, write_and_sync}
use beautypos.Dispatch.Manual.{is_manual_type, manual_row_key, manual_target}

pub data ManualError : Type 0 where
  not_manual_type no_merchant count_below_1 not_manual_row no_row : ManualError

-- What the administrator enters
pub record Completion : Type 0 where
  pub count : Option ℤ
  pub external_order_id : Option Text
  pub note : Option Text
  pub actor_id : Option ℕ

abbrev pub final_count : Option ℤ → ℕ → ℤ
final_count none target = pos target
final_count (some n) target = n

unfoldable pub completed_row : Completion → ℕ → ℕ → ℕ → ℕ → Row → Row
completed_row c now target price count r = record r {
  requested_count = count;
  delivered_count = some (pos count);
  status = manual_done;
  skip_reason = none;
  error_message = none;
  next_retry_at = none;
  is_dry_run = false;
  external_order_id = or_none (strip (or_empty c.external_order_id));
  cost_amount = price * count;
  notes = some (record {
    note = or_none (strip (or_empty c.note));
    completed_by = c.actor_id;
    completed_at = some now;
    daily_target = some target;
    reverted = none;
  });
}

unfoldable pub complete_checked : Setting → Db → ℕ → ℕ → AdType → Date → ℕ → Completion → Db × Row
unfolding upsert completed_row manual_row_key manual_target
complete_checked s db now m t day count c =
    upsert (manual_row_key m t day)
      (completed_row c now (manual_target s m t day) (s.unit_price t) count)
      (λ n. new_row n m t day manual none (manual_row_key m t day)) db

unfoldable pub synced : ℕ → AdType → Date → Db × Row → Db × Row
unfolding sync_execution
synced m t day (db, r) = (sync_execution db m t day, r)

unfoldable pub complete_manual :
    Setting → Db → ℕ → ℕ → AdType → Date → Completion → Result ManualError (Db × Row)
unfolding complete_checked sync_execution manual_target
complete_manual s db now m t day c = do
  raise_if (not (is_manual_type t)) not_manual_type
  raise_if (not (any (λ (x : Merchant). x.id == m) s.merchants)) no_merchant
  let count = final_count c.count (manual_target s m t day)
  raise_if (leb_ℤ count (pos 0)) count_below_1
  ok (synced m t day (complete_checked s db now m t day (pos_part count) c))

-- The notes are kept and marked; notes that were never made start empty.
abbrev pub marked : Option Meta → Option ℕ → ℕ → Meta
marked (some notes) actor now = record notes { reverted = some (actor, now) }
marked none actor now = record {
  note = none;
  completed_by = none;
  completed_at = none;
  daily_target = none;
  reverted = some (actor, now);
}

unfoldable pub reverted_row : Option ℕ → ℕ → Row → Row
reverted_row actor now r = record r {
  notes = some (marked r.notes actor now);
  status = manual_queued;
  delivered_count = none;
  cost_amount = 0;
}

unfoldable pub revert_manual : Db → Row → Option ℕ → ℕ → Result ManualError (Db × Row)
unfolding write_and_sync reverted_row
revert_manual db r actor now =
    if is_manual_source r.source
    then ok (write_and_sync db r (reverted_row actor now), reverted_row actor now r)
    else err not_manual_row

-- `POST /ad-dispatch/manual-queue/revert`
unfoldable pub revert_manual_dispatch :
    Db → ℕ → AdType → Date → Option ℕ → ℕ → Result ManualError (Db × Row)
unfolding find_key manual_row_key revert_manual
revert_manual_dispatch db m t day actor now = elim (find_key (manual_row_key m t day) db.rows) [
  | none ↦ err no_row
  | some r ↦ revert_manual db r actor now
]
