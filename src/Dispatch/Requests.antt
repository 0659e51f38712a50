-- ===== src/Dispatch/Requests.antt =====
-- The requests to the engine in any order (app/services/ad_dispatch.py, the routes of
-- app/api/admin/dispatch_routes.py and the two jobs of the scheduler). The settings, the plans and the
-- answers of the provider may be others for each request.
use beautypos.Prelude.{ℕ, Bool, List, [], ◌∷◌, Option, Result, ok, err}
use beautypos.Calendar.{Date}
use beautypos.Plan.Rows.{AdType}
use beautypos.Dispatch.State.{Row, Db}
use beautypos.Dispatch.Config.{Setting}
use beautypos.Dispatch.Gate.{Budget}
use beautypos.Dispatch.Provider.{Provider, Reply, Error}
use beautypos.Dispatch.Execute.{run}
use beautypos.Dispatch.Orders.{AdOrder, dispatch_ad_order, retry_dispatch}
use beautypos.Dispatch.Track.{refresh_statuses}
use beautypos.Dispatch.Completion.{Completion, ManualError, complete_manual, revert_manual_dispatch}
use beautypos.Dispatch.Blog.{BlogPayload, dispatch_blog_monthly}

pub data Request : Type 0 where
  running_day : Setting → Provider → ℕ → Date → Option ℕ → Option Bool → Budget → Request
  retrying : Setting → Provider → ℕ → ℕ → Request
  ordering : Setting → Provider → ℕ → Date → AdOrder → Request
  refreshing : Provider → Option Date → ℕ → Request
  completing : Setting → ℕ → ℕ → AdType → Date → Completion → Request
  reverting : ℕ → AdType → Date → Option ℕ → ℕ → Request
  blogging :
      Setting → (ℕ → BlogPayload → Result Error Reply) → ℕ → Date → Option ℕ → Bool → ℕ → Request

-- A request that raises before it commits leaves the database alone.
abbrev pub after : Db → Result ManualError (Db × Row) → Db
after db (ok r) = r.0
after db (err e) = db

unfoldable pub step : Db → Request → Db
unfolding run retry_dispatch dispatch_ad_order refresh_statuses complete_manual
    revert_manual_dispatch dispatch_blog_monthly
step db (running_day s p now day only dry budget) = (run s p now db day only dry budget).0
step db (retrying s p now i) = (retry_dispatch s p now db i).0
step db (ordering s p now today o) = (dispatch_ad_order s p now db today o).0
step db (refreshing p day limit) = (refresh_statuses p db day limit).0
step db (completing s now m t day c) = after db (complete_manual s db now m t day c)
step db (reverting m t day actor now) = after db (revert_manual_dispatch db m t day actor now)
step db (blogging s client now day only dry hour) =
    (dispatch_blog_monthly client s now db day only dry hour).0

unfoldable pub steps : Db → List Request → Db
unfolding step
steps db [] = db
steps db (q ∷ qs) = steps (step db q) qs

abbrev pub empty : Db
empty = record { rows = []; next_id = 1; executions = []; orders = [] }
