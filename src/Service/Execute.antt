-- ===== src/Service/Execute.antt =====
-- `_execute_task` of main.py as a whole: the run of the agent, with each of its progress reports
-- taken into the registry, and its end.
pub mod Laws
use bulletfarm.Prelude.{String, List, [], ◌∷◌, ℕ}
use bulletfarm.Outside.{Call, History}
use bulletfarm.Agent.Session.{World}
use bulletfarm.Agent.Run.{run_task}
use bulletfarm.Service.Routes.{Registry}
use bulletfarm.Service.Background.{update_progress, finish_task}

-- The registry after the reports in a history of calls, the latest first. `progress_callback` is
-- `_update_progress`.
unfoldable pub reported : History → Registry → Registry
unfolding update_progress
reported [] statuses = statuses
reported (Call.report task_id n message ∷ h) statuses =
    update_progress task_id n message (reported h statuses)
reported (_ ∷ h) statuses = reported h statuses

unfoldable pub execute_task : World → Registry → Registry
unfolding reported finish_task
execute_task w statuses =
    let (result, h) = run_task w [] in finish_task w.request result (reported h statuses)
