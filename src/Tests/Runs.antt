-- ===== src/Tests/Runs.antt =====
-- The results on a run and on the pull requests, at concrete inputs.
use bulletfarm.Prelude.{◌≡◌, ◌⊎◌, [], ◌∷◌, keep}
use bulletfarm.Prelude.Triple.{Ends}
use bulletfarm.Outside.{History}
use bulletfarm.Models.{new_status, TaskPhase, TaskStatus}
use bulletfarm.Agent.Run.{run_task}
use bulletfarm.Agent.Run.Outcome.{IsOutcome, run_task-Settles}
use bulletfarm.Agent.Run.Pushed.{HasPushed, run_task-FailedOrPushed}
use bulletfarm.Github.Client.{cleanup_pr}
use bulletfarm.Github.Calls.{Refused}
use bulletfarm.Github.Cleanup.{IsTrue, cleanup_pr-IsTrue}
use bulletfarm.Agent.Run.Percents.{UpTo}
use bulletfarm.Agent.Run.Rising.{run_task-Rises}
use bulletfarm.Agent.Run.Attempts.{run_task-Attempts}
use bulletfarm.Agent.Run.Budget.{Within}
use bulletfarm.Agent.Run.Harmless.{is_drastic, run_task-Harmless}
use bulletfarm.Service.Finalize.{Careful, finalize_task-Careful}
use bulletfarm.Service.Routes.{Registry, finalize_task}
use bulletfarm.Tests.{world, github}

run_task-Settles_example :
    Ends (λ (status : TaskStatus) (_ : History). IsOutcome "t1" status) (λ _. ⊥) (run_task world [])
run_task-Settles_example = run_task-Settles world []

run_task-FailedOrPushed_example :
    Ends
      (λ (status : TaskStatus) (h : History). (status.phase ≡ TaskPhase.failed) ⊎ HasPushed world h)
      (λ _. Unit)
      (run_task world [])
run_task-FailedOrPushed_example = run_task-FailedOrPushed world []

run_task-Rises_example : Ends (λ (_ : TaskStatus). UpTo [] 98) (UpTo [] 98) (run_task world [])
run_task-Rises_example = run_task-Rises world []

run_task-Attempts_example :
    Ends (λ (_ : TaskStatus). Within (3, 45)) (Within (3, 45)) (run_task world [])
run_task-Attempts_example = run_task-Attempts world []

run_task-Harmless_example :
    Ends
      (λ (_ : TaskStatus) (h : History). keep is_drastic h ≡ [])
      (λ h. keep is_drastic h ≡ [])
      (run_task world [])
run_task-Harmless_example = run_task-Harmless world []

abbrev ended : Registry
ended =
    (
      "t1",
      record (new_status "t1" TaskPhase.succeeded) {
        pull_request_url = "https://github.com/o/r/pull/7";
      },
    )
    ∷ []

finalize_task-Careful_example :
    Ends (Careful github "t1" ended []) (λ _. ⊥) (finalize_task github "t1" ended [])
finalize_task-Careful_example = finalize_task-Careful github "t1" ended []

cleanup_pr-IsTrue_example :
    Ends
      (IsTrue github "https://github.com/o/r/pull/7" [])
      (Refused github "https://github.com/o/r/pull/7" [])
      (cleanup_pr github "https://github.com/o/r/pull/7" [])
cleanup_pr-IsTrue_example = cleanup_pr-IsTrue github "https://github.com/o/r/pull/7" []
