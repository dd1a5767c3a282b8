-- ===== src/Agent/Run/Outcome.antt =====
-- `run_task` always ends with a status for its task, in one of three phases.
use bulletfarm.Prelude.{String, ◌≡◌, refl, false, List}
use bulletfarm.Prelude.Exec.{Exn, ok, pure}
use bulletfarm.Prelude.Triple.{
  Triple, Ends, Always, Triple-pure, Triple-bind, Triple-if, Triple-attempt,
}
use bulletfarm.Outside.{Message, History}
use bulletfarm.Models.{TaskPhase, TaskStatus}
use bulletfarm.Agent.Session.{World, Session}
use bulletfarm.Agent.Rules.{Anything, Keeps-any, before}
use bulletfarm.Agent.Run.Whole.{run_task_of_body}
use bulletfarm.Agent.Run.{
  evaluate, run_steps, store_failure, failure_status, handle_failure, run_body, run_task,
}
use bulletfarm.Github.Client.{RepoInfo}
use bulletfarm.Agent.Finish.{finish_incomplete, handle_incomplete, finish_changes, handle_changes}

-- The phases that a run ends in, each with its progress and with what it may report.
abbrev pub EndsIn : TaskPhase → TaskStatus → Type 0
EndsIn TaskPhase.succeeded status =
    (status.progress ≡ 100) × (status.rate_limited ≡ false) × (status.incomplete_reason ≡ "")
EndsIn TaskPhase.incomplete status = (status.progress ≡ 100) × (status.rate_limited ≡ false)
EndsIn TaskPhase.failed status = (status.progress ≡ 0) × (status.incomplete_reason ≡ "")
EndsIn _ status = ⊥

abbrev pub IsOutcome : String → TaskStatus → Type 0
IsOutcome task_id status = (status.task_id ≡ task_id) × EndsIn status.phase status

module _ (w : World) where
  abbrev Good : TaskStatus → Session → Type 0
  Good status s = IsOutcome w.request.task_id status

  changes-Good :
      (info : RepoInfo) (out : String) (tools : List String)
      → Triple Anything (handle_changes w info out tools) Good Anything
  unfolding handle_changes finish_changes
  changes-Good info out tools = search (before, Triple-pure) depth 9

  incomplete-Good :
      (info : RepoInfo) (out : String) (tools : List String)
      → Triple Anything (handle_incomplete w info out tools) Good Anything
  unfolding handle_incomplete finish_incomplete
  incomplete-Good info out tools = search (before, Triple-pure) depth 14

  evaluate-Good :
      (info : RepoInfo) (messages : List Message)
      → Triple Anything (evaluate w info messages) Good Anything
  unfolding evaluate
  evaluate-Good info messages = search (before, Triple-if, changes-Good, incomplete-Good) depth 14

  steps-Good : Triple Anything (run_steps w) Good Anything
  unfolding run_steps
  steps-Good = search (before, evaluate-Good) depth 9

  -- The handler raises nothing.
  abbrev Never : Session → Type 0
  Never s = ⊥

  pub store_failure-total :
      (exc : Exn) → Triple Anything (store_failure w exc) (Always Anything) Never
  unfolding store_failure
  store_failure-total exc =
      Triple-attempt Anything _ (Always Anything) Anything Never (λ e. pure tt) (Keeps-any _)
        (λ e. Triple-pure Anything (Always Anything) Never tt (λ s h. tt))

  failure-Good : (exc : Exn) → Triple Anything (handle_failure w exc) Good Never
  unfolding handle_failure failure_status
  failure-Good exc =
      Triple-bind Anything (store_failure w exc) (Always Anything)
        (λ _ s. (ok (failure_status w s.pr_url exc), s)) Good Never (store_failure-total exc)
        (λ _. record { at = λ s h. (refl, (refl, refl)) })

  body-Good : Triple Anything (run_body w) Good Never
  unfolding run_body
  body-Good =
      Triple-attempt Anything (run_steps w) Good Anything Never (handle_failure w) steps-Good
        failure-Good

  abbrev Outcome : TaskStatus → History → Type 0
  Outcome status h = IsOutcome w.request.task_id status

  -- Whatever the services outside answer or raise, `run_task` returns a status for its task: no
  -- exception comes through. The phase is Succeeded or Incomplete, with progress 100 and no rate
  -- limit, or Failed, with progress 0. A task that succeeded or failed has no incomplete reason.
  pub run_task-Settles :
      (h : History) → Ends (λ status _. IsOutcome w.request.task_id status) (λ _. ⊥) (run_task w h)
  run_task-Settles = run_task_of_body w Outcome (λ _. ⊥) body-Good
