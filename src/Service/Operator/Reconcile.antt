-- ===== src/Service/Operator/Reconcile.antt =====
-- The life of a task at the operator: `Reconcile` of agenttask_controller.go with its handlers. One
-- call of it asks each service outside at most once, so the answers come as a record. The counts are
-- ints of Go that are not negative. Left out is `updateAgentStatus`, which writes no task.
pub mod Update
pub mod Pending
pub mod Running
pub mod Watching
pub mod Life
pub mod Steps
pub mod Pods
pub mod Polled
pub mod Spawned
use bulletfarm.Prelude.{
  ℕ, suc, ◌<>◌, none, List, [], ◌∷◌, ◌*◌, ◌++◌, ltb, decimal, ◌==◌, if◌then◌else◌,
}
use bulletfarm.Service.Operator.Task.{
  Phase, AgentTask, Answers, PodCall, clean_up, done, requeue, after, Outcome, retry_limit,
}
use bulletfarm.Service.Operator.Reconcile.Update.{write, write_or_error, leave}
use bulletfarm.Service.Operator.Reconcile.Pending.{handle_pending}
use bulletfarm.Service.Operator.Reconcile.Running.{handle_running}
use bulletfarm.Service.Operator.Reconcile.Watching.{handle_waiting_for_pr}

abbrev pub retry_backoff : ℕ
retry_backoff = 30

module _ (task : AgentTask) (answers : Answers) where
  abbrev pub cleaning : List PodCall
  cleaning = if task.status.worker_pod == "" then [] else clean_up task.status.worker_pod ∷ []

  unfoldable pub handle_failed : Outcome
  handle_failed =
      if ltb task.status.retry_count (retry_limit task)
      then write_or_error task answers
          (record task.status {
            retry_count = suc task.status.retry_count;
            phase = Phase.pending;
            progress = 0;
            worker_pod = "";
            started_at = none;
            completed_at = none;
            message =
                "Retrying (attempt "
                <> decimal (suc task.status.retry_count)
                <> "/"
                <> decimal (retry_limit task)
                <> ") on same branch: "
                <> task.status.last_failure_reason;
          })
          cleaning (after (retry_backoff * suc task.status.retry_count))
      else write task answers
          (record task.status {
            message =
                "Permanently failed after "
                <> decimal task.status.retry_count
                <> " attempts: "
                <> task.status.last_failure_reason
                <> ". PR left open for human review.";
          })
          cleaning done

  -- `switch task.Status.Phase`
  unfoldable pub handle_phase : Phase → Outcome
  unfolding handle_pending handle_running handle_failed handle_waiting_for_pr
  handle_phase Phase.unset =
      write_or_error task answers (record task.status { phase = Phase.pending; progress = 0 }) []
        requeue
  handle_phase Phase.pending = handle_pending task answers answers.agent
  handle_phase Phase.running = handle_running task answers answers.pod
  handle_phase Phase.failed = handle_failed
  handle_phase Phase.completed = handle_waiting_for_pr task answers
  handle_phase Phase.waiting_for_pr = handle_waiting_for_pr task answers
  handle_phase (Phase.unknown phase) =
      write task answers (record task.status { phase = Phase.pending }) [] requeue
  handle_phase _ = leave task answers done

  -- `Reconcile` of a task that is there.
  unfoldable pub reconcile : Outcome
  unfolding handle_phase
  reconcile = handle_phase task.status.phase

-- One call after another, each on the task that the last one stored.
unfoldable pub reconciles : AgentTask → List Answers → AgentTask × List PodCall
unfolding reconcile
reconciles task [] = (task, [])
reconciles task (answers ∷ more) =
    let o = reconcile task answers in
    let (later, calls) = reconciles (record task { status = o.status }) more in
    (later, o.calls ++ calls)
