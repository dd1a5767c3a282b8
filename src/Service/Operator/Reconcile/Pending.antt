-- ===== src/Service/Operator/Reconcile/Pending.antt =====
-- `handlePending` of agenttask_controller.go.
use bulletfarm.Prelude.{String, ◌<>◌, Option, none, some, List, [], ◌∷◌, decimal, if◌then◌else◌}
use bulletfarm.Service.Operator.{payload_of, payload_branch, is_retry_of}
use bulletfarm.Service.Operator.Task.{
  Phase, AgentTaskStatus, AgentTask, AgentSpec, Creation, refused, Answers, PodCall, create, Next,
  after, Outcome, pod_name, assignment_of, requeue_after,
}
use bulletfarm.Service.Operator.Reconcile.Update.{write, write_or_error, leave}

module _ (task : AgentTask) (answers : Answers) where
  abbrev pub this_pod : String
  this_pod = pod_name task.name task.status.retry_count

  unfoldable pub started_status : AgentSpec → AgentTaskStatus
  unfolding payload_branch
  started_status agent = record task.status {
    phase = Phase.running;
    progress = 5;
    worker_pod = this_pod;
    started_at = some answers.now;
    message =
        if is_retry_of (assignment_of task agent)
        then "Retry "
          <> decimal task.status.retry_count
          <> " started, pushing to existing branch "
          <> payload_branch (assignment_of task agent)
        else "Worker pod created, starting task";
  }

  -- After `r.Create(ctx, pod)`.
  unfoldable pub start_with : AgentSpec → List PodCall → Creation → Outcome
  unfolding started_status
  start_with agent calls (refused exc) =
      write task answers (record task.status { message = "Failed to create pod: " <> exc }) calls
        (after requeue_after)
  start_with agent calls _ =
      write_or_error task answers (started_status agent) calls (after requeue_after)

  unfoldable pub start_pod : AgentSpec → Outcome
  unfolding start_with pod_name payload_of
  start_pod agent =
      start_with agent (create this_pod (payload_of (assignment_of task agent)) ∷ [])
        answers.creation

  -- `handlePending`, with the answer for the agent. `%q` quotes the name, which Kubernetes restricts
  -- to characters that stand for themselves.
  unfoldable pub handle_pending : Option AgentSpec → Outcome
  unfolding start_pod
  handle_pending none =
      write task answers
        (record task.status { message = "Agent \"" <> task.agent_ref <> "\" not found" }) []
        (after requeue_after)
  handle_pending (some agent) =
      if answers.owned then start_pod agent else leave task answers Next.error
