-- ===== src/Service/Operator/Reconcile/Running.antt =====
-- `handleRunning` and `queryWorkerStatus` of agenttask_controller.go.
use bulletfarm.Prelude.{String, ◌<>◌, ◌||◌, Option, none, some, [], ◌∷◌, ◌==◌, if◌then◌else◌}
use bulletfarm.Models.{TaskStatus, phase_value}
use bulletfarm.Service.Routes.{Response, reply, http_error}
use bulletfarm.Service.Operator.Task.{
  Phase, AgentTaskStatus, AgentTask, WorkerStatus, PodPhase, pod_failed, pod_succeeded, pod_running,
  pod_other, Lookup, found, missing, unanswered, Answers, finalize, done, requeue, after, Outcome,
  mentions, requeue_after,
}
use bulletfarm.Service.Operator.Reconcile.Update.{write, write_or_error, leave}

-- `queryWorkerStatus`, of what the worker replies: the fields of the JSON text by their names.
unfoldable pub read_status : Response TaskStatus → Option WorkerStatus
unfolding phase_value
read_status (reply status) = some (record {
  task_id = status.task_id;
  phase = phase_value status.phase;
  progress = status.progress;
  message = status.message;
  pull_request_url = status.pull_request_url;
  rate_limited = status.rate_limited;
  incomplete_reason = status.incomplete_reason;
})
read_status (http_error code detail) = none

module _ (task : AgentTask) (answers : Answers) where
  abbrev pub fail_with : String → String → AgentTaskStatus
  fail_with message reason = record task.status {
    phase = Phase.failed;
    message = message;
    last_failure_reason = reason;
  }

  -- `task.Status` with the progress, the message and the address of the worker's reply.
  abbrev pub polled_status : WorkerStatus → AgentTaskStatus
  polled_status status = record task.status {
    progress = status.progress;
    message = status.message;
    pull_request_url =
        if status.pull_request_url == ""
        then task.status.pull_request_url
        else status.pull_request_url;
  }

  unfoldable pub incomplete_message : WorkerStatus → String
  incomplete_message status =
      if status.incomplete_reason == ""
      then "Task incomplete: agent could not make meaningful changes"
      else "Task incomplete: " <> status.incomplete_reason

  unfoldable pub failure_reason : WorkerStatus → String
  failure_reason status =
      if status.rate_limited
        || (mentions status.message "rate limit" || mentions status.message "429")
      then "rate_limited"
      else "worker_failed"

  -- `switch status.Phase`, with the update and the return that follow it.
  unfoldable pub follow_worker : WorkerStatus → Outcome
  unfolding incomplete_message failure_reason
  follow_worker status =
      let polled = polled_status status in
      if (status.phase == "Succeeded") || (status.phase == "Completed")
      then write_or_error task answers
          (record polled {
            phase = Phase.waiting_for_pr;
            progress = 100;
            completed_at = some answers.now;
            message = "Task completed — PR marked ready for review, awaiting human action";
            pr_state = "open";
          })
          (finalize task.name ∷ []) done
      else if status.phase == "Incomplete"
      then write_or_error task answers
          (record polled {
            phase = Phase.failed;
            last_failure_reason = "incomplete";
            message = incomplete_message status;
          })
          [] requeue
      else if status.phase == "Failed"
      then write_or_error task answers
          (record polled { phase = Phase.failed; last_failure_reason = failure_reason status }) []
          requeue
      else write_or_error task answers polled [] (after requeue_after)

  -- After `queryWorkerStatus`.
  unfoldable pub poll_worker : Option WorkerStatus → Outcome
  unfolding follow_worker
  poll_worker none = leave task answers (after requeue_after)
  poll_worker (some status) = follow_worker status

  -- `switch pod.Status.Phase`, of a task that is running.
  unfoldable pub follow_pod : (ip : String) → PodPhase → Outcome
  unfolding poll_worker
  follow_pod ip pod_failed =
      write task answers (fail_with "Worker pod failed" "pod_failed") [] requeue
  follow_pod ip pod_succeeded =
      write task answers
        (record task.status {
          phase = Phase.completed;
          progress = 100;
          completed_at = some answers.now;
          message = "Task completed";
        })
        [] done
  follow_pod ip pod_running =
      if ip == ""
      then leave task answers (after requeue_after)
      else poll_worker answers.worker_status
  follow_pod ip pod_other = leave task answers (after requeue_after)

  -- `handleRunning`, with the answer for the pod.
  unfoldable pub handle_running : Lookup → Outcome
  unfolding follow_pod
  handle_running missing =
      write task answers (fail_with "Worker pod not found" "pod_disappeared") [] requeue
  handle_running unanswered = leave task answers (after requeue_after)
  handle_running (found pod) = follow_pod pod.pod_ip pod.phase
