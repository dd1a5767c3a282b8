-- ===== src/Service/Operator/Reconcile/Watching.antt =====
-- `handleWaitingForPR` of agenttask_controller.go.
use bulletfarm.Prelude.{ℕ, String, ◌<>◌, Option, none, some, [], ◌∷◌, ◌==◌, if◌then◌else◌}
use bulletfarm.Models.{PrStatusResponse}
use bulletfarm.Service.Operator.Task.{
  Phase, AgentTaskStatus, AgentTask, Answers, clean_up, graduate, done, after, Outcome,
  is_available,
}
use bulletfarm.Service.Operator.Reconcile.Update.{write, write_or_error, leave}

abbrev pub pr_poll_interval : ℕ
pr_poll_interval = 30

module _ (task : AgentTask) (answers : Answers) where
  abbrev pub close_with : String → AgentTaskStatus
  close_with message = record task.status { phase = Phase.closed; message = message }

  -- A pull request that a human has merged or closed.
  abbrev pub finish_pr : PrStatusResponse → Phase → String → Outcome
  finish_pr pr phase message =
      write_or_error task answers
        (record task.status { pr_state = pr.state; phase = phase; message = message })
        (graduate task.name ∷ clean_up task.status.worker_pod ∷ []) done

  unfoldable pub follow_pr : PrStatusResponse → Outcome
  follow_pr pr =
      if pr.merged
      then finish_pr pr Phase.merged "PR merged by reviewer"
      else if pr.state == "closed"
      then finish_pr pr Phase.closed "PR closed by reviewer without merge"
      else write_or_error task answers
          (record task.status {
            pr_state = pr.state;
            phase = Phase.waiting_for_pr;
            message =
                "PR open (draft="
                <> (if pr.draft then "true" else "false")
                <> "), awaiting human review";
          })
          [] (after pr_poll_interval)

  -- After `queryPRStatus`.
  unfoldable pub poll_pr : Option PrStatusResponse → Outcome
  unfolding follow_pr
  poll_pr none = leave task answers (after pr_poll_interval)
  poll_pr (some pr) = follow_pr pr

  unfoldable pub handle_waiting_for_pr : Outcome
  unfolding poll_pr is_available
  handle_waiting_for_pr =
      if task.status.pull_request_url == ""
      then write task answers (close_with "No PR was created")
          (clean_up task.status.worker_pod ∷ []) done
      else if is_available answers.pod
      then poll_pr answers.pr_status
      else write task answers (close_with "Worker pod unavailable, cannot track PR") [] done
