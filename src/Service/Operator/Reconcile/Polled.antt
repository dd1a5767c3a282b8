-- ===== src/Service/Operator/Reconcile/Polled.antt =====
-- The operator and the worker together: what `Reconcile` makes of the status that a run has left.
use bulletfarm.Prelude.{String, ◌≡◌, refl, true, false, [], ◌∷◌, ◌==◌}
use bulletfarm.Models.{TaskPhase, TaskStatus, phase_value}
use bulletfarm.Agent.Run.Outcome.{EndsIn}
use bulletfarm.Service.Routes.{reply}
use bulletfarm.Service.Operator.Task.{
  Phase, AgentTask, pod_running, found, Answers, finalize, done, requeue, Outcome,
}
use bulletfarm.Service.Operator.Reconcile.Running.{
  read_status, follow_worker, failure_reason, poll_worker, follow_pod, handle_running,
}
use bulletfarm.Service.Operator.Reconcile.{handle_phase, reconcile}

-- What the operator does about a run by the phase that it ended in.
abbrev pub Followed : AgentTask → TaskStatus → TaskPhase → Outcome → Type 0
Followed task status TaskPhase.succeeded o =
    (o.status.phase ≡ Phase.waiting_for_pr) × (o.calls ≡ finalize task.name ∷ []) × (o.next ≡ done)
Followed task status TaskPhase.incomplete o =
    (o.status.phase ≡ Phase.failed)
    × (o.status.last_failure_reason ≡ "incomplete")
    × (o.calls ≡ [])
    × (o.next ≡ requeue)
Followed task status _ o =
    (o.status.phase ≡ Phase.failed)
    × (o.status.message ≡ status.message)
    × (status.rate_limited ≡ true → o.status.last_failure_reason ≡ "rate_limited")
    × (o.calls ≡ [])
    × (o.next ≡ requeue)

module _ (task : AgentTask) (answers : Answers) where
  pub follow_read :
      (status : TaskStatus) (p : TaskPhase)
      → status.phase ≡ p
      → EndsIn p status
      → answers.updated ≡ true
      → Followed task status p (poll_worker task answers (read_status (reply status)))
  unfolding follow_worker poll_worker read_status phase_value failure_reason
  follow_read status TaskPhase.succeeded e ends up = rw (e, up) (refl, refl, refl)
  follow_read status TaskPhase.incomplete e ends up = rw (e, up) (refl, refl, refl, refl)
  follow_read status TaskPhase.failed e ends up =
      rw (e, up) (refl, refl, (λ limited. rw limited refl), refl, refl)
  follow_read status TaskPhase.pending e ends up = absurd ends
  follow_read status TaskPhase.running e ends up = absurd ends
  follow_read status TaskPhase.waiting_for_pr e ends up = absurd ends
  follow_read status TaskPhase.merged e ends up = absurd ends
  follow_read status TaskPhase.closed e ends up = absurd ends

  -- A task that runs, in a pod that runs and has an address.
  pub running_polls :
      (ip : String)
      → task.status.phase ≡ Phase.running
      → answers.pod ≡ found (record { phase = pod_running; pod_ip = ip })
      → (ip == "") ≡ false
      → reconcile task answers ≡ poll_worker task answers answers.worker_status
  unfolding reconcile handle_phase handle_running follow_pod
  running_polls ip runs pod ip_known = rw (runs, pod, ip_known) refl
