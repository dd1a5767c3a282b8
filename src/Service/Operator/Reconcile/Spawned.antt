-- ===== src/Service/Operator/Reconcile/Spawned.antt =====
-- The operator and the worker that it starts, from the payload to the status that comes back.
use bulletfarm.Prelude.{
  String, ◌≡◌, ◌⊎◌, refl, sym, ap, ◌∙◌, inl, inr, true, false, ◌&&◌, some, [], ◌∷◌, is_empty, ◌==◌,
}
use mathlib.Core.Path.{subst}
use bulletfarm.Prelude.Exec.{ok, result_or}
use bulletfarm.Models.{TaskStatus}
use bulletfarm.Agent.Run.Outcome.{IsOutcome}
use bulletfarm.Service.Wiring.{Libraries, Worker, task_payload, lifespan}
use bulletfarm.Service.Wiring.Laws.{ComesUp, answer, deployed_task_ends}
use bulletfarm.Service.Operator.{payload_of}
use bulletfarm.Service.Operator.Task.{
  Phase, AgentTask, AgentSpec, made, pod_running, found, Answers, create, pod_name, assignment_of,
  Outcome,
}
use bulletfarm.Service.Operator.Reconcile.Pending.{
  handle_pending, start_pod, start_with, started_status,
}
use bulletfarm.Service.Operator.Reconcile.Running.{read_status, poll_worker}
use bulletfarm.Service.Operator.Reconcile.{handle_phase, reconcile}
use bulletfarm.Service.Operator.Reconcile.Polled.{Followed, follow_read, running_polls}

-- The task as a call of `Reconcile` has stored it.
abbrev pub next_task : AgentTask → Answers → AgentTask
next_task task answers = record task { status = (reconcile task answers).status }

-- The operator creates a pod with the task's payload, and the task runs.
abbrev pub PodStarts : AgentTask → AgentSpec → Outcome → Type 0
PodStarts task agent o =
    (o.status.phase ≡ Phase.running)
    × (o.calls
        ≡ create (pod_name task.name task.status.retry_count)
            (payload_of (assignment_of task agent))
          ∷ [])

spawns_pod :
    (task : AgentTask) (agent : AgentSpec) (answers : Answers)
    → task.status.phase ≡ Phase.pending
    → answers.agent ≡ some agent
    → answers.owned ≡ true
    → answers.creation ≡ made
    → answers.updated ≡ true
    → PodStarts task agent (reconcile task answers)
unfolding reconcile handle_phase handle_pending start_pod start_with started_status
spawns_pod task agent answers pending given owned creation up =
    rw (pending, given, owned, creation, up) (refl, refl)

-- A task that is pending, where Kubernetes creates its pod, and the worker that comes up in the pod
-- with the payload that the pod was created with, and has run what it started. The next call of
-- `Reconcile`, where it finds the pod running with an address, gets the worker's status and can store
-- its update, follows the outcome of the run, whatever the services of the run did. A run that
-- succeeded is finalized and its pull request is watched; one that is incomplete or failed makes the
-- task Failed, for the next call to retry. Where neither the agent nor the task has a skill, that
-- call changes nothing, and the task stays Running.
pub spawned_task_moves_on :
    (lib : Libraries) (up : ComesUp lib) (worker : Worker) (task : AgentTask) (agent : AgentSpec)
    (first second : Answers) (ip : String)
    → task.status.phase ≡ Phase.pending
    → first.agent ≡ some agent
    → first.owned ≡ true
    → first.creation ≡ made
    → first.updated ≡ true
    → task_payload lib ≡ some (payload_of (assignment_of task agent))
    → lifespan lib [] ≡ ok worker
    → second.pod ≡ found (record { phase = pod_running; pod_ip = ip })
    → (ip == "") ≡ false
    → second.worker_status ≡ read_status (answer (assignment_of task agent) worker)
    → second.updated ≡ true
    → PodStarts task agent (reconcile task first)
      × (((is_empty agent.default_skills && is_empty task.skills ≡ true)
            × ((reconcile (next_task task first) second).status ≡ (reconcile task first).status))
          ⊎ ((is_empty agent.default_skills && is_empty task.skills ≡ false)
              × (status : TaskStatus) × IsOutcome task.name status
              × Followed
                  (next_task task first)
                  status
                  status.phase
                  (reconcile (next_task task first) second)))
unfolding poll_worker read_status
spawned_task_moves_on lib up worker task agent first second ip pending given owned creation stored
      payload came pod ip_known polled updated =
    let spawned = spawns_pod task agent first pending given owned creation stored in
    let later = next_task task first in
    let polls = running_polls later second ip spawned.0 pod ip_known in
    let (w, came_up, ends) = deployed_task_ends lib up (assignment_of task agent) payload in
    let same : w ≡ worker = ap (λ r. result_or w r) (sym came_up ∙ came) in
    let asked : second.worker_status ≡ read_status (answer (assignment_of task agent) w) =
      polled ∙ ap (λ v. read_status (answer (assignment_of task agent) v)) (sym same) in
    (
      spawned,
      elim ends [
        | inl (unskilled, none_there) ↦ inl (
          unskilled,
          ap (λ o. o.status)
              (polls ∙ ap (poll_worker later second) (asked ∙ ap read_status none_there)),
        )
        | inr (skilled, status, replied, (own, ends_in)) ↦ inr (
          skilled,
          status,
          (own, ends_in),
          subst (Followed later status status.phase)
              (sym (polls ∙ ap (poll_worker later second) (asked ∙ ap read_status replied)))
              (follow_read later second status status.phase refl ends_in updated),
        )
      ],
    )
