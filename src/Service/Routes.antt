-- ===== src/Service/Routes.antt =====
-- The routes of main.py, over the registry `_task_statuses`.
use bulletfarm.Prelude.{
  ℕ, String, ◌<>◌, Bool, true, false, none, some, take_text, ◌==◌, if◌then◌else◌,
}
use bulletfarm.Prelude.Dict.{Dict, get, put}
use bulletfarm.Prelude.Exec.{pure, attempt, ◌>>=◌, ◌>>◌}
use bulletfarm.Outside.{Act, Elastic, Host, Github}
use bulletfarm.Models.{
  TaskPhase, TaskRequest, TaskStatus, new_status, PrStatusResponse, no_pr_status, GraduateResponse,
  HealthResponse, healthy,
}
use bulletfarm.Github.Client.{get_pr_status, mark_pr_ready}
use bulletfarm.Memory.Graduate.{graduate_to_shared}

abbrev pub Registry : Type 0
Registry = Dict TaskStatus

-- What a route returns, or the `HTTPException` that it raises.
pub data Response (A : Type 0) : Type 0 where
  reply : A → Response A
  http_error : ℕ → String → Response A

abbrev pub not_found : {A : Type 0} → String → Response A
not_found task_id = http_error 404 ("Task " <> task_id <> " not found")

-- A phase in an f-string, as Python 3.12 and later print it.
unfoldable pub phase_text : TaskPhase → String
phase_text TaskPhase.pending = "TaskPhase.PENDING"
phase_text TaskPhase.running = "TaskPhase.RUNNING"
phase_text TaskPhase.succeeded = "TaskPhase.SUCCEEDED"
phase_text TaskPhase.incomplete = "TaskPhase.INCOMPLETE"
phase_text TaskPhase.failed = "TaskPhase.FAILED"
phase_text TaskPhase.waiting_for_pr = "TaskPhase.WAITING_FOR_PR"
phase_text TaskPhase.merged = "TaskPhase.MERGED"
phase_text TaskPhase.closed = "TaskPhase.CLOSED"

unfoldable pub is_succeeded : TaskPhase → Bool
is_succeeded TaskPhase.succeeded = true
is_succeeded _ = false

unfoldable pub health_check : HealthResponse
health_check = healthy

-- `create_task` without the background task that it adds.
unfoldable pub create_task : TaskRequest → Registry → TaskStatus × Registry
create_task request statuses =
    let status = new_status request.task_id TaskPhase.running in
    (status, put statuses request.task_id status)

unfoldable pub get_task_status : String → Registry → Response TaskStatus
get_task_status task_id statuses = elim (get statuses task_id) [
  | none ↦ not_found task_id
  | some status ↦ reply status
]

-- `status.message = message`, on the object that the registry has under `task_id`.
abbrev pub mark : String → String → TaskStatus → Registry → Response TaskStatus × Registry
mark task_id message status statuses =
    let changed = record status { message = message } in
    (reply changed, put statuses task_id changed)

module _ (gh : Github) where
  unfoldable pub finalize_found :
      String → TaskStatus → Registry → Act (Response TaskStatus × Registry)
  unfolding is_succeeded phase_text
  finalize_found task_id status statuses =
      if is_succeeded status.phase
      then if status.pull_request_url == ""
        then pure (reply status, statuses)
        else attempt
            (do
              mark_pr_ready gh status.pull_request_url
              pure (mark task_id "PR marked ready for review" status statuses))
            (λ exc.
              pure
                (mark task_id (take_text 500 ("Finalize error: " <> exc.message)) status statuses))
      else pure (
        http_error 400
            ("Task " <> task_id <> " is in phase " <> phase_text status.phase <> ", not Succeeded"),
        statuses,
      )

  unfoldable pub finalize_task : String → Registry → Act (Response TaskStatus × Registry)
  unfolding finalize_found
  finalize_task task_id statuses = elim (get statuses task_id) [
    | none ↦ pure (not_found task_id, statuses)
    | some status ↦ finalize_found task_id status statuses
  ]

  unfoldable pub get_task_pr_status : String → Registry → Act (Response PrStatusResponse)
  get_task_pr_status task_id statuses = elim (get statuses task_id) [
    | none ↦ pure (not_found task_id)
    | some status ↦ if status.pull_request_url == "" then pure (reply no_pr_status) else (do
      pr_info ← get_pr_status gh status.pull_request_url
      pure (
          reply (record {
            pr_url = status.pull_request_url;
            state = pr_info.state;
            merged = pr_info.merged;
            draft = pr_info.draft;
          })))
  ]

  -- `pr_state` in `graduate_task`
  unfoldable pub state_of_pr : TaskStatus → Act String
  state_of_pr status =
      if status.pull_request_url == ""
      then pure "unknown"
      else (do pr_info ← get_pr_status gh status.pull_request_url; pure pr_info.state)

  unfoldable pub graduate_task :
      Elastic → Host → String → Registry → Act (Response GraduateResponse)
  unfolding state_of_pr
  graduate_task es host task_id statuses = elim (get statuses task_id) [
    | none ↦ pure (not_found task_id)
    | some status ↦ do
      pr_state ← state_of_pr status
      graduated ← graduate_to_shared es host task_id pr_state
      pure (
          reply (record {
            task_memory_deleted = graduated;
            shared_memory_updated = graduated;
            pr_state = pr_state;
          }))
  ]
