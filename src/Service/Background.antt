-- ===== src/Service/Background.antt =====
-- The background task of main.py, its progress reports, and the start from `TASK_PAYLOAD`.
use bulletfarm.Prelude.{
  ℕ, String, ◌<>◌, Bool, Option, none, some, List, [], ◌∷◌, take_text, ◌==◌, min, if◌then◌else◌,
}
use bulletfarm.Prelude.Dict.{get, put}
use bulletfarm.Prelude.Exec.{Exn, Result, ok, raised}
use bulletfarm.Outside.{Doc}
use bulletfarm.Models.{TaskPhase, TaskRequest, TaskStatus, new_status}
use bulletfarm.Agent.Evaluate.{has_marker}
use bulletfarm.Service.Payload.{request_of_payload}
use bulletfarm.Service.Routes.{Registry, create_task}

abbrev pub rate_limit_markers : List String
rate_limit_markers =
    "rate limit" ∷ "429" ∷ "too many requests" ∷ "quota exceeded" ∷ "rate_limit" ∷ []

abbrev pub is_rate_limit_error : Exn → Bool
is_rate_limit_error exc = has_marker rate_limit_markers exc.message

-- `_update_progress`
unfoldable pub update_progress : String → ℕ → String → Registry → Registry
update_progress task_id progress message statuses = elim (get statuses task_id) [
  | none ↦ statuses
  | some status ↦ put statuses task_id (record status {
    progress = min progress 99;
    message = if message == "" then status.message else message;
  })
]

abbrev pub internal_error : String → Exn → TaskStatus
internal_error task_id exc = record (new_status task_id TaskPhase.failed) {
  message = take_text 500 ("Internal error: " <> exc.message);
  rate_limited = is_rate_limit_error exc;
}

-- The end of `_execute_task`, by what `run_task` returned or raised.
unfoldable pub finish_task : TaskRequest → Result TaskStatus → Registry → Registry
finish_task request (ok result) statuses = put statuses request.task_id result
finish_task request (raised exc) statuses =
    put statuses request.task_id (internal_error request.task_id exc)

-- The start from `TASK_PAYLOAD`: what it holds as JSON, if it is set and can be read. Where it
-- cannot, the error is logged, and the service starts with no task.
unfoldable pub auto_start : Option Doc → Registry → Option TaskRequest × Registry
auto_start none statuses = (none, statuses)
auto_start (some payload) statuses = elim (request_of_payload payload) [
  | none ↦ (none, statuses)
  | some request ↦ (some request, (create_task request statuses).1)
]
