-- ===== src/Models.antt =====
-- models.py: the data that the worker's components and the operator exchange.
use bulletfarm.Prelude.{ℕ, String, Bool, false, List}

pub data TaskPhase : Type 0 where
  pending running succeeded incomplete failed waiting_for_pr merged closed : TaskPhase

-- `phase.value`
unfoldable pub phase_value : TaskPhase → String
phase_value TaskPhase.pending = "Pending"
phase_value TaskPhase.running = "Running"
phase_value TaskPhase.succeeded = "Succeeded"
phase_value TaskPhase.incomplete = "Incomplete"
phase_value TaskPhase.failed = "Failed"
phase_value TaskPhase.waiting_for_pr = "WaitingForPR"
phase_value TaskPhase.merged = "Merged"
phase_value TaskPhase.closed = "Closed"

pub record TaskRequest : Type 0 where
  pub task_id : String
  pub agent_ref : String
  pub repository : String
  pub prompt : String
  pub target_branch : String
  pub skills : List String
  pub is_retry : Bool
  pub pr_url : String

pub record TaskStatus : Type 0 where
  pub task_id : String
  pub phase : TaskPhase
  pub progress : ℕ
  pub message : String
  pub pull_request_url : String
  pub rate_limited : Bool
  pub pr_state : String
  pub incomplete_reason : String

-- `TaskStatus(task_id=…, phase=…)`, with the defaults for the rest
abbrev pub new_status : String → TaskPhase → TaskStatus
new_status task_id phase = record {
  task_id = task_id;
  phase = phase;
  progress = 0;
  message = "";
  pull_request_url = "";
  rate_limited = false;
  pr_state = "";
  incomplete_reason = "";
}

pub record PrStatusResponse : Type 0 where
  pub pr_url : String
  pub state : String
  pub merged : Bool
  pub draft : Bool

-- `PRStatusResponse()`
abbrev pub no_pr_status : PrStatusResponse
no_pr_status = record { pr_url = ""; state = ""; merged = false; draft = false }

pub record GraduateResponse : Type 0 where
  pub task_memory_deleted : Bool
  pub shared_memory_updated : Bool
  pub pr_state : String

pub record HealthResponse : Type 0 where
  pub status : String
  pub version : String

-- `HealthResponse()`
abbrev pub healthy : HealthResponse
healthy = record { status = "healthy"; version = "0.1.0" }
