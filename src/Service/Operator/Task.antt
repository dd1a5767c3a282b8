-- ===== src/Service/Operator/Task.antt =====
-- The task at the operator (agenttask_types.go and agenttask_controller.go): its status, what
-- `Reconcile` asks and is answered, and what it does.
use bulletfarm.Prelude.{
  ℕ, String, ◌<>◌, ◌&&◌, beq, Bool, true, false, not, Option, List, ltb, decimal, codes,
  contains_codes, ◌==◌, if◌then◌else◌,
}
use bulletfarm.Outside.{Doc}
use bulletfarm.Models.{PrStatusResponse}
use bulletfarm.Service.Operator.{Assignment}

-- `Status.Phase`, a text: the phases that `Reconcile` knows, `unset` for the empty one.
pub data Phase : Type 0 where
  unset pending running failed completed waiting_for_pr merged closed : Phase
  unknown : String → Phase

pub record AgentTaskStatus : Type 0 where
  pub phase : Phase
  pub progress : ℕ
  pub worker_pod : String
  pub pull_request_url : String
  pub pr_state : String
  pub started_at : Option ℕ
  pub completed_at : Option ℕ
  pub message : String
  pub retry_count : ℕ
  pub last_failure_reason : String

pub record AgentTask : Type 0 where
  pub name : String
  pub agent_ref : String
  pub description : String
  pub prompt : String
  pub target_branch : String
  pub skills : List String
  pub max_retries : ℕ
  pub status : AgentTaskStatus

-- What `handlePending` reads of the agent.
pub record AgentSpec : Type 0 where
  pub repository : String
  pub default_skills : List String

pub record WorkerStatus : Type 0 where
  pub task_id : String
  pub phase : String
  pub progress : ℕ
  pub message : String
  pub pull_request_url : String
  pub rate_limited : Bool
  pub incomplete_reason : String

pub data Creation : Type 0 where
  made already_exists : Creation
  refused : String → Creation

pub data PodPhase : Type 0 where
  pod_failed pod_succeeded pod_running pod_other : PodPhase

pub record Pod : Type 0 where
  pub phase : PodPhase
  pub pod_ip : String

pub data Lookup : Type 0 where
  found : Pod → Lookup
  missing : Lookup
  unanswered : Lookup

-- The answers of Kubernetes and of the worker, `none` where a request fails: the agent, whether the
-- pod can be owned, its creation, the pod, the two requests to the worker, whether the update of the
-- task's status is stored, and the time.
pub record Answers : Type 0 where
  pub agent : Option AgentSpec
  pub owned : Bool
  pub creation : Creation
  pub pod : Lookup
  pub worker_status : Option WorkerStatus
  pub pr_status : Option PrStatusResponse
  pub updated : Bool
  pub now : ℕ

abbrev pub is_running : PodPhase → Bool
is_running pod_running = true
is_running _ = false

-- The pod is there, runs, and has an address.
unfoldable pub is_available : Lookup → Bool
is_available (found pod) = is_running pod.phase && not (pod.pod_ip == "")
is_available _ = false

-- What `Reconcile` does to pods and workers. `clean_up` is `cleanupWorkerPod`.
pub data PodCall : Type 0 where
  create : String → Doc → PodCall
  clean_up : String → PodCall
  finalize : String → PodCall
  graduate : String → PodCall

-- `ctrl.Result`, with a time in seconds, or an error.
pub data Next : Type 0 where
  done requeue : Next
  after : ℕ → Next
  error : Next

-- The status that is stored in the end, the calls in order, and what is returned.
pub record Outcome : Type 0 where
  pub status : AgentTaskStatus
  pub calls : List PodCall
  pub next : Next

-- The name that `buildWorkerPod` gives to the pod of the `n`-th retry, the first run for 0.
unfoldable pub pod_name : String → ℕ → String
pod_name name n = if ltb 0 n then "worker-" <> name <> "-r" <> decimal n else "worker-" <> name

abbrev pub assignment_of : AgentTask → AgentSpec → Assignment
assignment_of task agent = record {
  name = task.name;
  agent_ref = task.agent_ref;
  repository = agent.repository;
  prompt = task.prompt;
  description = task.description;
  target_branch = task.target_branch;
  default_skills = agent.default_skills;
  skills = task.skills;
  retry_count = task.status.retry_count;
  pull_request_url = task.status.pull_request_url;
}

-- `strings.Contains`
abbrev pub mentions : String → String → Bool
mentions s part = contains_codes (codes s) (codes part)

abbrev pub requeue_after : ℕ
requeue_after = 15

abbrev pub default_max_retries : ℕ
default_max_retries = 2

-- `maxRetries` of `handleFailed`
abbrev pub retry_limit : AgentTask → ℕ
retry_limit task = if beq task.max_retries 0 then default_max_retries else task.max_retries
