-- ===== src/Service/Operator/Reconcile/Life.antt =====
-- What the operator promises of a task: the life that the comment above `Reconcile` of
-- agenttask_controller.go draws.
use bulletfarm.Prelude.{ℕ, suc, ◌<◌, String, ◌≡◌, false, All, ◌==◌}
use bulletfarm.Service.Operator.Task.{Phase, AgentTaskStatus, AgentTask, PodCall, Outcome, pod_name}

-- The life of a task at the operator, as the comment above `Reconcile` draws it: the phase and the
-- number of retries, where `limit` retries are allowed.
pub data Moves (limit : ℕ) : Phase → ℕ → Phase → ℕ → Type 0 where
  stays : {p : Phase} {n : ℕ} → Moves limit p n p n
  begins : {n : ℕ} → Moves limit Phase.unset n Phase.pending n
  resets : {name : String} {n : ℕ} → Moves limit (Phase.unknown name) n Phase.pending n
  spawns : {n : ℕ} → Moves limit Phase.pending n Phase.running n
  fails : {n : ℕ} → Moves limit Phase.running n Phase.failed n
  completes : {n : ℕ} → Moves limit Phase.running n Phase.completed n
  succeeds : {n : ℕ} → Moves limit Phase.running n Phase.waiting_for_pr n
  awaits : {n : ℕ} → Moves limit Phase.completed n Phase.waiting_for_pr n
  merges : {n : ℕ} → Moves limit Phase.waiting_for_pr n Phase.merged n
  closes : {n : ℕ} → Moves limit Phase.waiting_for_pr n Phase.closed n
  merges_completed : {n : ℕ} → Moves limit Phase.completed n Phase.merged n
  closes_completed : {n : ℕ} → Moves limit Phase.completed n Phase.closed n
  retries : {n : ℕ} → n < limit → Moves limit Phase.failed n Phase.pending (suc n)

-- Some moves, one after another.
pub data Walk (limit : ℕ) : Phase → ℕ → Phase → ℕ → Type 0 where
  here : {p : Phase} {n : ℕ} → Walk limit p n p n
  then_on :
      {p q r : Phase} {n m k : ℕ} → Moves limit p n q m → Walk limit q m r k → Walk limit p n r k

-- A pod is created only under the name for the number of retries.
abbrev pub IsPod : String → ℕ → PodCall → Type 0
IsPod name n (PodCall.create pod payload) = pod ≡ pod_name name n
IsPod name n _ = Unit

abbrev pub IsKnown : AgentTaskStatus → Type 0
IsKnown status = (status.pull_request_url == "") ≡ false

-- One call of `Reconcile`: a move of the life, which keeps the address of the pull request.
pub record Fits (task : AgentTask) (limit : ℕ) (o : Outcome) : Type 0 where
  pub moves :
      Moves limit task.status.phase task.status.retry_count o.status.phase o.status.retry_count
  pub knows : IsKnown task.status → IsKnown o.status
  pub pods : All (IsPod task.name task.status.retry_count) o.calls
