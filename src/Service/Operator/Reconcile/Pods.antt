-- ===== src/Service/Operator/Reconcile/Pods.antt =====
-- How often `Reconcile` of agenttask_controller.go retries a task, and which pods it creates.
use bulletfarm.Prelude.{ℕ, ◌≤◌, String, ◌≡◌, All, All-append, List, [], ◌∷◌, arith}
use bulletfarm.Service.Operator.Task.{
  Phase, AgentTaskStatus, AgentTask, Answers, PodCall, pod_name, retry_limit,
}
use bulletfarm.Service.Operator.Reconcile.{reconcile, reconciles}
use bulletfarm.Service.Operator.Reconcile.Life.{
  Moves, stays, begins, resets, spawns, fails, completes, succeeds, awaits, merges, closes,
  merges_completed, closes_completed, retries, IsPod,
}
use bulletfarm.Service.Operator.Reconcile.Steps.{reconcile-Fits}

-- No move gives back a retry, and none goes past the limit.
module _ {limit : ℕ} where
  pub moves_count :
      {n m : ℕ} {p q : Phase} → Moves limit p n q m → n ≤ limit → (n ≤ m) × (m ≤ limit)
  moves_count (retries less) low = (omega arith, omega arith)
  moves_count stays low = (omega arith, low)
  moves_count begins low = (omega arith, low)
  moves_count resets low = (omega arith, low)
  moves_count spawns low = (omega arith, low)
  moves_count fails low = (omega arith, low)
  moves_count completes low = (omega arith, low)
  moves_count succeeds low = (omega arith, low)
  moves_count awaits low = (omega arith, low)
  moves_count merges low = (omega arith, low)
  moves_count closes low = (omega arith, low)
  moves_count merges_completed low = (omega arith, low)
  moves_count closes_completed low = (omega arith, low)

abbrev pub stored : AgentTask → List Answers → AgentTaskStatus
stored task l = (reconciles task l).0.status

-- A pod is created only under the name of a retry up to `limit`.
abbrev pub IsPodUpTo : String → ℕ → PodCall → Type 0
IsPodUpTo name limit (PodCall.create pod payload) = (n : ℕ) × (n ≤ limit) × (pod ≡ pod_name name n)
IsPodUpTo name limit _ = Unit

up_to :
    (name : String) (n limit : ℕ)
    → n ≤ limit
    → (c : PodCall) → IsPod name n c
    → IsPodUpTo name limit c
up_to name n limit low (PodCall.create pod payload) e = (n, low, e)
up_to name n limit low (PodCall.clean_up pod) e = tt
up_to name n limit low (PodCall.finalize id) e = tt
up_to name n limit low (PodCall.graduate id) e = tt

IsPod-IsPodUpTo :
    (name : String) (n limit : ℕ)
    → n ≤ limit
    → (l : List PodCall) → All (IsPod name n) l
    → All (IsPodUpTo name limit) l
IsPod-IsPodUpTo name n limit low [] pods = tt
IsPod-IsPodUpTo name n limit low (c ∷ l) (pod, pods) =
    (up_to name n limit low c pod, IsPod-IsPodUpTo name n limit low l pods)

-- A task that has not used up its retries: whatever Kubernetes and the worker answer, a sequence of
-- calls of `Reconcile` never retries it more often than its limit, and creates no pod but those named
-- after the task and the number of a retry up to the limit.
pub reconciles_bound_pods :
    (task : AgentTask) (l : List Answers)
    → task.status.retry_count ≤ retry_limit task
    → ((stored task l).retry_count ≤ retry_limit task)
      × All (IsPodUpTo task.name (retry_limit task)) (reconciles task l).1
unfolding reconciles
reconciles_bound_pods task [] low = (low, tt)
reconciles_bound_pods task (answers ∷ more) low =
    let fits = reconcile-Fits task answers in
    let o = reconcile task answers in
    let (count, pods) =
      reconciles_bound_pods (record task { status = o.status }) more
        (moves_count fits.moves low).1 in
    (
      count,
      All-append (IsPodUpTo task.name (retry_limit task)) o.calls _
          (IsPod-IsPodUpTo task.name task.status.retry_count (retry_limit task) low o.calls
            fits.pods)
          pods,
    )
