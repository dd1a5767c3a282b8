-- ===== src/Service/Operator/Reconcile/Steps.antt =====
-- The steps that `Reconcile` of agenttask_controller.go makes in the life of a task.
use bulletfarm.Prelude.{
  ℕ, String, ◌≡◌, refl, sym, Bool, true, false, ◌||◌, Option, none, some, All, List, ltb, ltb→lt,
  ◌==◌, if◌then◌else◌,
}
use mathlib.Core.Path.{subst}
use bulletfarm.Models.{PrStatusResponse}
use bulletfarm.Service.Operator.Task.{
  Phase, AgentTaskStatus, AgentTask, AgentSpec, WorkerStatus, PodPhase, Lookup, Creation, Answers,
  PodCall, Outcome, Next, retry_limit, is_available,
}
use bulletfarm.Service.Operator.Reconcile.Update.{store, leave}
use bulletfarm.Service.Operator.Reconcile.Pending.{
  start_with, started_status, start_pod, handle_pending,
}
use bulletfarm.Service.Operator.Reconcile.Running.{
  polled_status, follow_worker, poll_worker, follow_pod, handle_running,
}
use bulletfarm.Service.Operator.Reconcile.Watching.{follow_pr, poll_pr, handle_waiting_for_pr}
use bulletfarm.Service.Operator.Reconcile.{cleaning, handle_failed, handle_phase, reconcile}
use bulletfarm.Service.Operator.Reconcile.Life.{
  Moves, stays, begins, resets, spawns, fails, completes, succeeds, awaits, merges, closes,
  merges_completed, closes_completed, retries, IsPod, IsKnown, Fits,
}

module _ {A : Type 0} (P : A → Type 0) where
  holds_if : (b : Bool) (x y : A) → (b ≡ true → P x) → (b ≡ false → P y) → P (if b then x else y)
  holds_if true x y p q = p refl
  holds_if false x y p q = q refl

module _ (task : AgentTask) (answers : Answers) where
  abbrev Ok : Outcome → Type 0
  Ok = Fits task (retry_limit task)

  -- The abstract move to a phase that a handler sets, from the phase that it is for.
  abbrev MovesTo : AgentTaskStatus → Type 0
  MovesTo s =
      Moves (retry_limit task) task.status.phase task.status.retry_count s.phase s.retry_count

  from :
      (p q : Phase) (m : ℕ)
      → task.status.phase ≡ p
      → Moves (retry_limit task) p task.status.retry_count q m
      → Moves (retry_limit task) task.status.phase task.status.retry_count q m
  from p q m e moves =
      subst (λ r. Moves (retry_limit task) r task.status.retry_count q m) (sym e) moves

  leave-Ok : (next : Next) → Ok (leave task answers next)
  leave-Ok next = record { moves = stays; knows = λ k. k; pods = tt }

  store-Ok :
      (s : AgentTaskStatus) (calls : List PodCall) (next : Next)
      → MovesTo s
      → (IsKnown task.status → IsKnown s)
      → All (IsPod task.name task.status.retry_count) calls
      → Ok (record { status = store task answers s; calls = calls; next = next })
  store-Ok s calls next moves knows pods = record {
    moves = holds_if MovesTo answers.updated s task.status (λ _. moves) (λ _. stays);
    knows = λ k. holds_if IsKnown answers.updated s task.status (λ _. knows k) (λ _. k);
    pods = pods;
  }

  start_with-Ok :
      (agent : AgentSpec) (calls : List PodCall) (creation : Creation)
      → task.status.phase ≡ Phase.pending
      → All (IsPod task.name task.status.retry_count) calls
      → Ok (start_with task answers agent calls creation)
  unfolding start_with started_status
  start_with-Ok agent calls (Creation.refused exc) e pods = store-Ok _ calls _ stays (λ k. k) pods
  start_with-Ok agent calls Creation.made e pods =
      store-Ok _ calls _ (from _ _ _ e spawns) (λ k. k) pods
  start_with-Ok agent calls Creation.already_exists e pods =
      store-Ok _ calls _ (from _ _ _ e spawns) (λ k. k) pods

  handle_pending-Ok :
      (agent : Option AgentSpec)
      → task.status.phase ≡ Phase.pending
      → Ok (handle_pending task answers agent)
  unfolding handle_pending start_pod
  handle_pending-Ok none e = store-Ok _ _ _ stays (λ k. k) tt
  handle_pending-Ok (some agent) e =
      holds_if Ok answers.owned _ _ (λ _. start_with-Ok agent _ answers.creation e (refl, tt))
        (λ _. leave-Ok _)

  polled-IsKnown :
      (status : WorkerStatus) → IsKnown task.status → IsKnown (polled_status task answers status)
  polled-IsKnown status k =
      holds_if (λ url. (url == "") ≡ false) (status.pull_request_url == "") _ _ (λ _. k) (λ e. e)

  follow_worker-Ok :
      (status : WorkerStatus)
      → task.status.phase ≡ Phase.running
      → Ok (follow_worker task answers status)
  unfolding follow_worker
  follow_worker-Ok status e =
      let known = polled-IsKnown status in
      holds_if Ok ((status.phase == "Succeeded") || (status.phase == "Completed")) _ _
        (λ _. store-Ok _ _ _ (from _ _ _ e succeeds) known (tt, tt))
        (λ _.
          holds_if Ok (status.phase == "Incomplete") _ _
            (λ _. store-Ok _ _ _ (from _ _ _ e fails) known tt)
            (λ _.
              holds_if Ok (status.phase == "Failed") _ _
                (λ _. store-Ok _ _ _ (from _ _ _ e fails) known tt)
                (λ _. store-Ok _ _ _ stays known tt)))

  poll_worker-Ok :
      (status : Option WorkerStatus)
      → task.status.phase ≡ Phase.running
      → Ok (poll_worker task answers status)
  unfolding poll_worker
  poll_worker-Ok none e = leave-Ok _
  poll_worker-Ok (some status) e = follow_worker-Ok status e

  follow_pod-Ok :
      (ip : String) (phase : PodPhase)
      → task.status.phase ≡ Phase.running
      → Ok (follow_pod task answers ip phase)
  unfolding follow_pod
  follow_pod-Ok ip PodPhase.pod_failed e = store-Ok _ _ _ (from _ _ _ e fails) (λ k. k) tt
  follow_pod-Ok ip PodPhase.pod_succeeded e = store-Ok _ _ _ (from _ _ _ e completes) (λ k. k) tt
  follow_pod-Ok ip PodPhase.pod_running e =
      holds_if Ok (ip == "") _ _ (λ _. leave-Ok _) (λ _. poll_worker-Ok answers.worker_status e)
  follow_pod-Ok ip PodPhase.pod_other e = leave-Ok _

  handle_running-Ok :
      (pod : Lookup) → task.status.phase ≡ Phase.running → Ok (handle_running task answers pod)
  unfolding handle_running
  handle_running-Ok (Lookup.found pod) e = follow_pod-Ok pod.pod_ip pod.phase e
  handle_running-Ok Lookup.missing e = store-Ok _ _ _ (from _ _ _ e fails) (λ k. k) tt
  handle_running-Ok Lookup.unanswered e = leave-Ok _

  -- The three moves of a task whose pull request is watched.
  record Watched : Type 0 where
    merging : MovesTo (record task.status { phase = Phase.merged })
    closing : MovesTo (record task.status { phase = Phase.closed })
    waiting : MovesTo (record task.status { phase = Phase.waiting_for_pr })

  poll_pr-Ok : (pr : Option PrStatusResponse) → Watched → Ok (poll_pr task answers pr)
  unfolding poll_pr follow_pr
  poll_pr-Ok none watched = leave-Ok _
  poll_pr-Ok (some pr) watched =
      holds_if Ok pr.merged _ _ (λ _. store-Ok _ _ _ watched.merging (λ k. k) (tt, (tt, tt)))
        (λ _.
          holds_if Ok (pr.state == "closed") _ _
            (λ _. store-Ok _ _ _ watched.closing (λ k. k) (tt, (tt, tt)))
            (λ _. store-Ok _ _ _ watched.waiting (λ k. k) tt))

  handle_waiting_for_pr-Ok : Watched → Ok (handle_waiting_for_pr task answers)
  unfolding handle_waiting_for_pr
  handle_waiting_for_pr-Ok watched =
      holds_if Ok (task.status.pull_request_url == "") _ _
        (λ _. store-Ok _ _ _ watched.closing (λ k. k) (tt, tt))
        (λ _.
          holds_if Ok (is_available answers.pod) _ _ (λ _. poll_pr-Ok answers.pr_status watched)
            (λ _. store-Ok _ _ _ watched.closing (λ k. k) tt))

  cleaning-IsPod : All (IsPod task.name task.status.retry_count) (cleaning task answers)
  cleaning-IsPod =
      holds_if (All (IsPod task.name task.status.retry_count)) (task.status.worker_pod == "") _ _
        (λ _. tt) (λ _. (tt, tt))

  handle_failed-Ok : task.status.phase ≡ Phase.failed → Ok (handle_failed task answers)
  unfolding handle_failed
  handle_failed-Ok e =
      let allowed = ltb→lt task.status.retry_count (retry_limit task) in
      holds_if Ok (ltb task.status.retry_count (retry_limit task)) _ _
        (λ less. store-Ok _ _ _ (from _ _ _ e (retries (allowed less))) (λ k. k) cleaning-IsPod)
        (λ _. store-Ok _ _ _ stays (λ k. k) cleaning-IsPod)

  handle_phase-Ok : (p : Phase) → task.status.phase ≡ p → Ok (handle_phase task answers p)
  unfolding handle_phase
  handle_phase-Ok Phase.unset e = store-Ok _ _ _ (from _ _ _ e begins) (λ k. k) tt
  handle_phase-Ok Phase.pending e = handle_pending-Ok answers.agent e
  handle_phase-Ok Phase.running e = handle_running-Ok answers.pod e
  handle_phase-Ok Phase.failed e = handle_failed-Ok e
  handle_phase-Ok Phase.completed e = handle_waiting_for_pr-Ok (record {
    merging = from _ _ _ e merges_completed;
    closing = from _ _ _ e closes_completed;
    waiting = from _ _ _ e awaits;
  })
  handle_phase-Ok Phase.waiting_for_pr e = handle_waiting_for_pr-Ok (record {
    merging = from _ _ _ e merges;
    closing = from _ _ _ e closes;
    waiting = from _ _ _ e stays;
  })
  handle_phase-Ok Phase.merged e = leave-Ok _
  handle_phase-Ok Phase.closed e = leave-Ok _
  handle_phase-Ok (Phase.unknown name) e = store-Ok _ _ _ (from _ _ _ e resets) (λ k. k) tt

  -- Whatever Kubernetes and the worker answer, a call of `Reconcile` makes at most one move of the
  -- life of its task, as `Moves` allows. It keeps the address of a pull request, if one is known,
  -- and creates a pod only under the name for the task's number of retries.
  pub reconcile-Fits : Fits task (retry_limit task) (reconcile task answers)
  unfolding reconcile
  reconcile-Fits = handle_phase-Ok task.status.phase refl
