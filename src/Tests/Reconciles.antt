-- ===== src/Tests/Reconciles.antt =====
-- The results on the operator's calls of `Reconcile`, at concrete inputs.
use bulletfarm.Prelude.{
  ◌≤◌, ◌≡◌, refl, true, false, ◌&&◌, ◌⊎◌, is_empty, none, some, All, List, [], ◌∷◌, arith,
}
use bulletfarm.Models.{TaskStatus}
use bulletfarm.Agent.Run.Outcome.{IsOutcome}
use bulletfarm.Service.Routes.{reply, not_found}
use bulletfarm.Service.Operator.Task.{
  Phase, AgentTask, found, pod_running, missing, Creation, Answers, graduate, clean_up, AgentSpec,
  pod_name,
}
use bulletfarm.Service.Operator.Reconcile.Running.{read_status}
use bulletfarm.Service.Operator.Reconcile.{reconcile, reconciles}
use bulletfarm.Service.Operator.Reconcile.Pods.{stored, IsPodUpTo, reconciles_bound_pods}
use bulletfarm.Service.Operator.Reconcile.Polled.{Followed}
use bulletfarm.Service.Operator.Reconcile.Spawned.{PodStarts, next_task, spawned_task_moves_on}
use bulletfarm.Prelude.Exec.{ok}
use bulletfarm.Service.Wiring.{Worker, task_payload, lifespan}
use bulletfarm.Service.Wiring.Laws.{answer, deployed_task_ends}
use bulletfarm.Tests.Writes.{pod, pod_up, given}

abbrev created : AgentTask
created = record {
  name = "t1";
  agent_ref = "agent";
  description = "";
  prompt = "Add tests";
  target_branch = "";
  skills = [];
  max_retries = 1;
  status = record {
    phase = Phase.unset;
    progress = 0;
    worker_pod = "";
    pull_request_url = "";
    pr_state = "";
    started_at = none;
    completed_at = none;
    message = "";
    retry_count = 0;
    last_failure_reason = "";
  };
}

abbrev agent : AgentSpec
agent = record { repository = "org/repo"; default_skills = "testing" ∷ [] }

-- Every pod is made, and gone when it is looked up.
abbrev vanishing : Answers
vanishing = record {
  agent = some agent;
  owned = true;
  creation = Creation.made;
  pod = missing;
  worker_status = none;
  pr_status = none;
  updated = true;
  now = 7;
}

abbrev times : List Answers
times = vanishing ∷ vanishing ∷ vanishing ∷ vanishing ∷ vanishing ∷ vanishing ∷ vanishing ∷ []

-- The task starts, fails, is retried once, and stays failed.
retried_once : (stored created times).phase ≡ Phase.failed
unfolding reconciles reconcile pod_name
retried_once = refl

reconciles_bound_pods_example :
    ((stored created times).retry_count ≤ 1) × All (IsPodUpTo "t1" 1) (reconciles created times).1
reconciles_bound_pods_example = reconciles_bound_pods created times (omega arith)

-- The worker that comes up with the payload, and what it answers once it has run the task.
come_up :
    (worker : Worker) × (lifespan pod [] ≡ ok worker)
    × (((is_empty given.default_skills && is_empty given.skills ≡ true)
          × (answer given worker ≡ not_found "t1"))
        ⊎ ((is_empty given.default_skills && is_empty given.skills ≡ false)
            × (status : TaskStatus) × (answer given worker ≡ reply status)
            × IsOutcome "t1" status))
unfolding task_payload
come_up = deployed_task_ends pod pod_up given refl

abbrev spawning : AgentTask
spawning = record created { status = record created.status { phase = Phase.pending } }

abbrev polled : Answers
polled = record vanishing {
  pod = found (record { phase = pod_running; pod_ip = "10.0.0.7" });
  worker_status = read_status (answer given come_up.0);
}

spawned_task_moves_on_example :
    PodStarts spawning agent (reconcile spawning vanishing)
    × (((false ≡ true)
          × ((reconcile (next_task spawning vanishing) polled).status
              ≡ (reconcile spawning vanishing).status))
        ⊎ ((false ≡ false)
            × (status : TaskStatus) × IsOutcome "t1" status
            × Followed
                (next_task spawning vanishing)
                status
                status.phase
                (reconcile (next_task spawning vanishing) polled)))
unfolding task_payload
spawned_task_moves_on_example =
    spawned_task_moves_on pod pod_up come_up.0 spawning agent vanishing polled "10.0.0.7" refl refl
      refl refl refl refl come_up.1 refl refl refl refl

abbrev waiting : AgentTask
waiting = record created {
  status = record created.status {
    phase = Phase.waiting_for_pr;
    worker_pod = "worker-t1";
    pull_request_url = "https://github.com/org/repo/pull/7";
  };
}

-- The pull request is merged, but the update of the status fails.
abbrev conflicting : Answers
conflicting = record polled {
  pr_status = some (record { pr_url = ""; state = "merged"; merged = true; draft = false });
  updated = false;
}

-- Then the pod is gone, and the task is stored as closed.
merged_then_closed : (reconciles waiting (conflicting ∷ vanishing ∷ [])) ≡ (
  record waiting {
    status = record waiting.status {
      phase = Phase.closed;
      message = "Worker pod unavailable, cannot track PR";
    };
  },
  graduate "t1" ∷ clean_up "worker-t1" ∷ [],
)
unfolding reconciles reconcile
merged_then_closed = refl
