-- ===== src/Service/System.antt =====
-- The service as a whole: requests, progress reports and ends of tasks in any order. A task in the
-- background belongs to the request that started it; two may have the same id.
use bulletfarm.Prelude.{
  ℕ, ◌≤◌, min, String, ◌≡◌, refl, inl, inr, Bool, some, List, ◌∷◌, ◌++◌, arith, ◌==◌, eq_iff,
  Bool-cases, Option-cases, take_text, ◌<>◌,
}
use bulletfarm.Github.Client.{mark_pr_ready}
use mathlib.Core.Path.{subst₂}
use bulletfarm.Prelude.Dict.{get, put, get-put}
use bulletfarm.Prelude.Exec.{Result, ok, raised, result_or, pure, attempt, ◌>>◌}
use bulletfarm.Outside.{History, Github}
use bulletfarm.Models.{TaskPhase, TaskRequest, TaskStatus, new_status}
use bulletfarm.Agent.Run.Outcome.{EndsIn, IsOutcome}
use bulletfarm.Service.Routes.{
  Registry, Response, reply, create_task, mark, is_succeeded, finalize_found, finalize_task,
}
use bulletfarm.Service.Background.{update_progress, finish_task, internal_error}

pub record Server : Type 0 where
  pub statuses : Registry
  pub running : List TaskRequest

-- What `run_task` returned is an outcome for its request; an exception may be any.
abbrev pub FromRun : TaskRequest → Result TaskStatus → Type 0
FromRun request (ok status) = IsOutcome request.task_id status
FromRun request (raised exc) = Unit

-- The registry that a finalization leaves, after the calls `h`.
abbrev pub finalized : Github → String → History → Registry → Registry
finalized gh task_id h statuses =
    (result_or (reply (new_status task_id TaskPhase.running), statuses)
      (finalize_task gh task_id statuses h).0).1

pub data Step (gh : Github) : Server → Server → Type 0 where
  submit :
      (s : Server) (request : TaskRequest)
      → Step gh s (record s {
        statuses = (create_task request s.statuses).1;
        running = request ∷ s.running;
      })
  report :
      (s : Server) (before after : List TaskRequest) (request : TaskRequest) (n : ℕ)
      (message : String)
      → s.running ≡ before ++ (request ∷ after)
      → Step gh s (record s { statuses = update_progress request.task_id n message s.statuses })
  finish :
      (s : Server) (before after : List TaskRequest) (request : TaskRequest)
      (result : Result TaskStatus)
      → s.running ≡ before ++ (request ∷ after)
      → FromRun request result
      → Step gh s
          (record s { statuses = finish_task request result s.statuses; running = before ++ after })
  finalize :
      (s : Server) (task_id : String) (h : History)
      → Step gh s (record s { statuses = finalized gh task_id h s.statuses })

pub data Reach (gh : Github) (s : Server) : Server → Type 0 where
  here : Reach gh s s
  next : {t u : Server} → Reach gh s t → Step gh t u → Reach gh s u

-- A status that the worker may hold: in one of four phases, its progress at most 100, and at most
-- 99 while it runs.
abbrev pub InPhase : TaskPhase → ℕ → Type 0
InPhase TaskPhase.running n = n ≤ 99
InPhase TaskPhase.succeeded n = n ≤ 100
InPhase TaskPhase.incomplete n = n ≤ 100
InPhase TaskPhase.failed n = n ≤ 100
InPhase _ n = ⊥

abbrev pub IsStatusOf : String → TaskStatus → Type 0
IsStatusOf task_id status = (status.task_id ≡ task_id) × InPhase status.phase status.progress

-- Each status in the registry is a status of its key.
pub record IsValid (statuses : Registry) : Type 0 where
  pub at_key :
      (k : String) (status : TaskStatus) → get statuses k ≡ some status → IsStatusOf k status

put-IsValid :
    (statuses : Registry) (k : String) (status : TaskStatus)
    → IsValid statuses
    → IsStatusOf k status
    → IsValid (put statuses k status)
put-IsValid statuses k status v new = record {
  at_key = λ j found e. elim (Bool-cases (k == j)) [
    | inl same ↦
        let p : status ≡ found = ground (arith, get-put statuses k j status) in
        subst₂ IsStatusOf ((eq_iff k j).0 same) p new
    | inr other ↦ v.at_key j found (ground (arith, get-put statuses k j status))
  ];
}

InPhase-of_EndsIn :
    (phase : TaskPhase) (status : TaskStatus) → EndsIn phase status → InPhase phase status.progress
InPhase-of_EndsIn TaskPhase.succeeded status e = omega arith
InPhase-of_EndsIn TaskPhase.incomplete status e = omega arith
InPhase-of_EndsIn TaskPhase.failed status e = omega arith
InPhase-of_EndsIn TaskPhase.running status e = absurd e
InPhase-of_EndsIn TaskPhase.pending status e = absurd e
InPhase-of_EndsIn TaskPhase.waiting_for_pr status e = absurd e
InPhase-of_EndsIn TaskPhase.merged status e = absurd e
InPhase-of_EndsIn TaskPhase.closed status e = absurd e

-- A report is clamped below 100, whatever the phase.
InPhase-clamped : (phase : TaskPhase) (m n : ℕ) → InPhase phase m → InPhase phase (min n 99)
InPhase-clamped TaskPhase.running m n h = omega arith
InPhase-clamped TaskPhase.succeeded m n h = omega arith
InPhase-clamped TaskPhase.incomplete m n h = omega arith
InPhase-clamped TaskPhase.failed m n h = omega arith
InPhase-clamped TaskPhase.pending m n h = absurd h
InPhase-clamped TaskPhase.waiting_for_pr m n h = absurd h
InPhase-clamped TaskPhase.merged m n h = absurd h
InPhase-clamped TaskPhase.closed m n h = absurd h

update_progress-IsValid :
    (task_id : String) (n : ℕ) (message : String) (statuses : Registry)
    → IsValid statuses
    → IsValid (update_progress task_id n message statuses)
unfolding update_progress
update_progress-IsValid task_id n message statuses v = elim (Option-cases (get statuses task_id)) [
  | inl missing ↦ rw (missing, update_progress) v
  | inr (status, found) ↦
      let (own, fits) = v.at_key task_id status found in
      rw (found, update_progress)
        (put-IsValid statuses task_id _ v
          (own, InPhase-clamped status.phase status.progress n fits))
]

finish_task-IsValid :
    (request : TaskRequest) (result : Result TaskStatus) (statuses : Registry)
    → FromRun request result
    → IsValid statuses
    → IsValid (finish_task request result statuses)
unfolding finish_task
finish_task-IsValid request (ok status) statuses (own, ends) v =
    put-IsValid statuses request.task_id status v (own, InPhase-of_EndsIn status.phase status ends)
finish_task-IsValid request (raised exc) statuses from v =
    put-IsValid statuses request.task_id (internal_error request.task_id exc) v (refl, omega arith)

-- The registry in the answer of a finalization, which raises nothing.
abbrev registry_of : String → Registry → Result (Response TaskStatus × Registry) → Registry
registry_of task_id statuses r =
    (result_or (reply (new_status task_id TaskPhase.running), statuses) r).1

mark-IsValid :
    (task_id message : String) (status : TaskStatus) (statuses : Registry)
    → IsValid statuses
    → IsStatusOf task_id status
    → IsValid (mark task_id message status statuses).1
mark-IsValid task_id message status statuses v fits =
    put-IsValid statuses task_id (record status { message = message }) v fits

after_mark :
    (task_id : String) (status : TaskStatus) (statuses : Registry) (r : Result Bool) (h k : History)
    → IsValid statuses
    → IsStatusOf task_id status
    → IsValid (
        registry_of task_id statuses
          (attempt
            ((λ _. (r, h)) >> pure (mark task_id "PR marked ready for review" status statuses))
            (λ exc.
              pure
                (mark task_id (take_text 500 ("Finalize error: " <> exc.message)) status statuses))
            k).0)
after_mark task_id status statuses (ok _) h k v fits = mark-IsValid task_id _ status statuses v fits
after_mark task_id status statuses (raised e) h k v fits =
    mark-IsValid task_id _ status statuses v fits

finalize_found-IsValid :
    (gh : Github) (task_id : String) (status : TaskStatus) (h : History) (statuses : Registry)
    → IsValid statuses
    → IsStatusOf task_id status
    → IsValid (registry_of task_id statuses (finalize_found gh task_id status statuses h).0)
unfolding finalize_found
finalize_found-IsValid gh task_id status h statuses v fits =
    elim (Bool-cases (is_succeeded status.phase)) [
      | inl yes_done ↦ elim (Bool-cases (status.pull_request_url == "")) [
        | inl no_pr ↦ rw (yes_done, no_pr) v
        | inr pr ↦
            let (r, h') = mark_pr_ready gh status.pull_request_url h in
            rw (yes_done, pr) (after_mark task_id status statuses r h' h v fits)
      ]
      | inr not_done ↦ rw not_done v
    ]

finalize_task-IsValid :
    (gh : Github) (task_id : String) (h : History) (statuses : Registry)
    → IsValid statuses
    → IsValid (finalized gh task_id h statuses)
unfolding finalize_task
finalize_task-IsValid gh task_id h statuses v = elim (Option-cases (get statuses task_id)) [
  | inl missing ↦ rw (missing, finalize_task, finalized) v
  | inr (status, found) ↦
      rw (found, finalize_task, finalized)
        (finalize_found-IsValid gh task_id status h statuses v (v.at_key task_id status found))
]

Step-IsValid : {gh : Github} {s t : Server} → Step gh s t → IsValid s.statuses → IsValid t.statuses
Step-IsValid (submit s request) v =
    unfold create_task in
    put-IsValid s.statuses request.task_id (new_status request.task_id TaskPhase.running) v
      (refl, omega arith)
Step-IsValid (report s before after request n message e) v =
    update_progress-IsValid request.task_id n message s.statuses v
Step-IsValid (finish s before after request result e from) v =
    finish_task-IsValid request result s.statuses from v
Step-IsValid {gh} (finalize s task_id h) v = finalize_task-IsValid gh task_id h s.statuses v

-- Whatever the order of requests, reports, ends of tasks and finalizations, each status in the
-- registry stays a status of its own task, in one of the phases Running, Succeeded, Incomplete and
-- Failed, with a progress of at most 100, and of at most 99 while it is Running.
pub Reach-IsValid :
    {gh : Github} {s t : Server} → Reach gh s t → IsValid s.statuses → IsValid t.statuses
Reach-IsValid here v = v
Reach-IsValid (next r step) v = Step-IsValid step (Reach-IsValid r v)
