-- ===== src/Service/Lives/Refines.antt =====
-- The service of main.py against the lives of its tasks.
use bulletfarm.Prelude.{
  ℕ, String, ◌<>◌, ◌≡◌, refl, ap, ◌∙◌, Bool, none, some, inl, inr, List, ◌∷◌, ◌++◌, ◌==◌, eq_iff,
  Bool-cases, Option-cases, take_text,
}
use bulletfarm.Prelude.Dict.{get}
use bulletfarm.Prelude.Exec.{Result, ok, raised, result_or, pure, attempt, ◌>>◌}
use bulletfarm.Outside.{History, Github}
use bulletfarm.Models.{TaskPhase, TaskRequest, TaskStatus, new_status}
use bulletfarm.Github.Client.{mark_pr_ready}
use bulletfarm.Service.Routes.{
  Registry, Response, reply, mark, is_succeeded, finalize_found, finalize_task,
}
use bulletfarm.Service.Background.{update_progress, finish_task, internal_error}
use bulletfarm.Service.System.{
  Server, FromRun, finalized, Step, submit, report, finish, finalize, Reach,
}
use bulletfarm.Service.Lives.Tracks.{Tracks, IsEnd-of_EndsIn, unmoved, submitted, ended_with}
use bulletfarm.Service.Lives.{Life, life, Moves, LifeStep, stay, move, LifeReach, life-put_same}

update_progress-life :
    (task_id : String) (n : ℕ) (message : String) (statuses : Registry) (k : String)
    → life (update_progress task_id n message statuses) k ≡ life statuses k
unfolding update_progress
update_progress-life task_id n message statuses k = elim (Option-cases (get statuses task_id)) [
  | inl missing ↦ rw (missing, update_progress) refl
  | inr (status, found) ↦
      rw (found, update_progress) (life-put_same statuses task_id _ status found refl k)
]

-- The registry in the answer of a finalization.
abbrev registry_of : String → Registry → Result (Response TaskStatus × Registry) → Registry
registry_of task_id statuses r =
    (result_or (reply (new_status task_id TaskPhase.running), statuses) r).1

after_mark :
    (task_id : String) (status : TaskStatus) (statuses : Registry) (r : Result Bool)
    (h h' : History) (k : String)
    → get statuses task_id ≡ some status
    → life
        (registry_of task_id statuses
          (attempt
            ((λ _. (r, h)) >> pure (mark task_id "PR marked ready for review" status statuses))
            (λ exc.
              pure
                (mark task_id (take_text 500 ("Finalize error: " <> exc.message)) status statuses))
            h').0)
        k
      ≡ life statuses k
after_mark task_id status statuses (ok _) h h' k found =
    life-put_same statuses task_id _ status found refl k
after_mark task_id status statuses (raised e) h h' k found =
    life-put_same statuses task_id _ status found refl k

finalize_found-life :
    (gh : Github) (task_id : String) (status : TaskStatus) (h : History) (statuses : Registry)
    (k : String)
    → get statuses task_id ≡ some status
    → life (registry_of task_id statuses (finalize_found gh task_id status statuses h).0) k
      ≡ life statuses k
unfolding finalize_found
finalize_found-life gh task_id status h statuses k found =
    elim (Bool-cases (is_succeeded status.phase)) [
      | inl succeeded ↦ elim (Bool-cases (status.pull_request_url == "")) [
        | inl no_pr ↦ rw (succeeded, no_pr) refl
        | inr pr ↦
            let (r, h') = mark_pr_ready gh status.pull_request_url h in
            rw (succeeded, pr) (after_mark task_id status statuses r h' h k found)
      ]
      | inr not_done ↦ rw not_done refl
    ]

finalize_task-life :
    (gh : Github) (task_id : String) (h : History) (statuses : Registry) (k : String)
    → life (finalized gh task_id h statuses) k ≡ life statuses k
unfolding finalize_task
finalize_task-life gh task_id h statuses k = elim (Option-cases (get statuses task_id)) [
  | inl missing ↦ rw (missing, finalize_task, finalized) refl
  | inr (status, found) ↦
      rw (found, finalize_task, finalized)
        (finalize_found-life gh task_id status h statuses k found)
]

finished :
    (s : Server) (before after : List TaskRequest) (request : TaskRequest)
    (result : Result TaskStatus)
    → s.running ≡ before ++ (request ∷ after)
    → FromRun request result
    → Tracks s
    → LifeStep (life s.statuses) (life (finish_task request result s.statuses))
      × Tracks
          (record { statuses = finish_task request result s.statuses; running = before ++ after })
unfolding finish_task
finished s before after request (ok status) e (own, ends) tracks =
    ended_with s before after request status e (IsEnd-of_EndsIn status.phase status ends) tracks
finished s before after request (raised exc) e from tracks =
    ended_with s before after request (internal_error request.task_id exc) e tt tracks

-- Each request has an id that is not in the registry yet.
abbrev pub IsFresh : {gh : Github} {s t : Server} → Step gh s t → Type 0
IsFresh (submit s request) = get s.statuses request.task_id ≡ none
IsFresh (report _ _ _ _ _ _ _) = Unit
IsFresh (finish _ _ _ _ _ _ _) = Unit
IsFresh (finalize _ _ _) = Unit

abbrev pub AllFresh : {gh : Github} {s t : Server} → Reach gh s t → Type 0
AllFresh Reach.here = Unit
AllFresh (Reach.next r step) = AllFresh r × IsFresh step

step_refines :
    {gh : Github} {s t : Server} (step : Step gh s t)
    → IsFresh step
    → Tracks s
    → LifeStep (life s.statuses) (life t.statuses) × Tracks t
step_refines (submit s request) fresh tracks = submitted s request fresh tracks
step_refines (report s before after request n message e) fresh tracks =
    unmoved s (record s { statuses = update_progress request.task_id n message s.statuses })
      (refl, update_progress-life request.task_id n message s.statuses) tracks
step_refines (finish s before after request result e from) fresh tracks =
    finished s before after request result e from tracks
step_refines {gh} (finalize s task_id h) fresh tracks =
    unmoved s (record s { statuses = finalized gh task_id h s.statuses })
      (refl, finalize_task-life gh task_id h s.statuses) tracks

-- The service refines the lives of its tasks: where no id is submitted twice, each request, report,
-- end of a task and finalization, in any order, is a step of the lives, in which at most one task
-- goes from absent to running or from running to an end. And a task is shown as running exactly while
-- it has a background task, of which there is one.
pub service_refines :
    {gh : Github} {s t : Server} (r : Reach gh s t)
    → AllFresh r
    → Tracks s
    → LifeReach (life s.statuses) (life t.statuses) × Tracks t
service_refines Reach.here fresh tracks = (LifeReach.start, tracks)
service_refines (Reach.next r step) (fresh, new) tracks =
    let (lives, tracked) = service_refines r fresh tracks in
    let (moved_on, tracked_on) = step_refines step new tracked in
    (LifeReach.step lives moved_on, tracked_on)

ends_still : {l m : Life} (phase : TaskPhase) → Moves l m → l ≡ Life.ended phase → ⊥
ends_still phase Moves.starts e = cc
ends_still phase (Moves.ends other end) e = cc

ended_step :
    {a b : String → Life} (k : String) (phase : TaskPhase)
    → LifeStep a b
    → a k ≡ Life.ended phase
    → b k ≡ Life.ended phase
ended_step k phase (stay same) e = same k ∙ e
ended_step {a} {b} k phase (move j moves others) e = elim (Bool-cases (j == k)) [
  | inl equal ↦ absurd (ends_still phase moves (ap a ((eq_iff j k).0 equal) ∙ e))
  | inr other ↦ others k other ∙ e
]

ended_reach :
    {a b : String → Life} (k : String) (phase : TaskPhase)
    → LifeReach a b
    → a k ≡ Life.ended phase
    → b k ≡ Life.ended phase
ended_reach k phase LifeReach.start e = e
ended_reach k phase (LifeReach.step lives one) e =
    ended_step k phase one (ended_reach k phase lives e)

-- A task that has ended stays in its phase, whatever requests, reports, ends of tasks and
-- finalizations follow, where no id is submitted twice and the registry agreed with the background
-- tasks.
pub ended_stays :
    {gh : Github} {s t : Server} (r : Reach gh s t) (k : String) (phase : TaskPhase)
    → AllFresh r
    → Tracks s
    → life s.statuses k ≡ Life.ended phase
    → life t.statuses k ≡ Life.ended phase
ended_stays r k phase fresh tracks e = ended_reach k phase (service_refines r fresh tracks).0 e
