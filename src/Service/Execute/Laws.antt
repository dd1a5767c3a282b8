-- ===== src/Service/Execute/Laws.antt =====
-- The run of a task in the background of main.py, against the steps of the service.
use bulletfarm.Prelude.{
  ℕ, String, ◌≡◌, ◌⊎◌, refl, sym, ap, ◌∙◌, false, some, inl, inr, All, List, [], ◌∷◌, ◌++◌, ◌==◌,
  Option-cases,
}
use mathlib.Core.Path.{subst}
use bulletfarm.Prelude.Dict.{get, put, get-put, get-put_own, get-put_other}
use bulletfarm.Prelude.Exec.{Result, ok, raised}
use bulletfarm.Prelude.Triple.{Ends, Keeps, Keeps-if, Keeps-pure}
use bulletfarm.Outside.{Call, History, Github}
use bulletfarm.Models.{TaskPhase, TaskRequest, TaskStatus, new_status}
use bulletfarm.Agent.Session.{World, progress}
use bulletfarm.Agent.Keeps.{is_watched, IsStable}
use bulletfarm.Agent.Rules.{Past, Keeps-lift}
use bulletfarm.Agent.Run.{run_task}
use bulletfarm.Agent.Run.Outcome.{IsOutcome, run_task-Settles}
use bulletfarm.Agent.Run.Harmless.{run_task-Keeps}
use bulletfarm.Agent.Run.Working.{IsWorking}
use bulletfarm.Agent.Run.Finishes.{Finished, run_task-Finished}
use bulletfarm.Service.Routes.{Registry, reply, create_task, get_task_status}
use bulletfarm.Service.Background.{update_progress, finish_task}
use bulletfarm.Service.System.{Server, FromRun, report, finish, Reach, here, next}
use bulletfarm.Service.Execute.{reported, execute_task}

-- A report is one of the task.
abbrev IsOwn : String → Call → Type 0
IsOwn task_id (Call.report j _ _) = j ≡ task_id
IsOwn task_id _ = Unit

unreported : (task_id : String) (c : Call) → is_watched c ≡ false → IsOwn task_id c
unreported task_id (Call.report j n message) e = cc
unreported task_id _ e = tt

module _ (w : World) where
  abbrev Own : History → Type 0
  Own = All (IsOwn w.request.task_id)

  stable : IsStable Own
  stable = record {
    calm = record { stable = λ c h e p. (unreported w.request.task_id c e, p) };
    bulks = λ docs h p. (tt, p);
  }

  progress-Own : (n : ℕ) (message : String) → Keeps (Past Own) (progress w n message)
  unfolding progress
  progress-Own n message =
      Keeps-lift Own _
        (Keeps-if w.has_callback _ _ (record { at = λ h p. (refl, p) }) (Keeps-pure tt))

  run_task-Own : Keeps Own (run_task w)
  run_task-Own =
      run_task-Keeps stable w (λ prompt h p. (tt, p)) (λ prompt h p. (tt, p)) (λ secs h p. (tt, p))
        progress-Own

reported-Reach :
    (gh : Github) (s : Server) (before after : List TaskRequest) (request : TaskRequest)
    → s.running ≡ before ++ (request ∷ after)
    → (h : History) → All (IsOwn request.task_id) h
    → Reach gh s (record s { statuses = reported h s.statuses })
unfolding reported
reported-Reach gh s before after request e [] own = here
reported-Reach gh s before after request e (Call.report j n message ∷ h) (is_own, own) =
    let t = record s { statuses = reported h s.statuses } in
    subst (λ id. Reach gh s (record s { statuses = update_progress id n message t.statuses }))
      (sym is_own)
      (next (reported-Reach gh s before after request e h own)
        (report t before after request n message e))
reported-Reach gh s before after request e (_ ∷ h) (other, own) =
    reported-Reach gh s before after request e h own

from_run :
    (request : TaskRequest) (r : Result TaskStatus) (h : History)
    → Ends (λ status _. IsOutcome request.task_id status) (λ _. ⊥) (r, h)
    → FromRun request r
from_run request (ok status) h e = e
from_run request (raised exc) h e = tt

reports_of :
    (task_id : String) (r : Result TaskStatus) (h : History)
    → Ends (λ _. All (IsOwn task_id)) (All (IsOwn task_id)) (r, h)
    → All (IsOwn task_id) h
reports_of id (ok status) h e = e
reports_of id (raised exc) h e = e

-- `_execute_task` does what the service allows a background task to do: from a server where the task
-- runs, its reports and its end are steps that lead to the registry that it leaves.
pub execute_task-Reach :
    (gh : Github) (w : World) (s : Server) (before after : List TaskRequest)
    → s.running ≡ before ++ (w.request ∷ after)
    → Reach gh s (record { statuses = execute_task w s.statuses; running = before ++ after })
unfolding execute_task
execute_task-Reach gh w s before after e =
    let (r, h) = run_task w [] in
    next
      (reported-Reach gh s before after w.request e h
        (reports_of w.request.task_id r h ((run_task-Own w).at [] tt)))
      (finish (record s { statuses = reported h s.statuses }) before after w.request r e
        (from_run w.request r h (run_task-Settles w [])))

update_progress-other :
    (j : String) (n : ℕ) (message : String) (statuses : Registry) (k : String)
    → (j == k) ≡ false
    → get (update_progress j n message statuses) k ≡ get statuses k
unfolding update_progress
update_progress-other j n message statuses k other = elim (Option-cases (get statuses j)) [
  | inl missing ↦ rw (missing, update_progress) refl
  | inr (status, found) ↦ rw (found, update_progress, get-put statuses j k, other) refl
]

reported-other :
    (j : String) (statuses : Registry) (k : String)
    → (j == k) ≡ false
    → (h : History) → All (IsOwn j) h
    → get (reported h statuses) k ≡ get statuses k
unfolding reported
reported-other j statuses k other [] own = refl
reported-other j statuses k other (Call.report i n message ∷ h) (is_own, own) =
    update_progress-other i n message (reported h statuses) k (rw is_own other)
    ∙ reported-other j statuses k other h own
reported-other j statuses k other (_ ∷ h) (call, own) = reported-other j statuses k other h own

-- The registry after a task, by what its run returned.
returned :
    (Q : TaskStatus → History → Type 0) (request : TaskRequest) (r : Result TaskStatus)
    (h : History) (statuses : Registry)
    → Ends Q (λ _. ⊥) (r, h)
    → (status : TaskStatus) × (finish_task request r statuses ≡ put statuses request.task_id status)
      × Q status h
unfolding finish_task
returned Q request (ok status) h statuses q = (status, refl, q)
returned Q request (raised exc) h statuses never = absurd never

answer_found :
    (statuses : Registry) (k : String) (status : TaskStatus)
    → get statuses k ≡ some status
    → get_task_status k statuses ≡ reply status
unfolding get_task_status
answer_found statuses k status found = rw (found, get_task_status) refl

answer_same :
    (s t : Registry) (k : String) → get s k ≡ get t k → get_task_status k s ≡ get_task_status k t
unfolding get_task_status
answer_same s t k same = rw (same, get_task_status) refl

-- A task that is accepted and then executed has an outcome: asked for its status, the service
-- answers with a status of that task in phase Succeeded, Incomplete or Failed, whatever the services
-- outside did. And of any other task it answers as before.
pub accepted_task_ends :
    (w : World) (statuses : Registry)
    → ((status : TaskStatus) × (get_task_status w.request.task_id
            (execute_task w (create_task w.request statuses).1)
          ≡ reply status)
        × IsOutcome w.request.task_id status)
      × ((k : String)
          → (w.request.task_id == k) ≡ false
          → get_task_status k (execute_task w (create_task w.request statuses).1)
            ≡ get_task_status k statuses)
unfolding execute_task create_task
accepted_task_ends w statuses =
    let (r, h) = run_task w [] in
    let j = w.request.task_id in
    let accepted : Registry = (create_task w.request statuses).1 in
    let own = reports_of j r h ((run_task-Own w).at [] tt) in
    let (status, e, outcome) =
      returned (λ status _. IsOutcome j status) w.request r h (reported h accepted)
        (run_task-Settles w []) in
    (
      (
        status,
        answer_found (execute_task w accepted) j status
            (ap (λ d. get d j) e ∙ get-put_own (reported h accepted) j status),
        outcome,
      ),
      λ k other. answer_same (execute_task w accepted) statuses k (
          ap (λ d. get d k) e
          ∙ get-put_other (reported h accepted) j status k other
          ∙ reported-other j accepted k other h own
          ∙ get-put_other statuses j (new_status j TaskPhase.running) k other),
    )

-- A task that is accepted and then executed is done, where the services work: every command exits
-- with 0, the note of an incomplete task can be written, the agent graph can be built, streams
-- without an exception, and can be invoked where its stream had no message; GitHub answers the calls
-- that open a pull request, and the number in the address of that, or of the request's pull request,
-- has at most 4300 digits; and each document that a search in Elasticsearch hits has a prompt that
-- is a text, a list or missing. Then the service answers with a status of phase Succeeded or Incomplete.
pub accepted_task_finishes :
    (w : World) (statuses : Registry)
    → IsWorking w
    → (status : TaskStatus) × (get_task_status w.request.task_id
          (execute_task w (create_task w.request statuses).1)
        ≡ reply status)
      × ((status.phase ≡ TaskPhase.succeeded) ⊎ (status.phase ≡ TaskPhase.incomplete))
unfolding execute_task create_task
accepted_task_finishes w statuses up =
    let (r, h) = run_task w [] in
    let j = w.request.task_id in
    let accepted : Registry = (create_task w.request statuses).1 in
    let (status, e, done) =
      returned (Finished w) w.request r h (reported h accepted) (run_task-Finished w up []) in
    (
      status,
      answer_found (execute_task w accepted) j status
          (ap (λ d. get d j) e ∙ get-put_own (reported h accepted) j status),
      done.0,
    )
