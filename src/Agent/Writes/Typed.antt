-- ===== src/Agent/Writes/Typed.antt =====
-- The documents that a run of agent.py sends fit the indices of memory.py.
use text.Mathlib.TextPositions.{eq_refl}
use bulletfarm.Prelude.{ℕ, String, ◌≡◌, refl, Bool, false, ◌||◌, not, List}
use bulletfarm.Prelude.Dict.{get, put, update}
use bulletfarm.Prelude.Exec.{pure, ◌>>◌}
use bulletfarm.Prelude.Triple.{Triple, Ends, Always, Keeps, Keeps-bind, Keeps-pure, Triple-weaken}
use bulletfarm.Outside.{Doc, History}
use bulletfarm.Models.{TaskPhase, TaskStatus, TaskRequest}
use bulletfarm.Memory.Schema.{is_task_document, is_shared_document}
use bulletfarm.Agent.Session.{World}
use bulletfarm.Agent.Loop.{intermediate_doc}
use bulletfarm.Agent.Documents.{incomplete_doc, task_memory_doc, shared_memory_doc}
use bulletfarm.Agent.Finish.{remember}
use bulletfarm.Agent.Run.{failure_doc, run_task}
use bulletfarm.Agent.Writes.{Watch, Quiet, picked, Quiet-flush}
use bulletfarm.Agent.Writes.Parts.{
  Spares, SparesRun, lesson_doc, quiet_rules, progress-Quiet, buffer-Quiet, lesson-Quiet,
}
use bulletfarm.Agent.Writes.Whole.{Quiet-Closes, run_task-Good}

-- It fits neither of the indices, or is of another task.
abbrev pub is_stray : String → Doc → Bool
is_stray task_id doc = not (is_task_document task_id doc || is_shared_document doc)

abbrev watch : List Doc → String → Watch
watch l id = record { picks = is_stray id; earlier = l; owner = id }

module _ (l : List Doc) (request : TaskRequest) where
  no_stray : SparesRun (watch l request.task_id) request
  unfolding intermediate_doc incomplete_doc failure_doc update put get is_task_document
  no_stray = record {
    checkpoints = λ n stamp. rw (eq_refl request.task_id) refl;
    incompletes = λ out tools url stamp. rw (eq_refl request.task_id) refl;
    failures = λ exc stamp. rw (eq_refl request.task_id) refl;
  }

  result-Spares :
      (out : String) (tools files : List String) (url : String)
      → Spares (watch l request.task_id) (task_memory_doc request out tools files url)
  unfolding task_memory_doc update put get is_task_document
  result-Spares out tools files url stamp = rw (eq_refl request.task_id) refl

  lesson-Spares :
      (out : String) (tools files : List String) (stamp : ℕ)
      → is_stray request.task_id (lesson_doc stamp (shared_memory_doc request out tools files))
        ≡ false
  unfolding shared_memory_doc update put get is_task_document is_shared_document
  lesson-Spares out tools files stamp = refl

module _ (l : List Doc) (w : World) where
  abbrev watched : Watch
  watched = watch l w.request.task_id

  remember-Quiet :
      (out : String) (tools files : List String) (url : String)
      → Keeps (Quiet watched) (remember w out tools files url)
  unfolding remember
  remember-Quiet out tools files url =
      search
        (
          quiet_rules,
          progress-Quiet watched w,
          buffer-Quiet watched w,
          result-Spares l w.request,
          lesson-Quiet watched w,
          lesson-Spares l w.request,
          Quiet-flush watched w,
        )
        depth 14

  remembered :
      (out : String) (tools files : List String) (url : String) (status : TaskStatus)
      → status.phase ≡ TaskPhase.succeeded
      → Triple
          (Quiet watched)
          (remember w out tools files url >> pure status)
          (λ status s. picked watched.picks s.history ≡ l)
          (Quiet watched)
  remembered out tools files url status e =
      Triple-weaken (Quiet watched) (Quiet watched) _ (Always (Quiet watched))
        (λ status s. picked watched.picks s.history ≡ l) (Quiet watched) (Quiet watched) (λ s p. p)
        (λ a s p. p.said) (λ s p. p)
        (Keeps-bind (remember w out tools files url) (λ _. pure status)
          (remember-Quiet out tools files url) (λ _. Keeps-pure status))

abbrev strays : World → History → List Doc
strays w h = picked (is_stray w.request.task_id) h

-- Each document that a run sends, whatever its end, fits the index that it names: it is one of the
-- run's own task for the task memory, or one for the shared memory, with the fields that every document
-- of that index has, and where the index declares a type for a field, the field has a value of the type.
pub run_task-typed :
    (w : World) (h : History)
    → Ends
        (λ _ k. picked (is_stray w.request.task_id) k ≡ picked (is_stray w.request.task_id) h)
        (λ _. ⊥)
        (run_task w h)
run_task-typed w h =
    let q = watched (strays w h) w in
    let spares = no_stray (strays w h) w.request in
    let Good : TaskStatus → History → Type 0 = λ _ k. strays w k ≡ strays w h in
    run_task-Good q w spares Good
      (Quiet-Closes q w spares Good (λ status k p. p.sent) (remembered (strays w h) w)) refl h refl
