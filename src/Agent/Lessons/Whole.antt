-- ===== src/Agent/Lessons/Whole.antt =====
-- The lessons of a whole run of agent.py.
use bulletfarm.Prelude.{String, ◌≡◌, refl, ◌⊎◌, inl, inr, List}
use bulletfarm.Prelude.Dict.{get, put, update}
use bulletfarm.Prelude.Exec.{pure, ◌>>◌}
use bulletfarm.Prelude.Triple.{Triple, Ends, Always, Triple-pure, Triple-bind, Triple-weaken}
use bulletfarm.Prelude.Total.{Total, Triple-Total}
use bulletfarm.Outside.{Doc, History}
use bulletfarm.Models.{TaskPhase, TaskStatus, TaskRequest}
use bulletfarm.Agent.Session.{World, Session}
use bulletfarm.Agent.Loop.{intermediate_doc}
use bulletfarm.Agent.Documents.{incomplete_doc}
use bulletfarm.Agent.Finish.{remember}
use bulletfarm.Agent.Rules.{Anything, Keeps-any}
use bulletfarm.Agent.Total.{
  session_rules, bulk_write-Total, progress-Total, buffer_task_memory-Total,
  buffer_shared_memory-Total,
}
use bulletfarm.Agent.Run.{failure_doc, run_task}
use bulletfarm.Agent.Lessons.{is_lesson, lessons}
use bulletfarm.Agent.Writes.{Watch, Quiet}
use bulletfarm.Agent.Writes.Parts.{SparesRun}
use bulletfarm.Agent.Writes.Whole.{Quiet-Closes, run_task-Good}

abbrev watch : List Doc → String → Watch
watch l id = record { picks = is_lesson; earlier = l; owner = id }

no_lesson : (l : List Doc) (request : TaskRequest) → SparesRun (watch l request.task_id) request
unfolding intermediate_doc incomplete_doc failure_doc update put get
no_lesson l request = record {
  checkpoints = λ n stamp. refl;
  incompletes = λ out tools url stamp. refl;
  failures = λ exc stamp. refl;
}

module _ (l : List Doc) (w : World) where
  remember-Total :
      (out : String) (tools files : List String) (url : String)
      → Total (remember w out tools files url)
  unfolding remember
  remember-Total out tools files url =
      search
        (
          session_rules,
          progress-Total w,
          buffer_task_memory-Total w,
          buffer_shared_memory-Total w,
          bulk_write-Total,
        )
        depth 14

  -- No lesson was sent, or the run succeeded.
  abbrev NoneOrSucceeded : TaskStatus → History → Type 0
  NoneOrSucceeded status h = (status.phase ≡ TaskPhase.succeeded) ⊎ (lessons h ≡ l)

  remembered :
      (out : String) (tools files : List String) (url : String) (status : TaskStatus)
      → status.phase ≡ TaskPhase.succeeded
      → Triple
          (Quiet (watch l w.request.task_id))
          (remember w out tools files url >> pure status)
          (λ status s. NoneOrSucceeded status s.history)
          (Quiet (watch l w.request.task_id))
  remembered out tools files url status e =
      let Q : Session → Type 0 = Quiet (watch l w.request.task_id) in
      let R : TaskStatus → Session → Type 0 = λ status s. NoneOrSucceeded status s.history in
      Triple-bind Q (remember w out tools files url) (Always Anything) _ R Q
        (Triple-weaken Anything Q _ (Always Anything) (Always Anything) (λ _. ⊥) Q (λ s p. tt)
          (λ a s p. tt) (λ s never. absurd never)
          (Triple-Total Anything _ (Always Anything) Anything (remember-Total out tools files url)
            (Keeps-any _)))
        (λ _. Triple-pure Anything R Q status (λ s p. inl e))

-- A run sends no lesson for the shared memory unless it succeeds: where the phase that it returns is
-- Incomplete or Failed, the bulk calls of the run hold no document for the index of the shared memory.
pub run_task-lessons :
    (w : World) (h : History)
    → Ends
        (λ status k. (status.phase ≡ TaskPhase.succeeded) ⊎ (lessons k ≡ lessons h))
        (λ _. ⊥)
        (run_task w h)
run_task-lessons w h =
    let l = lessons h in
    let q = watch l w.request.task_id in
    let spares = no_lesson l w.request in
    run_task-Good q w spares (NoneOrSucceeded l w)
      (Quiet-Closes q w spares (NoneOrSucceeded l w) (λ status k p. inr p.sent) (remembered l w))
      refl h refl
