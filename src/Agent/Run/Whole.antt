-- ===== src/Agent/Run/Whole.antt =====
-- From the body of `run_task` to the whole of it, with its new buffer.
use bulletfarm.Prelude.{refl}
use bulletfarm.Prelude.Triple.{Triple, Ends, Always, Triple-bind}
use bulletfarm.Outside.{Call, History}
use bulletfarm.Memory.Buffer.{MemoryWriteBuffer, create_buffer}
use bulletfarm.Models.{TaskStatus}
use bulletfarm.Agent.Session.{World, Session}
use bulletfarm.Agent.Keeps.{IsStable}
use bulletfarm.Agent.Rules.{Anything, Past, Ends-history}
use bulletfarm.Agent.Run.{run_body, start, run_buffered, run_task}

abbrev Unknown : History → Type 0
Unknown h = Unit

unknown : IsStable Unknown
unknown = record { calm = record { stable = λ c h e p. tt }; bulks = λ docs h p. tt }

module _ (w : World) (P : History → Type 0) (st : IsStable P) (R : TaskStatus → History → Type 0)
    (E : History → Type 0) where
  abbrev InSession : TaskStatus → Session → Type 0
  InSession status s = R status s.history

  buffered :
      Triple (Past P) (run_body w) InSession (Past E)
      → (b : MemoryWriteBuffer) → Triple P (run_buffered w b) R E
  unfolding run_buffered
  buffered body b = record {
    at = λ h p.
        let (r, s) = run_body w (start w b h) in
        Ends-history InSession R (Past E) E (λ status s good. good) (λ s bad. bad) r s
          (body.at (start w b h) p);
  }

  create_buffer-total : Triple P (create_buffer w.host w.request.task_id) (Always P) E
  unfolding create_buffer
  create_buffer-total = record { at = λ h p. st.calm.stable Call.now h refl p }

  pub run_task_from : Triple (Past P) (run_body w) InSession (Past E) → Triple P (run_task w) R E
  unfolding run_task
  run_task_from body =
      Triple-bind P (create_buffer w.host w.request.task_id) (Always P) (run_buffered w) R E
        create_buffer-total (buffered body)

module _ (w : World) (R : TaskStatus → History → Type 0) (E : History → Type 0) where
  pub run_task_of_body :
      Triple Anything (run_body w) (λ status s. R status s.history) (Past E)
      → (h : History) → Ends R E (run_task w h)
  run_task_of_body body h = (run_task_from w Unknown unknown R E body).at h tt
