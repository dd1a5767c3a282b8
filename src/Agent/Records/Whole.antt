-- ===== src/Agent/Records/Whole.antt =====
-- The record that a whole run of agent.py leaves.
use text.Mathlib.TextPositions.{eq_refl}
use bulletfarm.Prelude.{ℕ, String, ◌≡◌, refl, Bool, true, false, List, ◌∷◌, if◌then◌else◌}
use bulletfarm.Prelude.Dict.{get, put, update}
use bulletfarm.Prelude.Exec.{Exn, ok, pure, ◌>>=◌, ◌>>◌}
use bulletfarm.Prelude.Triple.{
  Triple, Ends, Always, Keeps, Triple-bind, Triple-weaken, Triple-pure, Triple-attempt, Triple-if,
}
use bulletfarm.Prelude.Total.{Total, Triple-Total}
use bulletfarm.Outside.{Doc, Call, History}
use bulletfarm.Models.{TaskPhase, phase_value, TaskStatus}
use bulletfarm.Memory.Buffer.{add_task_memory}
use bulletfarm.Memory.Bulk.{bulk_write}
use bulletfarm.Github.Client.{RepoInfo}
use bulletfarm.Agent.Session.{
  World, Session, Run, lift, get_buffer, progress, buffer_task_memory, buffer_shared_memory,
}
use bulletfarm.Agent.Documents.{incomplete_doc, task_memory_doc}
use bulletfarm.Agent.Finish.{remember, finish_incomplete, handle_incomplete}
use bulletfarm.Agent.Keeps.{comment_on_pr-Keeps}
use bulletfarm.Agent.Rules.{Anything}
use bulletfarm.Agent.Total.{
  session_rules, bulk_write-Total, buffer_task_memory-Total, buffer_shared_memory-Total,
  progress-Total,
}
use bulletfarm.Agent.Run.{failure_doc, failure_status, store_failure, handle_failure, run_task}
use bulletfarm.Agent.Writes.{Watch, Quiet, picked, calm}
use bulletfarm.Agent.Writes.Parts.{
  SparesRun, task_doc, quiet_rules, progress-Quiet, run_checked-Quiet,
}
use bulletfarm.Agent.Writes.Whole.{quietly, open_pull-Quiet, run_task-Good}
use bulletfarm.Agent.Records.{
  is_record, Recorded, any_middle, Held, Held-lift, Held-lesson, Closed, flush-Recorded,
}

-- Nothing is watched but whose buffer it is.
abbrev watch : List Doc → String → Watch
watch l id = record { picks = λ _. false; earlier = l; owner = id }

module _ (l : List Doc) (w : World) where
  abbrev owner : Watch
  owner = watch l w.request.task_id

  abbrev Owned : Session → Type 0
  Owned = Quiet owner

  spared : SparesRun owner w.request
  spared = record {
    checkpoints = λ n stamp. refl;
    incompletes = λ out tools url stamp. refl;
    failures = λ exc stamp. refl;
  }

  -- Where it raises nothing, what holds when it raises does not matter.
  surely :
      {A : Type 0} (Q : A → Session → Type 0) (m : Run A) (P : Session → Type 0)
      → Total m
      → Triple Owned m Q Anything
      → Triple Owned m Q P
  surely Q m P t k =
      Triple-weaken Owned Owned m Q Q (λ _. ⊥) P (λ s p. p) (λ a s r. r) (λ s never. absurd never)
        (Triple-Total Owned m Q Anything t k)

  module _ (status : TaskStatus) where
    abbrev Records : Doc → Type 0
    Records doc = (stamp : ℕ) → is_record status (task_doc w.request.task_id stamp doc) ≡ true

    buffer-Held :
        (doc : Doc)
        → Records doc
        → Triple Owned (buffer_task_memory w doc) (λ _. Held w status) Anything
    unfolding buffer_task_memory add_task_memory
    buffer-Held doc records = record {
      at = λ s p.
          any_middle (is_record status) s.buffer.task_memory_docs s.buffer.shared_memory_docs _
            (rw p.owned (records (w.host.now (Call.now ∷ s.history))));
    }

    -- The document is added, the buffer is sent, and nothing is called after.
    stored :
        {A : Type 0} (doc : Doc) (Q : A → Session → Type 0) (a : A) (P : Session → Type 0)
        → Records doc
        → ((s : Session) → Recorded status s.history → Q a s)
        → Triple Owned
            (do buffer_task_memory w doc; b ← get_buffer; lift (bulk_write w.es b); pure a)
            Q
            P
    stored doc Q a P records recorded =
        surely Q _ P (search (session_rules, buffer_task_memory-Total w, bulk_write-Total) depth 9)
          (Triple-bind Owned (buffer_task_memory w doc) (λ _. Held w status) _ Q Anything
            (buffer-Held doc records) (λ _. flush-Recorded w status Q a recorded))

  module _ (out : String) (tools : List String) (url : String) where
    incomplete-Records :
        (status : TaskStatus)
        → status.task_id ≡ w.request.task_id
        → status.phase ≡ TaskPhase.incomplete
        → status.pull_request_url ≡ url
        → Records status (incomplete_doc w.request out tools url)
    unfolding incomplete_doc update put get is_record phase_value
    incomplete-Records status a b c stamp =
        rw (a, b, c, eq_refl w.request.task_id, eq_refl url) refl

    success-Records :
        (files : List String) (status : TaskStatus)
        → status.task_id ≡ w.request.task_id
        → status.phase ≡ TaskPhase.succeeded
        → status.pull_request_url ≡ url
        → Records status (task_memory_doc w.request out tools files url)
    unfolding task_memory_doc update put get is_record phase_value
    success-Records files status a b c stamp =
        rw (a, b, c, eq_refl w.request.task_id, eq_refl url) refl

  failure-Records :
      (exc : Exn) (url : String) → Records (failure_status w url exc) (failure_doc w.request exc)
  unfolding failure_doc failure_status update put get is_record phase_value
  failure-Records exc url stamp = rw (eq_refl w.request.task_id) refl

  first :
      {A B : Type 0} {Q : B → Session → Type 0} (m : Run A) (f : A → Run B)
      → Keeps Owned m
      → ((a : A) → Triple Owned (f a) Q Anything)
      → Triple Owned (m >>= f) Q Anything
  first {Q} m f k t =
      Triple-bind Owned m (Always Owned) f Q Anything
        (Triple-weaken Owned Owned m (Always Owned) (Always Owned) Owned Anything (λ s p. p)
          (λ a s p. p) (λ s p. tt) k)
        t

  -- What comes between the record and the bulk write.
  between :
      {A B : Type 0} {Q : B → Session → Type 0} (status : TaskStatus) (m : Run A) (f : A → Run B)
      → Triple (Held w status) m (Always (Held w status)) Anything
      → ((a : A) → Triple (Held w status) (f a) Q Anything)
      → Triple (Held w status) (m >>= f) Q Anything
  between {Q} status m f k t =
      Triple-bind (Held w status) m (Always (Held w status)) f Q Anything k t

  lesson-Held :
      (status : TaskStatus) (gate : Bool) (doc : Doc)
      → Triple
          (Held w status)
          (if gate then buffer_shared_memory w doc else pure tt)
          (Always (Held w status))
          Anything
  lesson-Held status gate doc =
      Triple-if (Held w status) (Always (Held w status)) Anything gate _ _
        (λ _. Held-lesson w status doc)
        (λ _. Triple-pure (Held w status) (Always (Held w status)) Anything tt (λ s e. e))

  remember-Records :
      (out : String) (tools files : List String) (url : String) (status : TaskStatus)
      → status.task_id ≡ w.request.task_id
      → status.phase ≡ TaskPhase.succeeded
      → status.pull_request_url ≡ url
      → Triple Owned (remember w out tools files url) (Closed w status) Anything
  unfolding remember progress
  remember-Records out tools files url status a b c =
      let doc = task_memory_doc w.request out tools files url in
      first (progress w 95 "Buffering results in memory") _ (progress-Quiet owner w 95 _) (λ _.
        Triple-bind Owned (buffer_task_memory w doc) (λ _. Held w status) _ (Closed w status)
          Anything (buffer-Held status doc (success-Records out tools url files status a b c))
          (λ _. between status _ _ (lesson-Held status _ _) (λ _.
            between status (progress w 98 "Flushing memory to Elasticsearch") _
              (Held-lift w status _)
              (λ _. flush-Recorded w status (Closed w status) tt (λ s r. r)))))

  abbrev Left : TaskStatus → Session → Type 0
  Left status s = Recorded status s.history

  incomplete-Recorded :
      (info : RepoInfo) (out : String) (tools : List String)
      → Triple Owned (handle_incomplete w info out tools) Left Owned
  unfolding handle_incomplete finish_incomplete
  incomplete-Recorded info out tools =
      let finished =
        λ (url : String) (status : TaskStatus) (a : status.task_id ≡ w.request.task_id)
            (b : status.phase ≡ TaskPhase.incomplete) (c : status.pull_request_url ≡ url).
          stored status (incomplete_doc w.request out tools url) Left status Owned
            (incomplete-Records out tools url status a b c) (λ s r. r) in
      search
        (
          quietly owner w spared,
          quiet_rules,
          progress-Quiet owner w,
          run_checked-Quiet owner w,
          open_pull-Quiet owner w spared,
          comment_on_pr-Keeps (calm owner),
          finished,
        )
        depth 16

  store_failure-Records :
      (exc : Exn) (url : String)
      → Triple Owned (store_failure w exc) (Closed w (failure_status w url exc)) (λ _. ⊥)
  unfolding store_failure
  store_failure-Records exc url =
      let status = failure_status w url exc in
      Triple-attempt Owned _ (Closed w status) (λ _. ⊥) (λ _. ⊥) (λ mem_exc. pure tt)
        (stored status (failure_doc w.request exc) (Closed w status) tt (λ _. ⊥)
          (failure-Records exc url) (λ s r. r))
        (λ mem_exc. record { at = λ s never. absurd never })

  -- The record of a failure does not hold the address of a pull request.
  failure-Recorded : (exc : Exn) → Triple Owned (handle_failure w exc) Left (λ _. ⊥)
  unfolding handle_failure failure_status is_record
  failure-Recorded exc =
      Triple-bind Owned (store_failure w exc) (Closed w (failure_status w "" exc))
        (λ _ s. (ok (failure_status w s.pr_url exc), s)) Left (λ _. ⊥)
        (store_failure-Records exc "") (λ _. record { at = λ s r. r })

  success-Recorded :
      (out : String) (tools files : List String) (url : String) (status : TaskStatus)
      → status.phase ≡ TaskPhase.succeeded
      → status.pull_request_url ≡ url
      → status.task_id ≡ w.request.task_id
      → Triple Owned (remember w out tools files url >> pure status) Left Owned
  unfolding remember
  success-Recorded out tools files url status b c a =
      surely Left _ Owned
        (search
          (
            session_rules,
            progress-Total w,
            buffer_task_memory-Total w,
            buffer_shared_memory-Total w,
            bulk_write-Total,
          )
          depth 14)
        (Triple-bind Owned (remember w out tools files url) (Closed w status) _ Left Anything
          (remember-Records out tools files url status a b c)
          (λ _. Triple-pure (Closed w status tt) Left Anything status (λ s r. r)))

-- Whatever its end, a run leaves a record of it: the last call that it makes is a bulk write, and among
-- the documents is one for the task memory with the id of the task and the phase that the run returns,
-- and, unless the run failed, with the address of the pull request that it returns.
pub run_task-Recorded : (w : World) (h : History) → Ends Recorded (λ _. ⊥) (run_task w h)
run_task-Recorded w h =
    let l = picked (λ _. false) h in
    run_task-Good (owner l w) w (spared l w) Recorded
      (record {
        changed = success-Recorded l w;
        incomplete = incomplete-Recorded l w;
        failed = failure-Recorded l w;
      })
      refl h refl
