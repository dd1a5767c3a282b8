-- ===== src/Agent/Writes/Whole.antt =====
-- The documents that a whole run of agent.py sends, as far as a test picks them.
use bulletfarm.Prelude.{String, ◌≡◌, refl, List}
use bulletfarm.Prelude.Exec.{Exn, ok, pure, ◌>>=◌, ◌>>◌}
use bulletfarm.Prelude.Triple.{
  Triple, Ends, Always, Keeps, Triple-if, Triple-bind, Triple-attempt, Triple-weaken,
}
use bulletfarm.Prelude.Total.{Total, Triple-Total}
use bulletfarm.Outside.{Message, PullRequest, History}
use bulletfarm.Models.{TaskPhase, TaskStatus}
use bulletfarm.Memory.Buffer.{MemoryWriteBuffer, create_buffer}
use bulletfarm.Github.Client.{RepoInfo}
use bulletfarm.Agent.Session.{World, Session, Run, progress}
use bulletfarm.Agent.Prepare.{clone_repo, gather_context}
use bulletfarm.Agent.Loop.{run_agent}
use bulletfarm.Agent.Finish.{
  open_pull, modified_files, publish, remember, commit_and_push, finish_changes, finish_incomplete,
  handle_changes, handle_incomplete,
}
use bulletfarm.Agent.Keeps.{create_draft_pr-Keeps, comment_on_pr-Keeps}
use bulletfarm.Agent.Rules.{Ends-history}
use bulletfarm.Agent.Total.{session_rules}
use bulletfarm.Agent.Run.{
  evaluate, run_steps, store_failure, failure_status, handle_failure, run_body, start, run_buffered,
  run_task,
}
use bulletfarm.Agent.Writes.{Watch, Sent, picked, calm, Quiet}
use bulletfarm.Agent.Writes.Loop.{agent-Quiet}
use bulletfarm.Agent.Writes.Parts.{
  SparesRun, quiet_rules, progress-Quiet, run_command-Quiet, run_checked-Quiet, store-Quiet,
  clone-Quiet, gather-Quiet,
}

module _ (q : Watch) (w : World) (spares : SparesRun q w.request) where
  push-Quiet : Keeps (Quiet q) (commit_and_push w)
  unfolding commit_and_push
  push-Quiet = search (quiet_rules, progress-Quiet q w, run_checked-Quiet q w) depth 9

  modified_files-Quiet : Keeps (Quiet q) (modified_files w)
  unfolding modified_files
  modified_files-Quiet = search (quiet_rules, run_command-Quiet q w)

  pub open_pull-Quiet : (pull : PullRequest) → Keeps (Quiet q) (open_pull w pull)
  open_pull-Quiet pull = search (quiet_rules, create_draft_pr-Keeps (calm q))

  publish-Quiet :
      (info : RepoInfo) (out : String) (files : List String)
      → Keeps (Quiet q) (publish w info out files)
  unfolding publish
  publish-Quiet info out files =
      search (quiet_rules, open_pull-Quiet, comment_on_pr-Keeps (calm q)) depth 9

  pub quietly :
      {A B : Type 0} {Q : B → Session → Type 0} (m : Run A) (f : A → Run B)
      → Keeps (Quiet q) m
      → ((a : A) → Triple (Quiet q) (f a) Q (Quiet q))
      → Triple (Quiet q) (m >>= f) Q (Quiet q)
  quietly {Q} m f k t = Triple-bind (Quiet q) m (Always (Quiet q)) f Q (Quiet q) k t

  incomplete-Quiet :
      (info : RepoInfo) (out : String) (tools : List String)
      → Keeps (Quiet q) (handle_incomplete w info out tools)
  unfolding handle_incomplete finish_incomplete
  incomplete-Quiet info out tools =
      search
        (
          quiet_rules,
          progress-Quiet q w,
          run_checked-Quiet q w,
          open_pull-Quiet,
          comment_on_pr-Keeps (calm q),
          store-Quiet q w,
          spares.incompletes,
        )
        depth 16

  pub store_failure-Total : (exc : Exn) → Total (store_failure w exc)
  unfolding store_failure
  store_failure-Total exc = search session_rules

  store_failure-Quiet : (exc : Exn) → Keeps (Quiet q) (store_failure w exc)
  unfolding store_failure
  store_failure-Quiet exc = search (quiet_rules, store-Quiet q w, spares.failures)

  -- What holds of the status and the history, for each way in which a run ends.
  pub record Closes (Good : TaskStatus → History → Type 0) : Type 0 where
    pub changed :
        (out : String) (tools files : List String) (url : String) (status : TaskStatus)
        → status.phase ≡ TaskPhase.succeeded
        → status.pull_request_url ≡ url
        → status.task_id ≡ w.request.task_id
        → Triple
            (Quiet q)
            (remember w out tools files url >> pure status)
            (λ status s. Good status s.history)
            (Quiet q)
    pub incomplete :
        (info : RepoInfo) (out : String) (tools : List String)
        → Triple
            (Quiet q)
            (handle_incomplete w info out tools)
            (λ status s. Good status s.history)
            (Quiet q)
    pub failed :
        (exc : Exn)
        → Triple (Quiet q) (handle_failure w exc) (λ status s. Good status s.history) (λ _. ⊥)

  module _ (Good : TaskStatus → History → Type 0) where
    abbrev Kept : TaskStatus → Session → Type 0
    Kept status s = Good status s.history

    -- It holds where no document was picked, and where the results of a success were stored.
    pub Quiet-Closes :
        ((status : TaskStatus) (h : History) → Sent q h → Good status h)
        → ((out : String) (tools files : List String) (url : String) (status : TaskStatus)
            → status.phase ≡ TaskPhase.succeeded
            → Triple (Quiet q) (remember w out tools files url >> pure status) Kept (Quiet q))
        → Closes Good
    unfolding handle_failure failure_status
    Quiet-Closes quiet remembered = record {
      changed = λ out tools files url status e same own. remembered out tools files url status e;
      incomplete = λ info out tools.
          Triple-weaken (Quiet q) (Quiet q) _ (Always (Quiet q)) Kept (Quiet q) (Quiet q) (λ s p. p)
            (λ status s p. quiet status s.history (record { sent = p.said })) (λ s p. p)
            (incomplete-Quiet info out tools);
      failed = λ exc.
          Triple-bind (Quiet q) (store_failure w exc) (Always (Quiet q))
            (λ _ s. (ok (failure_status w s.pr_url exc), s)) Kept (λ _. ⊥)
            (Triple-Total (Quiet q) _ (Always (Quiet q)) (Quiet q) (store_failure-Total exc)
              (store_failure-Quiet exc))
            (λ _. record { at = λ s p. quiet _ s.history (record { sent = p.said }) });
    }

  module _ (Good : TaskStatus → History → Type 0) (closes : Closes Good) where
    changes-Ended :
        (info : RepoInfo) (out : String) (tools : List String)
        → Triple (Quiet q) (handle_changes w info out tools) (Kept Good) (Quiet q)
    unfolding handle_changes finish_changes
    changes-Ended info out tools = quietly (commit_and_push w) _ push-Quiet (λ _.
        quietly (progress w 85 "Creating draft PR") _ (progress-Quiet q w 85 _) (λ _.
          quietly (modified_files w) _ modified_files-Quiet (λ files.
            quietly (publish w info out files) _ (publish-Quiet info out files)
              (λ url. closes.changed out tools files url _ refl refl refl))))

    evaluate-Ended :
        (info : RepoInfo) (messages : List Message)
        → Triple (Quiet q) (evaluate w info messages) (Kept Good) (Quiet q)
    unfolding evaluate
    evaluate-Ended info messages =
        search
          (
            quietly,
            progress-Quiet q w,
            run_checked-Quiet q w,
            run_command-Quiet q w,
            Triple-if,
            closes.incomplete,
            changes-Ended,
          )
          depth 14

    steps-Ended : Triple (Quiet q) (run_steps w) (Kept Good) (Quiet q)
    unfolding run_steps
    steps-Ended = quietly (clone_repo w) _ (clone-Quiet q w) (λ _.
        quietly (gather_context w) _ (gather-Quiet q w) (λ c.
          quietly (run_agent w c.1) (evaluate w c.0) (agent-Quiet q w spares c.1)
            (evaluate-Ended c.0)))

    body-Ended : Triple (Quiet q) (run_body w) (Kept Good) (λ _. ⊥)
    unfolding run_body
    body-Ended =
        Triple-attempt (Quiet q) (run_steps w) (Kept Good) (Quiet q) (λ _. ⊥) (handle_failure w)
          steps-Ended closes.failed

    abbrev Fresh : MemoryWriteBuffer → History → Type 0
    Fresh b h = Quiet q (start w b h)

    buffered : (b : MemoryWriteBuffer) → Triple (Fresh b) (run_buffered w b) Good (λ _. ⊥)
    unfolding run_buffered
    buffered b = record {
      at = λ h p.
          let (r, s) = run_body w (start w b h) in
          Ends-history (Kept Good) Good (λ _. ⊥) (λ _. ⊥) (λ status s good. good) (λ s bad. bad) r s
            (body-Ended.at (start w b h) p);
    }

    pub run_task-Good :
        w.request.task_id ≡ q.owner
        → (h : History) → picked q.picks h ≡ q.earlier
        → Ends Good (λ _. ⊥) (run_task w h)
    unfolding run_task create_buffer
    run_task-Good owned h sent =
        (Triple-bind (λ k. picked q.picks k ≡ q.earlier) (create_buffer w.host w.request.task_id)
            Fresh (run_buffered w) Good (λ _. ⊥)
            (record { at = λ k p. record { said = p; held = refl; owned = owned } }) buffered).at
          h sent
