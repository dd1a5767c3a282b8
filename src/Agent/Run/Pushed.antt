-- ===== src/Agent/Run/Pushed.antt =====
-- A run that does not fail has pushed its branch.
use bulletfarm.Prelude.{ℕ, String, ◌≡◌, refl, ◌⊎◌, inl, inr, true, Option, some, List, [], ◌∷◌, beq}
use bulletfarm.Prelude.Exec.{Exn, Result, ok, raised, pure, raise, ◌>>=◌}
use bulletfarm.Prelude.Triple.{
  Triple, Ends, Always, Keeps, Triple-pure, Triple-raise, keeps_rules, Keeps-if, Keeps-pure,
  Triple-if, Triple-bind, Triple-attempt, Triple-weaken,
}
use bulletfarm.Outside.{Message, PullRequest, Completed, Call, History, Machine, call}
use bulletfarm.Models.{TaskPhase, TaskStatus}
use bulletfarm.Github.Client.{RepoInfo}
use bulletfarm.Agent.Keeps.{IsStable, bulk_write-Keeps, create_draft_pr-Keeps, comment_on_pr-Keeps}
use bulletfarm.Agent.Session.{
  World, Session, Run, progress, run_command, run_checked, command_failed,
}
use bulletfarm.Agent.Rules.{
  Anything, before, Past, Keeps-lift, Keeps-get_buffer, run_rules, run_command-Keeps,
  buffer_task_memory-Keeps, buffer_shared_memory-Keeps,
}
use bulletfarm.Agent.Prepare.{workspace, branch_name}
use bulletfarm.Agent.Finish.{
  open_pull, finish_changes, finish_incomplete, commit_and_push, modified_files, publish, remember,
  handle_changes, handle_incomplete,
}
use bulletfarm.Agent.Run.Whole.{run_task_of_body}
use bulletfarm.Agent.Run.{
  evaluate, run_steps, store_failure, failure_status, handle_failure, run_body, run_task,
}

-- A command was run in a directory, and its exit status was 0.
pub data Ran (m : Machine) (args : List String) (cwd : Option String) : History → Type 0 where
  now :
      (h : History) (done : Completed)
      → m.run (Call.run_command args cwd ∷ h) ≡ ok done
      → beq done.returncode 0 ≡ true
      → Ran m args cwd (Call.run_command args cwd ∷ h)
  before_that : (c : Call) {h : History} → Ran m args cwd h → Ran m args cwd (c ∷ h)

-- The push of the task's branch.
abbrev pub push_args : World → List String
push_args w = "git" ∷ "push" ∷ "-u" ∷ "origin" ∷ branch_name w.request ∷ []

abbrev pub HasPushed : World → History → Type 0
HasPushed w = Ran w.machine (push_args w) (some (workspace w.request))

module _ (w : World) where
  -- What `run_command` leaves: the call at the head of the history, answered by `done`.
  abbrev Returned : List String → Option String → Completed → Session → Type 0
  Returned args cwd done s =
      (h : History) × (s.history ≡ Call.run_command args cwd ∷ h)
      × (w.machine.run (Call.run_command args cwd ∷ h) ≡ ok done)

  answered :
      (args : List String) (cwd : Option String) (s : Session) (r : Result Completed)
      → w.machine.run (Call.run_command args cwd ∷ s.history) ≡ r
      → Ends
          (Returned args cwd)
          Anything
          (r, record s { history = Call.run_command args cwd ∷ s.history })
  answered args cwd s (ok done) e = (s.history, refl, e)
  answered args cwd s (raised x) e = tt

  run_command-Returned :
      (args : List String) (cwd : Option String)
      → Triple Anything (run_command w args cwd) (Returned args cwd) Anything
  unfolding run_command
  run_command-Returned args cwd = record { at = λ s _. answered args cwd s _ refl }

  run_checked-Ran :
      (args : List String) (cwd : Option String)
      → Triple Anything (run_checked w args cwd) (λ _ s. Ran w.machine args cwd s.history) Anything
  unfolding run_checked
  run_checked-Ran args cwd =
      let Q : Unit {0} → Session → Type 0 = λ _ s. Ran w.machine args cwd s.history in
      Triple-bind Anything (run_command w args cwd) (Returned args cwd) _ Q Anything
        (run_command-Returned args cwd)
        (λ done.
          Triple-if (Returned args cwd done) Q Anything (beq done.returncode 0) (pure tt)
            (raise (command_failed args done.returncode))
            (λ zero.
              Triple-pure (Returned args cwd done) Q Anything tt
                (λ s r. let (h, e, answer) = r in rw e (now h done answer zero)))
            (λ _. Triple-raise (Returned args cwd done) Q Anything _ (λ s r. tt)))

  abbrev P : History → Type 0
  P = HasPushed w

  stable : IsStable P
  stable = record {
    calm = record { stable = λ c h _ p. before_that c p };
    bulks = λ docs h p. before_that _ p;
  }

  progress-Keeps : (n : ℕ) (m : String) → Keeps (Past P) (progress w n m)
  unfolding progress
  progress-Keeps n m = Keeps-lift P _ (
      Keeps-if w.has_callback (call (λ h. ok tt) (Call.report w.request.task_id n m)) (pure tt)
        (record { at = λ h p. before_that _ p }) (Keeps-pure tt))

  modified_files-Keeps : Keeps (Past P) (modified_files w)
  unfolding modified_files
  modified_files-Keeps = search (keeps_rules, run_command-Keeps stable.calm w)

  publish-Keeps :
      (info : RepoInfo) (out : String) (files : List String)
      → Keeps (Past P) (publish w info out files)
  unfolding publish
  publish-Keeps info out files =
      search (run_rules, create_draft_pr-Keeps stable.calm, comment_on_pr-Keeps stable.calm) depth 8

  remember-Keeps :
      (out : String) (tools files : List String) (url : String)
      → Keeps (Past P) (remember w out tools files url)
  unfolding remember
  remember-Keeps out tools files url =
      search
        (
          run_rules,
          progress-Keeps,
          buffer_task_memory-Keeps stable.calm w,
          buffer_shared_memory-Keeps stable.calm w,
          bulk_write-Keeps stable,
        )
        depth 9

  -- Once pushed, a run stays pushed through any further step that keeps its past.
  after :
      {A B : Type 0} {Q : B → Session → Type 0} (m : Run A) (f : A → Run B)
      → Keeps (Past P) m
      → ((a : A) → Triple (Past P) (f a) Q Anything)
      → Triple (Past P) (m >>= f) Q Anything
  after {Q} m f k t =
      Triple-bind (Past P) m (Always (Past P)) f Q Anything
        (Triple-weaken (Past P) (Past P) m (Always (Past P)) (Always (Past P)) (Past P) Anything
          (λ s h. h) (λ a s h. h) (λ s h. tt) k)
        t

  -- The step that pushes, and what follows it.
  pushing :
      {A B : Type 0} {Q : B → Session → Type 0} (m : Run A) (f : A → Run B)
      → Triple Anything m (Always (Past P)) Anything
      → ((a : A) → Triple (Past P) (f a) Q Anything)
      → Triple Anything (m >>= f) Q Anything
  pushing {Q} m f k t = Triple-bind Anything m (Always (Past P)) f Q Anything k t

  abbrev Q : TaskStatus → Session → Type 0
  Q status s = Past P s

  commit_and_push-Pushed : Triple Anything (commit_and_push w) (Always (Past P)) Anything
  unfolding commit_and_push
  commit_and_push-Pushed = search (before, run_checked-Ran)

  finish_changes-Pushed :
      (info : RepoInfo) (out : String) (tools : List String)
      → Triple (Past P) (finish_changes w info out tools) Q Anything
  unfolding finish_changes
  finish_changes-Pushed info out tools =
      search
        (after, progress-Keeps, modified_files-Keeps, publish-Keeps, remember-Keeps, Triple-pure)
        depth 9

  changes-Pushed :
      (info : RepoInfo) (out : String) (tools : List String)
      → Triple Anything (handle_changes w info out tools) Q Anything
  unfolding handle_changes
  changes-Pushed info out tools = search (pushing, commit_and_push-Pushed, finish_changes-Pushed)

  open_pull-Keeps : (pull : PullRequest) → Keeps (Past P) (open_pull w pull)
  open_pull-Keeps pull = search (run_rules, create_draft_pr-Keeps stable.calm)

  finish_incomplete-Pushed :
      (info : RepoInfo) (out : String) (tools : List String)
      → Triple (Past P) (finish_incomplete w info out tools) Q Anything
  unfolding finish_incomplete
  finish_incomplete-Pushed info out tools =
      search
        (
          after,
          Keeps-if,
          Keeps-pure,
          open_pull-Keeps,
          Keeps-lift,
          comment_on_pr-Keeps stable.calm,
          buffer_task_memory-Keeps stable.calm w,
          Keeps-get_buffer,
          bulk_write-Keeps stable,
          Triple-pure,
        )
        depth 9

  incomplete-Pushed :
      (info : RepoInfo) (out : String) (tools : List String)
      → Triple Anything (handle_incomplete w info out tools) Q Anything
  unfolding handle_incomplete
  incomplete-Pushed info out tools =
      search (before, pushing, run_checked-Ran, finish_incomplete-Pushed) depth 9

  evaluate-Pushed :
      (info : RepoInfo) (messages : List Message)
      → Triple Anything (evaluate w info messages) Q Anything
  unfolding evaluate
  evaluate-Pushed info messages =
      search (before, Triple-if, changes-Pushed, incomplete-Pushed) depth 14

  pub steps-Pushed : Triple Anything (run_steps w) Q Anything
  unfolding run_steps
  steps-Pushed = search (before, evaluate-Pushed) depth 9

  -- The run failed, or it has pushed.
  abbrev FailedOrPushed : TaskStatus → History → Type 0
  FailedOrPushed status h = (status.phase ≡ TaskPhase.failed) ⊎ HasPushed w h

  abbrev R : TaskStatus → Session → Type 0
  R status s = FailedOrPushed status s.history

  failure-FailedOrPushed : (exc : Exn) → Triple Anything (handle_failure w exc) R Anything
  unfolding handle_failure failure_status
  failure-FailedOrPushed exc =
      before (store_failure w exc) (λ _ s. (ok (failure_status w s.pr_url exc), s))
        (λ _. record { at = λ s h. inl refl })

  body-FailedOrPushed : Triple Anything (run_body w) R Anything
  unfolding run_body
  body-FailedOrPushed =
      Triple-attempt Anything (run_steps w) R Anything Anything (handle_failure w)
        (Triple-weaken Anything Anything (run_steps w) Q R Anything Anything (λ s h. h)
          (λ status s pushed. inr pushed) (λ s h. h) steps-Pushed)
        failure-FailedOrPushed

  -- Where `run_task` returns a phase other than Failed, a `git push` of the task's branch was run in
  -- its clone, and had exit status 0.
  pub run_task-FailedOrPushed : (h : History) → Ends FailedOrPushed (λ _. Unit) (run_task w h)
  run_task-FailedOrPushed = run_task_of_body w FailedOrPushed (λ _. Unit) body-FailedOrPushed
