-- ===== src/Agent/Run/Rising.antt =====
-- The percents that `run_task` of agent.py reports.
use bulletfarm.Prelude.{
  none, ℕ, ◌≤◌, String, ◌≡◌, refl, Bool, true, false, List, leb, leb→le, arith, if◌then◌else◌,
}
use bulletfarm.Prelude.Exec.{ok, pure, ◌>>=◌}
use bulletfarm.Prelude.Triple.{
  Keeps-bind, Keeps-pure, Triple, Ends, Always, Keeps, Triple-bind, Triple-weaken, Triple-if,
  Triple-attempt, Keeps-if,
}
use bulletfarm.Outside.{Message, Call, History, call}
use bulletfarm.Github.Client.{RepoInfo}
use bulletfarm.Agent.Session.{World, Session, Run, lift, progress}
use bulletfarm.Agent.Prepare.{clone_git, gather_parts, clone_repo, gather_context, git_checked}
use bulletfarm.Agent.Loop.{llm_loop, run_agent, max_llm_retries, messages_of}
use bulletfarm.Agent.Evaluate.{last_content, unique_tools, task_incomplete}
use bulletfarm.Agent.Finish.{
  commit_and_push, finish_changes, handle_changes, remember, handle_incomplete,
}
use bulletfarm.Agent.Run.Whole.{run_task_from}
use bulletfarm.Agent.Run.{evaluate, run_steps, run_body, handle_failure, run_task}
use bulletfarm.Agent.Keeps.{Keeps-call, bulk_write-Keeps}
use bulletfarm.Agent.Rules.{
  Past, Keeps-set_result, Keeps-state, Keeps-get_buffer, Keeps-lift, run_command-Keeps,
  run_checked-Keeps, buffer_task_memory-Keeps, buffer_shared_memory-Keeps,
}
use bulletfarm.Agent.Steps.{
  clone_git-Keeps, gather_parts-Keeps, modified_files-Keeps, publish-Keeps, finish_incomplete-Keeps,
  handle_failure-Keeps, llm_loop-Keeps,
}
use bulletfarm.Agent.Run.Percents.{
  unreported, reported, UpTo, percents, UpTo-mono, same_percents, stable, leb_refl,
}

module _ (w : World) (old : List ℕ) where
  abbrev At : ℕ → Session → Type 0
  At n = Past (UpTo old n)

  -- From reports up to `a`, the step reports up to `b`; an exception leaves them at most 98.
  abbrev Climbs : {A : Type 0} → ℕ → Run A → ℕ → Type 0
  Climbs a m b = Triple (At a) m (Always (At b)) (At 98)

  staying :
      {A : Type 0} (a b : ℕ) (m : Run A)
      → Keeps (At b) m
      → leb a b ≡ true
      → leb b 98 ≡ true
      → Climbs a m b
  staying a b m k e f =
      Triple-weaken (At b) (At a) m (Always (At b)) (Always (At b)) (At b) (At 98)
        (λ s. UpTo-mono old a b s.history (leb→le a b e)) (λ x s h. h)
        (λ s. UpTo-mono old b 98 s.history (leb→le b 98 f)) k

  then_climb :
      {A B : Type 0} (a b c : ℕ) (m : Run A) (f : A → Run B)
      → Climbs a m b
      → ((x : A) → Climbs b (f x) c)
      → Climbs a (m >>= f) c
  then_climb a b c m f t u = Triple-bind (At a) m (Always (At b)) f (Always (At c)) (At 98) t u

  reporting :
      (a n : ℕ) (message : String) (b : Bool) (s : Session)
      → a ≤ n
      → At a s
      → Ends
          (Always (At n))
          (λ s. ⊥)
          (lift
            (if b then call (λ h. ok tt) (Call.report w.request.task_id n message) else pure tt)
            s)
  reporting a n message true s le u = record {
    last = n;
    below = omega arith;
    rises = reported u.last n (percents s.history) (let low = u.below in omega arith) u.rises;
  }
  reporting a n message false s le p = UpTo-mono old a n s.history le p

  reports :
      (a n : ℕ) (message : String)
      → leb a n ≡ true
      → Triple (At a) (progress w n message) (Always (At n)) (λ s. ⊥)
  unfolding progress
  reports a n message e = record {
    at = λ s p. reporting a n message w.has_callback s (leb→le a n e) p;
  }

  progress-Climbs :
      (a n : ℕ) (message : String) → leb a n ≡ true → Climbs a (progress w n message) n
  progress-Climbs a n message e =
      Triple-weaken (At a) (At a) (progress w n message) (Always (At n)) (Always (At n)) (λ s. ⊥)
        (At 98) (λ s p. p) (λ a s p. p) (λ s p. absurd p) (reports a n message e)

  progress-Keeps :
      (n : ℕ) (message : String) → leb n 98 ≡ true → Keeps (At n) (progress w n message)
  unfolding progress
  progress-Keeps n message e =
      Triple-weaken (At n) (At n) (progress w n message) (Always (At n)) (Always (At n)) (λ s. ⊥)
        (At n) (λ s p. p) (λ a s p. p) (λ s p. absurd p) (reports n n message (leb_refl n))

  git-Keeps : (n : ℕ) (args : List String) → Keeps (At n) (git_checked w args)
  git-Keeps n args = run_checked-Keeps (stable old n).calm w _ _

  report_then :
      {B : Type 0} (a n c : ℕ) (message : String) (f : Unit {0} → Run B)
      → leb a n ≡ true
      → ((x : Unit {0}) → Climbs n (f x) c)
      → Climbs a (progress w n message >>= f) c
  report_then a n c message f e t =
      then_climb a n c (progress w n message) f (progress-Climbs a n message e) t

  keep_then :
      {A B : Type 0} (a c : ℕ) (m : Run A) (f : A → Run B)
      → Keeps (At a) m
      → leb a 98 ≡ true
      → ((x : A) → Climbs a (f x) c)
      → Climbs a (m >>= f) c
  keep_then a c m f k e t = then_climb a a c m f (staying a a m k (leb_refl a) e) t

  clone-Climbs : Climbs 0 (clone_repo w) 10
  unfolding clone_repo
  clone-Climbs =
      report_then 0 10 10 _ _ refl
        (λ _. staying 10 10 (clone_git w) (clone_git-Keeps (stable old 10) w) refl refl)

  gather-Climbs : Climbs 10 (gather_context w) 20
  unfolding gather_context
  gather-Climbs =
      report_then 10 20 20 _ _ refl
        (λ _. staying 20 20 (gather_parts w) (gather_parts-Keeps (stable old 20) w) refl refl)

  agent-Climbs : (prompt : String) → Climbs 20 (run_agent w prompt) 45
  unfolding run_agent
  agent-Climbs prompt = report_then 20 30 45 _ _ refl (λ _.
      keep_then 30 45 _ _ (Keeps-lift _ _ (Keeps-call w.graph.build _ (stable old 30).calm refl))
        refl
        (λ _. report_then 30 40 45 _ _ refl (λ _.
          keep_then 40 45 _ _ (Keeps-set_result _ none) refl (λ _.
            then_climb 40 45 45 _ _
              (staying 40 45 (llm_loop w prompt max_llm_retries 0)
                (llm_loop-Keeps (stable old 45) w (λ p h u. same_percents old 45 h _ refl u)
                  (λ p h u. same_percents old 45 h _ refl u)
                  (λ p h u. same_percents old 45 h _ refl u)
                  (λ message. progress-Keeps 45 message refl) prompt max_llm_retries 0)
                refl refl)
              (λ _. staying 45 45 _ (Keeps-state _ (λ s. messages_of s.result)) refl refl)))))

  push-Climbs : Climbs 70 (commit_and_push w) 75
  unfolding commit_and_push
  push-Climbs =
      report_then 70 75 75 _ _ refl
        (λ _. staying 75 75 _ (Keeps-bind _ _ (git-Keeps 75 _) (λ _. git-Keeps 75 _)) refl refl)

  remember-Climbs :
      (out : String) (tools files : List String) (url : String)
      → Climbs 85 (remember w out tools files url) 98
  unfolding remember
  remember-Climbs out tools files url = report_then 85 95 98 _ _ refl (λ _.
      keep_then 95 98 _ _ (buffer_task_memory-Keeps (stable old 95).calm w _) refl (λ _.
        keep_then 95 98 _ _
          (Keeps-if _ _ _ (buffer_shared_memory-Keeps (stable old 95).calm w _) (Keeps-pure tt))
          refl
          (λ _. report_then 95 98 98 _ _ refl (λ _.
            keep_then 98 98 _ _ (Keeps-get_buffer _) refl (λ b.
              keep_then 98 98 _ _ (Keeps-lift _ _ (bulk_write-Keeps (stable old 98) w.es b)) refl
                (λ _. staying 98 98 _ (Keeps-pure tt) refl refl))))))

  finish-Climbs :
      (info : RepoInfo) (out : String) (tools : List String)
      → Climbs 75 (finish_changes w info out tools) 98
  unfolding finish_changes
  finish-Climbs info out tools = report_then 75 85 98 _ _ refl (λ _.
      keep_then 85 98 _ _ (modified_files-Keeps (stable old 85) w) refl (λ files.
        keep_then 85 98 _ _ (publish-Keeps (stable old 85) w info out files) refl (λ url.
          then_climb 85 98 98 _ _ (remember-Climbs out tools files url)
            (λ _. staying 98 98 _ (Keeps-pure _) refl refl))))

  changes-Climbs :
      (info : RepoInfo) (out : String) (tools : List String)
      → Climbs 70 (handle_changes w info out tools) 98
  unfolding handle_changes
  changes-Climbs info out tools =
      then_climb 70 75 98 _ _ push-Climbs (λ _. finish-Climbs info out tools)

  incomplete-Climbs :
      (info : RepoInfo) (out : String) (tools : List String)
      → Climbs 70 (handle_incomplete w info out tools) 98
  unfolding handle_incomplete
  incomplete-Climbs info out tools = report_then 70 90 98 _ _ refl (λ _.
      keep_then 90 98 _ _
        (Keeps-lift _ _ (Keeps-call w.machine.write_file _ (stable old 90).calm refl)) refl
        (λ _. keep_then 90 98 _ _ (git-Keeps 90 _) refl (λ _.
          keep_then 90 98 _ _ (git-Keeps 90 _) refl (λ _.
            keep_then 90 98 _ _ (git-Keeps 90 _) refl (λ _.
              staying 90 98 _ (finish_incomplete-Keeps (stable old 98) w info out tools) refl
                refl)))))

  evaluate-Climbs :
      (info : RepoInfo) (messages : List Message) → Climbs 45 (evaluate w info messages) 98
  unfolding evaluate
  evaluate-Climbs info messages = report_then 45 70 98 _ _ refl (λ _.
      keep_then 70 98 _ _ (git-Keeps 70 _) refl (λ _.
        keep_then 70 98 _ _ (run_command-Keeps (stable old 70).calm w _ _) refl (λ diff.
          let out = last_content messages in
          let tools = unique_tools messages in
          Triple-if (At 70) (Always (At 98)) (At 98) (task_incomplete diff.stdout out tools)
            (handle_incomplete w info out tools) (handle_changes w info out tools)
            (λ _. incomplete-Climbs info out tools) (λ _. changes-Climbs info out tools))))

  steps-Climbs : Climbs 0 (run_steps w) 98
  unfolding run_steps
  steps-Climbs = then_climb 0 10 98 _ _ clone-Climbs (λ _.
      then_climb 10 20 98 _ _ gather-Climbs
        (λ c. then_climb 20 45 98 _ _ (agent-Climbs c.1) (evaluate-Climbs c.0)))

  body-Climbs : Climbs 0 (run_body w) 98
  unfolding run_body
  body-Climbs =
      Triple-attempt _ (run_steps w) _ (At 98) (At 98) (handle_failure w) steps-Climbs
        (handle_failure-Keeps (stable old 98) w)

-- The percents that one run reports never fall, and none is above 98.
pub run_task-Rises :
    (w : World) (h : History)
    → Ends (λ _. UpTo (percents h) 98) (UpTo (percents h) 98) (run_task w h)
run_task-Rises w h =
    let old = percents h in
    (run_task_from w (UpTo old 0) (stable old 0) (λ _. UpTo old 98) (UpTo old 98)
        (body-Climbs w old)).at
      h (record { last = 0; below = omega arith; rises = unreported })
