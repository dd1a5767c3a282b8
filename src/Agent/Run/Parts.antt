-- ===== src/Agent/Run/Parts.antt =====
-- The parts of `run_task` before and after the LLM keep any predicate that their calls keep.
use bulletfarm.Prelude.{ℕ, String, List}
use bulletfarm.Prelude.Triple.{Keeps, Keeps-bind, Keeps-pure}
use bulletfarm.Outside.{Message, History}
use bulletfarm.Github.Client.{RepoInfo}
use bulletfarm.Agent.Session.{World, progress}
use bulletfarm.Agent.Prepare.{clone_git, gather_parts, clone_repo, gather_context}
use bulletfarm.Agent.Finish.{
  commit_and_push, finish_changes, modified_files, publish, handle_changes, remember,
  handle_incomplete,
}
use bulletfarm.Agent.Run.{evaluate}
use bulletfarm.Agent.Keeps.{IsStable, bulk_write-Keeps}
use bulletfarm.Agent.Rules.{
  Past, run_rules, run_command-Keeps, run_checked-Keeps, buffer_task_memory-Keeps,
  buffer_shared_memory-Keeps,
}
use bulletfarm.Agent.Steps.{
  clone_git-Keeps, gather_parts-Keeps, modified_files-Keeps, publish-Keeps, finish_incomplete-Keeps,
}

module _ {P : History → Type 0} (st : IsStable P) (w : World)
    (reports : (n : ℕ) (message : String) → Keeps (Past P) (progress w n message)) where
  pub clone-Keeps : Keeps (Past P) (clone_repo w)
  unfolding clone_repo
  clone-Keeps =
      Keeps-bind (progress w 10 _) (λ _. clone_git w) (reports 10 _) (λ _. clone_git-Keeps st w)

  pub gather-Keeps : Keeps (Past P) (gather_context w)
  unfolding gather_context
  gather-Keeps =
      Keeps-bind (progress w 20 _) (λ _. gather_parts w) (reports 20 _)
        (λ _. gather_parts-Keeps st w)

  remember-Keeps :
      (out : String) (tools files : List String) (url : String)
      → Keeps (Past P) (remember w out tools files url)
  unfolding remember
  remember-Keeps out tools files url =
      search
        (
          run_rules,
          reports,
          buffer_task_memory-Keeps st.calm w,
          buffer_shared_memory-Keeps st.calm w,
          bulk_write-Keeps st,
        )
        depth 12

  push-Keeps : Keeps (Past P) (commit_and_push w)
  unfolding commit_and_push
  push-Keeps = search (run_rules, reports, run_checked-Keeps st.calm w) depth 9

  finish-Keeps :
      (info : RepoInfo) (out : String) (tools : List String)
      → Keeps (Past P) (finish_changes w info out tools)
  unfolding finish_changes
  finish-Keeps info out tools = Keeps-bind (progress w 85 _) _ (reports 85 _) (λ _.
      Keeps-bind (modified_files w) _ (modified_files-Keeps st w) (λ files.
        Keeps-bind (publish w info out files) _ (publish-Keeps st w info out files) (λ url.
          Keeps-bind (remember w out tools files url) _ (remember-Keeps out tools files url)
            (λ _. Keeps-pure _))))

  changes-Keeps :
      (info : RepoInfo) (out : String) (tools : List String)
      → Keeps (Past P) (handle_changes w info out tools)
  unfolding handle_changes
  changes-Keeps info out tools =
      Keeps-bind (commit_and_push w) (λ _. finish_changes w info out tools) push-Keeps
        (λ _. finish-Keeps info out tools)

  incomplete-Keeps :
      (info : RepoInfo) (out : String) (tools : List String)
      → Keeps (Past P) (handle_incomplete w info out tools)
  unfolding handle_incomplete
  incomplete-Keeps info out tools =
      search (run_rules, reports, run_checked-Keeps st.calm w, finish_incomplete-Keeps st w, st)
        depth 12

  pub evaluate-Keeps :
      (info : RepoInfo) (messages : List Message) → Keeps (Past P) (evaluate w info messages)
  unfolding evaluate
  evaluate-Keeps info messages =
      search
        (
          run_rules,
          reports,
          run_checked-Keeps st.calm w,
          run_command-Keeps st.calm w,
          changes-Keeps,
          incomplete-Keeps,
        )
        depth 14
