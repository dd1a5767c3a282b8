-- ===== src/Agent/Run.antt =====
-- `run_task` of agent.py, from the clone to the status that it returns.
mod Whole
pub mod Outcome
mod Parts
pub mod Percents
pub mod Rising
pub mod Harmless
pub mod Budget
pub mod Attempts
pub mod Pushed
pub mod Leaks
pub mod Working
pub mod Recall
pub mod Finishes
use bulletfarm.Prelude.{String, ◌<>◌, Bool, none, some, List, [], ◌∷◌, take_text, if◌then◌else◌}
use bulletfarm.Prelude.Exec.{Exn, ok, pure, attempt, ◌>>=◌, ◌>>◌}
use bulletfarm.Outside.{text, texts, flag, Doc, Message, History, Act}
use bulletfarm.Memory.Buffer.{MemoryWriteBuffer, create_buffer}
use bulletfarm.Memory.Bulk.{bulk_write}
use bulletfarm.Models.{TaskPhase, phase_value, TaskRequest, TaskStatus}
use bulletfarm.Github.Client.{RepoInfo}
use bulletfarm.Agent.Session.{
  World, Session, Run, lift, get_buffer, progress, run_command, buffer_task_memory,
}
use bulletfarm.Agent.Prepare.{workspace, clone_repo, gather_context, git_checked}
use bulletfarm.Agent.Loop.{run_agent, is_rate_limit}
use bulletfarm.Agent.Evaluate.{unique_tools, last_content, task_incomplete}
use bulletfarm.Agent.Finish.{handle_incomplete, handle_changes}

unfoldable pub failure_doc : TaskRequest → Exn → Doc
unfolding phase_value
failure_doc request exc =
    ("agent_ref", text request.agent_ref)
    ∷ ("repository", text request.repository)
    ∷ ("prompt", text request.prompt)
    ∷ ("error", text exc.message)
    ∷ ("skills_used", texts request.skills)
    ∷ ("phase", text (phase_value TaskPhase.failed))
    ∷ ("rate_limited", flag (is_rate_limit exc))
    ∷ []

module _ (w : World) where
  -- Step 4, and what it leads to.
  unfoldable pub evaluate : RepoInfo → List Message → Run TaskStatus
  unfolding handle_incomplete handle_changes
  evaluate repo_info messages = do
    let output_text = last_content messages
    progress w 70 "Evaluating changes"
    git_checked w ("add" ∷ "-A" ∷ [])
    diff_result ←
        run_command w ("git" ∷ "diff" ∷ "--cached" ∷ "--stat" ∷ []) (some (workspace w.request))
    let tools = unique_tools messages
    if task_incomplete diff_result.stdout output_text tools
        then handle_incomplete w repo_info output_text tools
        else handle_changes w repo_info output_text tools

  -- The `try` of `run_task`.
  unfoldable pub run_steps : Run TaskStatus
  unfolding clone_repo gather_context run_agent evaluate
  run_steps = do
    clone_repo w
    (repo_info, prompt) ← gather_context w
    messages ← run_agent w prompt
    evaluate repo_info messages

  -- The inner `try` of the `except` of `run_task`.
  unfoldable pub store_failure : Exn → Run (Unit {0})
  unfolding failure_doc
  store_failure exc =
      attempt
        (do
          buffer_task_memory w (failure_doc w.request exc)
          b ← get_buffer
          lift (bulk_write w.es b)
          pure tt)
        (λ mem_exc. pure tt)

  unfoldable pub failure_status : String → Exn → TaskStatus
  failure_status pr_url exc = record {
    task_id = w.request.task_id;
    phase = TaskPhase.failed;
    progress = 0;
    message = take_text 500 ("Agent error: " <> exc.message);
    pull_request_url = pr_url;
    rate_limited = is_rate_limit exc;
    pr_state = "";
    incomplete_reason = "";
  }

  -- The `except` of `run_task`.
  unfoldable pub handle_failure : Exn → Run TaskStatus
  unfolding store_failure failure_status
  handle_failure exc = do store_failure exc; λ s. (ok (failure_status s.pr_url exc), s)

  unfoldable pub run_body : Run TaskStatus
  unfolding run_steps handle_failure
  run_body = attempt run_steps handle_failure

  abbrev pub start : MemoryWriteBuffer → History → Session
  start b h = record { history = h; buffer = b; pr_url = w.request.pr_url; result = none }

  unfoldable pub run_buffered : MemoryWriteBuffer → Act TaskStatus
  unfolding run_body
  run_buffered b h = let (r, s) = run_body (start b h) in (r, s.history)

  unfoldable pub run_task : Act TaskStatus
  unfolding run_buffered
  run_task = do b ← create_buffer w.host w.request.task_id; run_buffered b
