-- ===== src/Agent/Finish.antt =====
-- The ends of `run_task`: `_handle_incomplete`, and steps 5 to 7 for a task with changes.
use bulletfarm.Prelude.{
  String, ◌<>◌, true, false, some, List, [], ◌∷◌, beq, take_text, strip, lines_from, ◌==◌,
  if◌then◌else◌,
}
use bulletfarm.Prelude.Exec.{pure, attempt, ◌>>=◌, ◌>>◌}
use bulletfarm.Outside.{PullRequest, Call, call}
use bulletfarm.Memory.Gate.{should_write_to_shared_memory}
use bulletfarm.Memory.Bulk.{bulk_write}
use bulletfarm.Models.{TaskPhase, phase_value, TaskStatus}
use bulletfarm.Github.Client.{RepoInfo, create_draft_pr, comment_on_pr}
use bulletfarm.Agent.Session.{
  World, Run, lift, get_buffer, set_pr_url, progress, run_command, buffer_task_memory,
  buffer_shared_memory,
}
use bulletfarm.Agent.Prepare.{workspace, branch_name, git_checked}
use bulletfarm.Agent.Documents.{
  incomplete_reason, analysis_text, incomplete_pull, incomplete_comment, incomplete_doc, file_lines,
  draft_pull, task_memory_doc, shared_memory_doc,
}

module _ (w : World) where
  -- `git push -u origin branch_name`
  abbrev pub push_branch : Run (Unit {0})
  push_branch = git_checked w ("push" ∷ "-u" ∷ "origin" ∷ branch_name w.request ∷ [])

  -- The address of a new draft pull request.
  abbrev pub open_pull : PullRequest → Run String
  open_pull pull = do
    info ←
        lift
          (create_draft_pr w.github w.request.repository pull w.request.task_id w.request.agent_ref)
    pure info.url

  -- `_handle_incomplete` after the push.
  unfoldable pub finish_incomplete : RepoInfo → String → List String → Run TaskStatus
  unfolding incomplete_reason
  finish_incomplete repo_info output_text tools = do
    let reason = incomplete_reason output_text tools
    pr_url ←
        if w.request.pr_url == ""
        then open_pull (incomplete_pull w.request repo_info output_text)
        else pure w.request.pr_url
    lift (comment_on_pr w.github pr_url (incomplete_comment output_text))
    buffer_task_memory w (incomplete_doc w.request output_text tools pr_url)
    b ← get_buffer
    lift (bulk_write w.es b)
    pure (record {
      task_id = w.request.task_id;
      phase = TaskPhase.incomplete;
      progress = 100;
      message = "Task incomplete: " <> take_text 300 reason;
      pull_request_url = pr_url;
      rate_limited = false;
      pr_state = "";
      incomplete_reason = reason;
    })

  unfoldable pub handle_incomplete : RepoInfo → String → List String → Run TaskStatus
  unfolding finish_incomplete
  handle_incomplete repo_info output_text tools = do
    progress w 90 "Task incomplete — recording reason"
    lift (
        call w.machine.write_file (
          Call.write_file (workspace w.request <> "/.bulletfarm-incomplete.md")
            (analysis_text w.request output_text tools)))
    git_checked w ("add" ∷ "-A" ∷ [])
    git_checked w
        ("commit" ∷ "-m" ∷ ("chore: incomplete task analysis for " <> w.request.task_id) ∷ [])
    push_branch
    finish_incomplete repo_info output_text tools

  -- Step 5.
  unfoldable pub commit_and_push : Run (Unit {0})
  commit_and_push = do
    progress w 75 "Committing and pushing changes"
    git_checked w (
        "commit"
        ∷ "-m"
        ∷ ("feat: "
            <> take_text 72 w.request.prompt
            <> "\n\nAutomated by BulletFarm agent.\nTask: "
            <> w.request.task_id)
        ∷ [])
    push_branch

  -- `files_modified`: none where the command fails or raises
  unfoldable pub modified_files : Run (List String)
  modified_files =
      attempt
        (do
          diff_files ←
              run_command w ("git" ∷ "diff" ∷ "--name-only" ∷ "HEAD~1" ∷ [])
                (some (workspace w.request))
          pure
              (if beq diff_files.returncode 0 then lines_from "" (strip diff_files.stdout) else []))
        (λ exc. pure [])

  -- Step 6.
  unfoldable pub publish : RepoInfo → String → List String → Run String
  publish repo_info output_text files =
      if w.request.pr_url == ""
      then (do
        url ← open_pull (draft_pull w.request repo_info output_text files)
        set_pr_url url
        pure url)
      else (do
        set_pr_url w.request.pr_url
        lift (
            comment_on_pr w.github w.request.pr_url (
              "## ✅ Retry succeeded\n\nNew commits pushed.\n\n### Files modified\n"
              <> file_lines files))
        pure w.request.pr_url)

  -- Step 7.
  unfoldable pub remember : String → List String → List String → String → Run (Unit {0})
  unfolding phase_value
  remember output_text tools files pr_url = do
    progress w 95 "Buffering results in memory"
    buffer_task_memory w (task_memory_doc w.request output_text tools files pr_url)
    if should_write_to_shared_memory (phase_value TaskPhase.succeeded) true tools
        then buffer_shared_memory w (shared_memory_doc w.request output_text tools files)
        else pure tt
    progress w 98 "Flushing memory to Elasticsearch"
    b ← get_buffer
    lift (bulk_write w.es b)
    pure tt

  -- Steps 6 and 7, and the status.
  unfoldable pub finish_changes : RepoInfo → String → List String → Run TaskStatus
  unfolding modified_files publish remember
  finish_changes repo_info output_text tools = do
    progress w 85 "Creating draft PR"
    files ← modified_files
    pr_url ← publish repo_info output_text files
    remember output_text tools files pr_url
    pure (record {
      task_id = w.request.task_id;
      phase = TaskPhase.succeeded;
      progress = 100;
      message = take_text 500 output_text;
      pull_request_url = pr_url;
      rate_limited = false;
      pr_state = "";
      incomplete_reason = "";
    })

  unfoldable pub handle_changes : RepoInfo → String → List String → Run TaskStatus
  unfolding commit_and_push finish_changes
  handle_changes repo_info output_text tools = do
    commit_and_push
    finish_changes repo_info output_text tools
