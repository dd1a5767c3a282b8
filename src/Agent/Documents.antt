-- ===== src/Agent/Documents.antt =====
-- The texts and documents that `run_task` of agent.py makes at its end.
use bulletfarm.Prelude.{
  String, ◌<>◌, true, false, List, [], ◌∷◌, length, take, take_text, join, decimal,
}
use bulletfarm.Outside.{text, texts, flag, Doc, PullRequest}
use bulletfarm.Models.{TaskPhase, phase_value, TaskRequest}
use bulletfarm.Github.Client.{RepoInfo}
use bulletfarm.Agent.Skills.{select_tools}
use bulletfarm.Agent.Prepare.{branch_name}

-- `', '.join(tools) if tools else default`
unfoldable pub join_or : List String → String → String
join_or [] default = default
join_or (t ∷ tools) default = join ", " (t ∷ tools)

unfoldable pub incomplete_reason : String → List String → String
unfolding join_or
incomplete_reason output_text tools =
    "The agent was unable to complete this task. No code changes were produced. Tools called: "
    <> join_or tools "none"
    <> ". Agent response: "
    <> take_text 300 output_text

-- The text of `.bulletfarm-incomplete.md`, which the source writes in five parts.
unfoldable pub analysis_text : TaskRequest → String → List String → String
unfolding join_or
analysis_text request output_text tools =
    "# Task: "
    <> request.prompt
    <> "\n\n## Status: INCOMPLETE\n\nThe agent was unable to complete this task.\n\n"
    <> "## Agent Analysis\n\n"
    <> take_text 3000 output_text
    <> "\n\n## Tools Called\n\n"
    <> join_or tools "None"
    <> "\n"

-- The variation selector after the warning sign is left out of the text.
unfoldable pub incomplete_pull : TaskRequest → RepoInfo → String → PullRequest
incomplete_pull request repo_info output_text = record {
  base = repo_info.default_branch;
  head = branch_name request;
  title = "[Agent] [INCOMPLETE] " <> take_text 65 request.prompt;
  body =
      "## ⚠ Incomplete Task\n\nThe agent was unable to complete this task.\n\n### Agent Analysis\n\n"
      <> take_text 1000 output_text
      <> "\n\n---\n**Task:** "
      <> request.prompt
      <> "\n**Agent:** "
      <> request.agent_ref
      <> "\n**Task ID:** "
      <> request.task_id
      <> "\n**Status:** INCOMPLETE\n";
}

abbrev pub incomplete_comment : String → String
incomplete_comment output_text =
    "## 🤖 BulletFarm Agent — Task Incomplete\n\nNo meaningful code changes were produced.\n\n"
    <> "### Agent's Response\n\n> "
    <> take_text 500 output_text
    <> "\n\n### Recommendation\n\n- Close this PR or retry with a more specific prompt\n"

unfoldable pub incomplete_doc : TaskRequest → String → List String → String → Doc
unfolding incomplete_reason phase_value
incomplete_doc request output_text tools pr_url =
    ("agent_ref", text request.agent_ref)
    ∷ ("repository", text request.repository)
    ∷ ("prompt", text request.prompt)
    ∷ ("output", text (take_text 2000 output_text))
    ∷ ("skills_used", texts request.skills)
    ∷ ("tools_called", texts tools)
    ∷ ("has_code_changes", flag false)
    ∷ ("incomplete_reason", text (incomplete_reason output_text tools))
    ∷ ("phase", text (phase_value TaskPhase.incomplete))
    ∷ ("pr_url", text pr_url)
    ∷ []

-- `''.join(f'- `{f}`{chr(10)}' for f in files)`
unfoldable pub file_lines : List String → String
file_lines [] = ""
file_lines (f ∷ files) = "- `" <> f <> "`\n" <> file_lines files

unfoldable pub draft_pull : TaskRequest → RepoInfo → String → List String → PullRequest
unfolding file_lines
draft_pull request repo_info output_text files = record {
  base = repo_info.default_branch;
  head = branch_name request;
  title = "[Agent] " <> take_text 80 request.prompt;
  body =
      "## Summary\n\n"
      <> take_text 1000 output_text
      <> "\n\n### Changes\n\n"
      <> file_lines files
      <> "\n---\n**Task:** "
      <> request.prompt
      <> "\n**Agent:** "
      <> request.agent_ref
      <> "\n**Skills:** "
      <> join ", " request.skills
      <> "\n**Task ID:** "
      <> request.task_id
      <> "\n";
}

unfoldable pub methodology : TaskRequest → List String → List String → String
methodology request tools files =
    "Cloned repo, created branch '"
    <> branch_name request
    <> "', ran LLM agent with "
    <> decimal (length (select_tools request.skills))
    <> " tools, called "
    <> decimal (length tools)
    <> " unique tools, modified "
    <> decimal (length files)
    <> " files, committed real changes, pushed and created draft PR."

unfoldable pub task_memory_doc : TaskRequest → String → List String → List String → String → Doc
unfolding methodology phase_value
task_memory_doc request output_text tools files pr_url =
    ("agent_ref", text request.agent_ref)
    ∷ ("repository", text request.repository)
    ∷ ("prompt", text request.prompt)
    ∷ ("output", text (take_text 2000 output_text))
    ∷ ("skills_used", texts request.skills)
    ∷ ("tools_called", texts tools)
    ∷ ("files_modified", texts files)
    ∷ ("branch", text (branch_name request))
    ∷ ("has_code_changes", flag true)
    ∷ ("methodology", text (methodology request tools files))
    ∷ ("phase", text (phase_value TaskPhase.succeeded))
    ∷ ("pr_url", text pr_url)
    ∷ []

unfoldable pub shared_memory_doc : TaskRequest → String → List String → List String → Doc
unfolding methodology
shared_memory_doc request output_text tools files =
    (
      "summary",
      text (
          "Task '"
          <> take_text 100 request.prompt
          <> "' on "
          <> request.repository
          <> " — Succeeded. Modified "
          <> decimal (length files)
          <> " files using "
          <> decimal (length tools)
          <> " tools."),
    )
    ∷ (
      "context",
      text (
          "Methodology: "
          <> methodology request tools files
          <> "\nTools used: "
          <> join ", " tools
          <> "\nFiles modified: "
          <> join ", " (take 20 files)
          <> "\nAgent output: "
          <> take_text 800 output_text),
    )
    ∷ ("skills", texts request.skills)
    ∷ ("repository", text request.repository)
    ∷ []
