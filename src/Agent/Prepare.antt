-- ===== src/Agent/Prepare.antt =====
-- Steps 1 and 2 of `run_task`: the clone and its branch, and the prompt with its context.
use bulletfarm.Prelude.{
  String, ◌<>◌, true, ◌&&◌, none, some, List, [], ◌∷◌, beq, is_empty, take_text, join, ◌==◌,
  if◌then◌else◌,
}
use bulletfarm.Prelude.Exec.{of_result, pure, ◌>>=◌, ◌>>◌}
use bulletfarm.Memory.Store.{get_task_history}
use bulletfarm.Memory.Search.{unified_search}
use bulletfarm.Models.{TaskRequest}
use bulletfarm.Github.Client.{RepoInfo, get_repo_info}
use bulletfarm.Agent.Context.{memory_context}
use bulletfarm.Agent.Session.{World, Run, lift, progress, run_command, run_checked}

abbrev pub workspace : TaskRequest → String
workspace request = "/workspace/" <> request.task_id

-- `task_request.target_branch or f"task-{task_request.task_id}"`
unfoldable pub branch_name : TaskRequest → String
branch_name request =
    if request.target_branch == "" then "task-" <> request.task_id else request.target_branch

abbrev pub clone_url : String → String → String
clone_url token repository =
    "https://x-access-token:" <> token <> "@github.com/" <> repository <> ".git"

unfoldable pub enriched_prompt : TaskRequest → RepoInfo → String → String → String
enriched_prompt request repo_info context file_listing =
    "You are working on a local clone of "
    <> repo_info.name
    <> ".\nThe repo is cloned at: "
    <> workspace request
    <> "\nBase branch: "
    <> repo_info.default_branch
    <> "\nTask branch: "
    <> branch_name request
    <> "\nSkills: "
    <> join ", " request.skills
    <> "\n"
    <> context
    <> "\n\nFiles in repo:\n"
    <> file_listing
    <> "\n\nTask: "
    <> request.prompt
    <> "\n\nIMPORTANT: Use the code_edit tool with FULL paths starting with "
    <> workspace request
    <> "/ to make changes. Create new files by passing old_content as empty string ''. "
    <> "Make real, meaningful changes to accomplish the task."

module _ (w : World) where
  -- `git` in the clone, where a failure raises
  abbrev pub git_checked : List String → Run (Unit {0})
  git_checked args = run_checked w ("git" ∷ args) (some (workspace w.request))

  -- The branch that a retry works on: the remote one, or a new one.
  unfoldable pub checkout_retry : Run (Unit {0})
  checkout_retry = do
    fetched ←
        run_command w ("git" ∷ "fetch" ∷ "origin" ∷ branch_name w.request ∷ [])
          (some (workspace w.request))
    if beq fetched.returncode 0
        then git_checked ("checkout" ∷ branch_name w.request ∷ [])
        else git_checked ("checkout" ∷ "-b" ∷ branch_name w.request ∷ [])

  unfoldable pub clone_git : Run (Unit {0})
  unfolding checkout_retry
  clone_git = do
    let url = clone_url w.github_token w.request.repository
    if w.request.is_retry
        then (do
          run_checked w ("git" ∷ "clone" ∷ url ∷ workspace w.request ∷ []) none
          checkout_retry)
        else (do
          run_checked w ("git" ∷ "clone" ∷ "--depth=1" ∷ url ∷ workspace w.request ∷ []) none
          git_checked ("checkout" ∷ "-b" ∷ branch_name w.request ∷ []))
    git_checked ("config" ∷ "user.email" ∷ "agent@bulletfarm.io" ∷ [])
    git_checked ("config" ∷ "user.name" ∷ "BulletFarm Agent" ∷ [])

  -- Step 1.
  unfoldable pub clone_repo : Run (Unit {0})
  unfolding clone_git
  clone_repo = do progress w 10 "Cloning repository"; clone_git

  -- `if task_request.skills or task_request.prompt`
  unfoldable pub search_memory : Run String
  unfolding of_result memory_context
  search_memory = if is_empty w.request.skills && w.request.prompt == "" then pure "" else (do
    results ← lift (
        unified_search w.es w.host w.request.prompt
          (if is_empty w.request.skills then none else some w.request.skills) 10 true true)
    of_result (memory_context w.host results))

  -- The prompt for the agent, with the repository that it is about.
  unfoldable pub gather_parts : Run (RepoInfo × String)
  unfolding search_memory
  gather_parts = do
    repo_info ← lift (get_repo_info w.github w.request.repository)
    lift (get_task_history w.es w.request.agent_ref 5)
    context ← search_memory
    listing ←
        run_command w ("find" ∷ "." ∷ "-type" ∷ "f" ∷ "-not" ∷ "-path" ∷ "./.git/*" ∷ [])
          (some (workspace w.request))
    pure (repo_info, enriched_prompt w.request repo_info context (take_text 3000 listing.stdout))

  -- Step 2.
  unfoldable pub gather_context : Run (RepoInfo × String)
  unfolding gather_parts
  gather_context = do progress w 20 "Gathering context"; gather_parts
