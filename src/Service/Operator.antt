-- ===== src/Service/Operator.antt =====
-- The payload that the operator (agenttask_controller.go) makes for a worker: `handlePending` up to
-- `json.Marshal`, and `mergeSkills`. What it writes as JSON is what `json.loads` reads in main.py; a
-- slice of Go that nothing was appended to is nil, which is written as null.
pub mod Laws
pub mod Task
pub mod Reconcile
pub mod Skills
use bulletfarm.Prelude.{ℕ, String, ◌<>◌, Bool, List, [], ◌∷◌, ◌++◌, any, ltb, ◌==◌, if◌then◌else◌}
use bulletfarm.Outside.{Value, text, flag, texts, null, Doc}
use bulletfarm.Models.{TaskRequest}

-- What `handlePending` reads of `task` and of `agent`.
pub record Assignment : Type 0 where
  pub name : String
  pub agent_ref : String
  pub repository : String
  pub prompt : String
  pub description : String
  pub target_branch : String
  pub default_skills : List String
  pub skills : List String
  pub retry_count : ℕ
  pub pull_request_url : String

-- A loop of `mergeSkills`. The keys of `seen` are the members of `merged`.
unfoldable pub merge_loop : List String → List String → List String
merge_loop merged [] = merged
merge_loop merged (s ∷ rest) =
    let old = merge_loop merged rest in
    let new = merge_loop (merged ++ (s ∷ [])) rest in if any (λ x. x == s) merged then old else new

unfoldable pub merge_skills : List String → List String → List String
unfolding merge_loop
merge_skills defaults task_skills = merge_loop (merge_loop [] defaults) task_skills

-- A slice of texts in JSON.
unfoldable pub slice_value : List String → Value
slice_value [] = null
slice_value (s ∷ skills) = texts (s ∷ skills)

unfoldable pub payload_branch : Assignment → String
payload_branch task = if task.target_branch == "" then "task-" <> task.name else task.target_branch

abbrev pub is_retry_of : Assignment → Bool
is_retry_of task = ltb 0 task.retry_count

unfoldable pub payload_of : Assignment → Doc
unfolding merge_skills slice_value payload_branch
payload_of task =
    ("task_id", text task.name)
    ∷ ("agent_ref", text task.agent_ref)
    ∷ ("repository", text task.repository)
    ∷ ("prompt", text task.prompt)
    ∷ ("description", text task.description)
    ∷ ("target_branch", text (payload_branch task))
    ∷ ("skills", slice_value (merge_skills task.default_skills task.skills))
    ∷ ("is_retry", flag (is_retry_of task))
    ∷ ("pr_url", text task.pull_request_url)
    ∷ []
