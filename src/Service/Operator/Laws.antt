-- ===== src/Service/Operator/Laws.antt =====
-- The start of a worker (main.py) from the payload of its operator.
use bulletfarm.Prelude.{
  String, ◌≡◌, refl, false, ◌&&◌, none, some, inl, inr, List, [], ◌∷◌, ◌++◌, is_empty, any,
  Bool-cases, ◌==◌, if◌then◌else◌,
}
use bulletfarm.Prelude.Dict.{get}
use bulletfarm.Models.{TaskRequest}
use bulletfarm.Service.Payload.{request_of_payload}
use bulletfarm.Service.Routes.{Registry, create_task}
use bulletfarm.Service.Background.{auto_start}
use bulletfarm.Service.Operator.{
  Assignment, merge_loop, merge_skills, slice_value, payload_branch, is_retry_of, payload_of,
}

-- The request that the operator means.
abbrev pub request_for : Assignment → TaskRequest
request_for task = record {
  task_id = task.name;
  agent_ref = task.agent_ref;
  repository = task.repository;
  prompt = task.prompt;
  target_branch = payload_branch task;
  skills = merge_skills task.default_skills task.skills;
  is_retry = is_retry_of task;
  pr_url = task.pull_request_url;
}

read_back :
    (task : Assignment) (skills : List String)
    → merge_skills task.default_skills task.skills ≡ skills
    → request_of_payload (payload_of task)
      ≡ (if is_empty skills then none else some (request_for task))
unfolding request_of_payload payload_of get slice_value
read_back task [] e = rw (e, request_of_payload, payload_of) refl
read_back task (s ∷ skills) e = rw (e, request_of_payload, payload_of) refl

append-filled : (l : List String) (s : String) → is_empty (l ++ (s ∷ [])) ≡ false
append-filled [] s = refl
append-filled (x ∷ l) s = refl

merge_loop-filled :
    (merged l : List String) → is_empty merged ≡ false → is_empty (merge_loop merged l) ≡ false
unfolding merge_loop
merge_loop-filled merged [] filled = filled
merge_loop-filled merged (s ∷ rest) filled = elim (Bool-cases (any (λ x. x == s) merged)) [
  | inl old ↦ rw (old, merge_loop) (merge_loop-filled merged rest filled)
  | inr new ↦
      rw (new, merge_loop) (merge_loop-filled (merged ++ (s ∷ [])) rest (append-filled merged s))
]

-- Skills are merged to none only where there is none.
merge_skills-filled :
    (defaults skills : List String)
    → is_empty (merge_skills defaults skills) ≡ is_empty defaults && is_empty skills
unfolding merge_skills merge_loop
merge_skills-filled [] [] = refl
merge_skills-filled [] (s ∷ skills) = merge_loop-filled (s ∷ []) skills refl
merge_skills-filled (d ∷ defaults) skills =
    merge_loop-filled (merge_loop (d ∷ []) defaults) skills
      (merge_loop-filled (d ∷ []) defaults refl)

-- A worker that the operator gives a task starts it, with the request that the operator means, where
-- the agent has a default skill or the task has a skill. Where neither has any, the worker starts no
-- task, as the payload holds null for the skills.
pub auto_start-payload_of :
    (task : Assignment) (statuses : Registry)
    → auto_start (some (payload_of task)) statuses ≡ (
        if is_empty task.default_skills && is_empty task.skills
        then (none, statuses)
        else (some (request_for task), (create_task (request_for task) statuses).1))
unfolding auto_start
auto_start-payload_of task statuses =
    let skills = merge_skills task.default_skills task.skills in
    let read = read_back task skills refl in
    let merged = merge_skills-filled task.default_skills task.skills in
    elim (Bool-cases (is_empty skills)) [
      | inl unskilled ↦ rw (read, auto_start, unskilled, ← merged, unskilled) refl
      | inr filled ↦ rw (read, auto_start, filled, ← merged, filled) refl
    ]
