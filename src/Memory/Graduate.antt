-- ===== src/Memory/Graduate.antt =====
-- `graduate_to_shared` of memory.py: what a finished task leaves to later tasks.
pub mod Texts
pub mod Laws
use bulletfarm.Prelude.{String, Bool, true, false, Option, none, some, is_empty, if◌then◌else◌}
use bulletfarm.Prelude.Exec.{of_result, pure, ◌>>=◌, ◌>>◌}
use bulletfarm.Outside.{Doc, Act, Elastic, Host}
use bulletfarm.Memory.Store.{store_shared_knowledge, delete_task_memory, get_task_result}
use bulletfarm.Memory.Graduate.Texts.{text_field, texts_field, graduation_texts}

module _ (es : Elastic) (host : Host) where
  -- `if not task_result`: no result, or an empty document
  unfoldable pub graduate_found : String → String → Doc → Act Bool
  unfolding of_result graduation_texts
  graduate_found task_id pr_state task_result = do
    (summary, context) ← of_result (graduation_texts host task_result pr_state)
    store_shared_knowledge es host summary context (texts_field task_result "skills_used")
        (text_field task_result "repository")
    delete_task_memory es task_id
    pure true

  unfoldable pub graduate_missing : String → Act Bool
  graduate_missing task_id = do delete_task_memory es task_id; pure false

  unfoldable pub graduate_result : String → String → Option Doc → Act Bool
  graduate_result task_id pr_state none = graduate_missing task_id
  graduate_result task_id pr_state (some doc) =
      if is_empty doc then graduate_missing task_id else graduate_found task_id pr_state doc

  unfoldable pub graduate_to_shared : String → String → Act Bool
  unfolding graduate_found graduate_missing graduate_result
  graduate_to_shared task_id pr_state = do
    task_result ← get_task_result es task_id
    graduate_result task_id pr_state task_result
