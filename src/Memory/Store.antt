-- ===== src/Memory/Store.antt =====
-- The operations of `create_memory_store` in memory.py that read and write single documents.
-- Logging is left out.
use bulletfarm.Prelude.{ℕ, String, Option, none, some, List, [], ◌∷◌, head?, map, if◌then◌else◌}
use bulletfarm.Prelude.Dict.{Dict, put, update}
use bulletfarm.Prelude.Exec.{pure, attempt, ◌>>=◌, ◌>>◌}
use bulletfarm.Outside.{
  Value, text, time, Doc, term, single, must, SearchRequest, Hit, IndexResult, Call, Act, Elastic,
  Host, call, read_clock,
}
use bulletfarm.Memory.Buffer.{task_memory_index, shared_memory_index}

-- The field types of `TASK_MEMORY_MAPPING`.
abbrev pub task_memory_mapping : Dict String
task_memory_mapping =
    ("task_id", "keyword")
    ∷ ("agent_ref", "keyword")
    ∷ ("repository", "keyword")
    ∷ ("prompt", "text")
    ∷ ("output", "text")
    ∷ ("skills_used", "keyword")
    ∷ ("phase", "keyword")
    ∷ ("error", "text")
    ∷ ("pr_url", "keyword")
    ∷ ("rate_limited", "boolean")
    ∷ ("timestamp", "date")
    ∷ []

-- The field types of `SHARED_MEMORY_MAPPING`.
abbrev pub shared_memory_mapping : Dict String
shared_memory_mapping =
    ("summary", "text")
    ∷ ("context", "text")
    ∷ ("skills", "keyword")
    ∷ ("repository", "keyword")
    ∷ ("timestamp", "date")
    ∷ []

abbrev source_of : Hit → Doc
source_of hit = hit.source

-- `response.get("deleted", 0)`
abbrev deleted_count : Option ℕ → ℕ
deleted_count none = 0
deleted_count (some n) = n

-- The search of `get_task_result`.
abbrev pub task_result_request : String → SearchRequest
task_result_request task_id = record {
  index = task_memory_index;
  query = must (term "task_id" task_id ∷ term "phase" "Succeeded" ∷ []);
  size = 1;
  sort_desc = some "timestamp";
  timeout_ms = none;
}

module _ (es : Elastic) where
  unfoldable pub ensure_index : String → Dict String → Act (Unit {0})
  ensure_index index mapping =
      attempt
        (do
          there ← call es.exists (Call.index_exists index)
          if there then pure tt else call es.create (Call.index_create index mapping))
        (λ exc. pure tt)

  unfoldable pub get_task_history : String → ℕ → Act (List Doc)
  get_task_history agent_ref limit =
      attempt
        (do
          ensure_index task_memory_index task_memory_mapping
          hits ← call es.search (
              Call.search (record {
                index = task_memory_index;
                query = single (term "agent_ref" agent_ref);
                size = limit;
                sort_desc = some "timestamp";
                timeout_ms = none;
              }))
          pure (map source_of hits))
        (λ exc. pure [])

  unfoldable pub delete_task_memory : String → Act ℕ
  delete_task_memory task_id =
      attempt
        (do
          ensure_index task_memory_index task_memory_mapping
          deleted ←
              call es.delete_by_query
                (Call.delete_by_query task_memory_index (single (term "task_id" task_id)))
          pure (deleted_count deleted))
        (λ exc. pure 0)

  unfoldable pub get_task_result : String → Act (Option Doc)
  get_task_result task_id =
      attempt
        (do
          ensure_index task_memory_index task_memory_mapping
          hits ← call es.search (Call.search (task_result_request task_id))
          pure (head? (map source_of hits)))
        (λ exc. pure none)

module _ (es : Elastic) (host : Host) where
  unfoldable pub store_task_result : String → Doc → Act IndexResult
  store_task_result task_id result = do
    ensure_index es task_memory_index task_memory_mapping
    stamp ← read_clock host
    let doc = put (update (("task_id", text task_id) ∷ []) result) "timestamp" (time stamp)
    call es.index (Call.index_doc task_memory_index doc)

  unfoldable pub store_shared_knowledge : String → String → Value → Value → Act IndexResult
  store_shared_knowledge summary context skills repository = do
    ensure_index es shared_memory_index shared_memory_mapping
    stamp ← read_clock host
    call es.index (
        Call.index_doc shared_memory_index (
          ("summary", text summary)
          ∷ ("context", text context)
          ∷ ("skills", skills)
          ∷ ("repository", repository)
          ∷ ("timestamp", time stamp)
          ∷ []))
