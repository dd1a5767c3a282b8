-- ===== src/Memory/Search.antt =====
-- Retrieval in memory.py: the two queries and the fallback levels of `unified_search`.
pub mod Results
pub mod Cost
pub mod Found
use bulletfarm.Prelude.{
  ℕ, String, Bool, true, false, ◌&&◌, not, Option, none, some, List, [], ◌∷◌, map, if◌then◌else◌,
}
use bulletfarm.Prelude.Dict.{put}
use bulletfarm.Prelude.Exec.{Exn, pure, attempt, ◌>>=◌, ◌>>◌}
use bulletfarm.Outside.{
  number, Doc, Clause, multi_match, terms, match_field, Query, single, must, SearchRequest, Hit,
  Call, Act, Elastic, Host, call, sleep,
}
use bulletfarm.Memory.Buffer.{task_memory_index, shared_memory_index}
use bulletfarm.Memory.Rank.{merge_and_rank_results}
use bulletfarm.Memory.Errors.{
  is_retryable_error, add_jitter, es_retry_jitter_ms, es_query_timeout_ms,
}
use bulletfarm.Memory.Store.{ensure_index, task_memory_mapping, shared_memory_mapping}

-- `{**hit["_source"], "_score": hit["_score"]}`
unfoldable pub scored : Hit → Doc
unfolding put
scored hit = put hit.source "_score" (number hit.score)

-- `if skills: must.append({"terms": {field: skills}})`; no skills and an empty list are alike.
unfoldable pub skill_clauses : String → Option (List String) → List Clause
skill_clauses field none = []
skill_clauses field (some []) = []
skill_clauses field (some (s ∷ skills)) = terms field (s ∷ skills) ∷ []

unfoldable pub full_query : String → List String → String → Option (List String) → Query
unfolding skill_clauses
full_query query_text fields skills_field skills =
    must (multi_match query_text fields ∷ skill_clauses skills_field skills)

abbrev pub search_request : String → Query → ℕ → SearchRequest
search_request index query limit = record {
  index = index;
  query = query;
  size = limit;
  sort_desc = none;
  timeout_ms = some es_query_timeout_ms;
}

module _ (es : Elastic) where
  -- One of the two searches: skipped, with no results, where its index is not asked for.
  unfoldable pub search_index : Bool → SearchRequest → Act (List Doc)
  unfolding scored
  search_index wanted request =
      if wanted
      then (do hits ← call es.search (Call.search request); pure (map scored hits))
      else pure []

  unfoldable pub execute_full_query :
      String → Option (List String) → ℕ → Bool → Bool → Act (List Doc)
  unfolding full_query
  execute_full_query query_text skills limit search_task_memory search_shared_memory = do
    ensure_index es task_memory_index task_memory_mapping
    ensure_index es shared_memory_index shared_memory_mapping
    task_results ← search_index search_task_memory (
        search_request task_memory_index
          (full_query query_text ("prompt" ∷ "output" ∷ "methodology" ∷ []) "skills_used" skills)
          limit)
    shared_results ← search_index search_shared_memory (
        search_request shared_memory_index
          (full_query query_text ("summary" ∷ "context" ∷ []) "skills" skills) limit)
    pure (merge_and_rank_results task_results shared_results limit)

  unfoldable pub execute_bm25_query : String → ℕ → Bool → Bool → Act (List Doc)
  execute_bm25_query query_text limit search_task_memory search_shared_memory = do
    ensure_index es task_memory_index task_memory_mapping
    ensure_index es shared_memory_index shared_memory_mapping
    task_results ←
        search_index search_task_memory
          (search_request task_memory_index (single (match_field "prompt" query_text)) limit)
    shared_results ←
        search_index search_shared_memory
          (search_request shared_memory_index (single (match_field "summary" query_text)) limit)
    pure (merge_and_rank_results task_results shared_results limit)

  -- Level 3 of `unified_search`, and level 4 where it raises.
  unfoldable pub bm25_level : String → ℕ → Bool → Bool → Act (List Doc)
  bm25_level query_text limit search_task_memory search_shared_memory =
      attempt (execute_bm25_query query_text limit search_task_memory search_shared_memory)
        (λ exc. pure [])

module _ (es : Elastic) (host : Host) where
  -- Level 2, and what follows where it raises anything.
  unfoldable pub retry_level : String → Option (List String) → ℕ → Bool → Bool → Act (List Doc)
  retry_level query_text skills limit search_task_memory search_shared_memory =
      attempt
        (do
          delay ← add_jitter host 50 es_retry_jitter_ms
          sleep delay
          execute_full_query es query_text skills limit search_task_memory search_shared_memory)
        (λ exc. bm25_level es query_text limit search_task_memory search_shared_memory)

  unfoldable pub unified_search : String → Option (List String) → ℕ → Bool → Bool → Act (List Doc)
  unfolding bm25_level retry_level
  unified_search query_text skills limit search_task_memory search_shared_memory =
      if not search_task_memory && not search_shared_memory
      then pure []
      else attempt
          (execute_full_query es query_text skills limit search_task_memory search_shared_memory)
          (λ exc.
            if is_retryable_error exc
            then retry_level query_text skills limit search_task_memory search_shared_memory
            else pure [])

  unfoldable pub search_shared_knowledge : String → Option (List String) → ℕ → Act (List Doc)
  search_shared_knowledge query_text skills limit =
      unified_search query_text skills limit false true
