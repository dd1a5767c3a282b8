-- ===== src/Memory/Search/Cost.antt =====
-- What a search costs the agent: the number of queries, and the time slept between them.
use bulletfarm.Prelude.{
  ℕ, ◌+◌, ◌≤◌, String, Bool, true, false, Option, List, [], ◌∷◌, arith, length, keep,
}
use bulletfarm.Prelude.Dict.{Dict}
use bulletfarm.Outside.{SearchRequest, Call, History, single, match_field, Elastic, Host}
use bulletfarm.Memory.Buffer.{task_memory_index, shared_memory_index}
use bulletfarm.Memory.Calls.{is_search, ensure_index-ok, both_indices}
use bulletfarm.Memory.Errors.{add_jitter, IsInRange}
use bulletfarm.Memory.Store.{ensure_index, task_memory_mapping, shared_memory_mapping}
use bulletfarm.Memory.Search.{
  search_request, full_query, search_index, execute_full_query, execute_bm25_query, bm25_level,
  retry_level, unified_search,
}

-- The queries sent so far.
abbrev pub searches : History → ℕ
searches h = length (keep is_search h)

-- The milliseconds slept so far.
abbrev pub slept : History → ℕ
slept [] = 0
slept (Call.sleep_ms ms ∷ h) = ms + slept h
slept (_ ∷ h) = slept h

-- `n` more queries at most, and `ms` more milliseconds slept at most.
abbrev pub Costs : ℕ → ℕ → History → History → Type 0
Costs n ms h h' = (searches h' ≤ searches h + n) × (slept h' ≤ slept h + ms)

module _ (es : Elastic) where
  ensure_index-Costs :
      (index : String) (mapping : Dict String) (h : History)
      → Costs 0 0 h (ensure_index es index mapping h).1
  unfolding ensure_index
  ensure_index-Costs index mapping h = ground arith

  Costs-both_indices : (h : History) → Costs 0 0 h (both_indices es h)
  Costs-both_indices h = omega (
    arith,
    ensure_index-Costs task_memory_index task_memory_mapping h,
    ensure_index-Costs shared_memory_index shared_memory_mapping
        (ensure_index es task_memory_index task_memory_mapping h).1,
  )

  search_index-Costs :
      (b : Bool) (q : SearchRequest) (h : History) → Costs 1 0 h (search_index es b q h).1
  unfolding search_index
  search_index-Costs true q h = ground arith
  search_index-Costs false q h = ground arith

  execute_full_query-Costs :
      (query_text : String) (skills : Option (List String)) (limit : ℕ) (st ss : Bool) (h : History)
      → Costs 2 0 h (execute_full_query es query_text skills limit st ss h).1
  unfolding execute_full_query
  execute_full_query-Costs query_text skills limit st ss h =
      let f =
        search_request task_memory_index
          (full_query query_text ("prompt" ∷ "output" ∷ "methodology" ∷ []) "skills_used" skills)
          limit in
      let g =
        search_request shared_memory_index
          (full_query query_text ("summary" ∷ "context" ∷ []) "skills" skills) limit in
      ground (
        arith,
        ensure_index-ok es task_memory_index task_memory_mapping h,
        ensure_index-ok es shared_memory_index shared_memory_mapping
            (ensure_index es task_memory_index task_memory_mapping h).1,
        Costs-both_indices h,
        search_index-Costs st f (both_indices es h),
        search_index-Costs ss g (search_index es st f (both_indices es h)).1,
      )

  execute_bm25_query-Costs :
      (query_text : String) (limit : ℕ) (st ss : Bool) (h : History)
      → Costs 2 0 h (execute_bm25_query es query_text limit st ss h).1
  unfolding execute_bm25_query
  execute_bm25_query-Costs query_text limit st ss h =
      let f = search_request task_memory_index (single (match_field "prompt" query_text)) limit in
      let g =
        search_request shared_memory_index (single (match_field "summary" query_text)) limit in
      ground (
        arith,
        ensure_index-ok es task_memory_index task_memory_mapping h,
        ensure_index-ok es shared_memory_index shared_memory_mapping
            (ensure_index es task_memory_index task_memory_mapping h).1,
        Costs-both_indices h,
        search_index-Costs st f (both_indices es h),
        search_index-Costs ss g (search_index es st f (both_indices es h)).1,
      )

  bm25_level-Costs :
      (query_text : String) (limit : ℕ) (st ss : Bool) (h : History)
      → Costs 2 0 h (bm25_level es query_text limit st ss h).1
  unfolding bm25_level
  bm25_level-Costs query_text limit st ss h =
      ground (arith, execute_bm25_query-Costs query_text limit st ss h)

module _ (es : Elastic) (host : Host) (fair : IsInRange host) where
  retry_level-Costs :
      (query_text : String) (skills : Option (List String)) (limit : ℕ) (st ss : Bool) (h : History)
      → Costs 4 100 h (retry_level es host query_text skills limit st ss h).1
  unfolding retry_level add_jitter
  retry_level-Costs query_text skills limit st ss h =
      let k = Call.sleep_ms (50 + host.randint (Call.randint 0 50 ∷ h)) ∷ Call.randint 0 50 ∷ h in
      ground (
        arith,
        fair.range 0 50 h (omega arith),
        execute_full_query-Costs es query_text skills limit st ss k,
        bm25_level-Costs es query_text limit st ss
            (execute_full_query es query_text skills limit st ss k).1,
      )

  -- Whatever Elasticsearch answers or raises, `unified_search` sends at most six queries and sleeps
  -- at most 100 milliseconds in all, where `random.randint` keeps its documented range.
  pub unified_search-Costs :
      (query_text : String) (skills : Option (List String)) (limit : ℕ) (st ss : Bool) (h : History)
      → Costs 6 100 h (unified_search es host query_text skills limit st ss h).1
  unfolding unified_search
  unified_search-Costs query_text skills limit st ss h =
      let k = (execute_full_query es query_text skills limit st ss h).1 in
      ground (
        arith,
        execute_full_query-Costs es query_text skills limit st ss h,
        retry_level-Costs query_text skills limit st ss k,
      )
