-- ===== src/Memory/Search/Results.antt =====
-- `unified_search` always returns, and what the documents that it returns are like.
use bulletfarm.Prelude.{
  ℕ, ◌+◌, ◌≤◌, String, ◌≡◌, refl, ◌⊎◌, inl, inr, Bool, true, false, Option, some, List, [], ◌∷◌,
  map, arith, length, All, All-append, All-take, if◌then◌else◌,
}
use bulletfarm.Prelude.Dict.{get, get-put}
use bulletfarm.Prelude.Exec.{Exn, Result, ok, raised, pure, attempt, ◌>>=◌}
use bulletfarm.Outside.{text, Doc, SearchRequest, Call, Act, History, Elastic, Host}
use bulletfarm.Memory.Buffer.{task_memory_index, shared_memory_index}
use bulletfarm.Memory.Calls.{ensure_index-bind, both_indices}
use bulletfarm.Memory.Errors.{is_retryable_error, add_jitter}
use bulletfarm.Memory.Store.{task_memory_mapping, shared_memory_mapping}
use bulletfarm.Memory.Rank.{tag, insert_ranked, rank, merge_and_rank_results}
use bulletfarm.Memory.Rank.Order.{IsRanked, all_results, merge_and_rank_results_top}
use bulletfarm.Memory.Search.{
  search_index, execute_full_query, execute_bm25_query, bm25_level, retry_level, unified_search,
}

module _ (P : Doc → Type 0) where
  All-insert_ranked : (d : Doc) (l : List Doc) → P d → All P l → All P (insert_ranked d l)
  unfolding insert_ranked
  All-insert_ranked d [] p a = (p, tt)
  All-insert_ranked d (e ∷ l) p a = ground (arith, All-insert_ranked d l p a.1)

  pub All-rank : (l : List Doc) → All P l → All P (rank l)
  unfolding rank
  All-rank [] a = tt
  All-rank (d ∷ l) a = All-insert_ranked d (rank l) a.0 (All-rank l a.1)

-- A document says which of the searched indices it came from.
abbrev pub FromIndex : Bool → Bool → Doc → Type 0
FromIndex st ss d =
    ((st ≡ true) × (get d "_source_index" ≡ some (text task_memory_index)))
    ⊎ ((ss ≡ true) × (get d "_source_index" ≡ some (text shared_memory_index)))

-- The answer to a search of the indices `st` and `ss`: no more than `limit` documents, best first,
-- each from a searched index.
pub record IsAnswer (limit : ℕ) (st ss : Bool) (docs : List Doc) : Type 0 where
  pub short : length docs ≤ limit
  pub ranked : IsRanked docs
  pub origin : All (FromIndex st ss) docs

abbrev pub Answers : ℕ → Bool → Bool → Result (List Doc) × History → Type 0
Answers limit st ss (ok docs, h) = IsAnswer limit st ss docs
Answers limit st ss (raised e, h) = Unit

IsAnswer-nil : (limit : ℕ) (st ss : Bool) → IsAnswer limit st ss []
IsAnswer-nil limit st ss = record { short = omega arith; ranked = tt; origin = tt }

get-tag : (index : String) (d : Doc) → get (tag index d) "_source_index" ≡ some (text index)
unfolding tag
get-tag index d = rw get-put refl

-- A search that was skipped gives no documents.
abbrev Searched : Bool → List Doc → Type 0
Searched b l = (b ≡ true) ⊎ (l ≡ [])

module _ (st ss : Bool) where
  tag-task : (l : List Doc) → st ≡ true → All (FromIndex st ss) (map (tag task_memory_index) l)
  tag-task [] on = tt
  tag-task (d ∷ l) on = (inl (on, get-tag task_memory_index d), tag-task l on)

  tag-shared : (l : List Doc) → ss ≡ true → All (FromIndex st ss) (map (tag shared_memory_index) l)
  tag-shared [] on = tt
  tag-shared (d ∷ l) on = (inr (on, get-tag shared_memory_index d), tag-shared l on)

  task-origin :
      (ts : List Doc) → Searched st ts → All (FromIndex st ss) (map (tag task_memory_index) ts)
  task-origin ts (inl on) = tag-task ts on
  task-origin ts (inr e) = rw e tt

  shared-origin :
      (rs : List Doc) → Searched ss rs → All (FromIndex st ss) (map (tag shared_memory_index) rs)
  shared-origin rs (inl on) = tag-shared rs on
  shared-origin rs (inr e) = rw e tt

merge-IsAnswer :
    (limit : ℕ) (st ss : Bool) (ts rs : List Doc)
    → Searched st ts
    → Searched ss rs
    → IsAnswer limit st ss (merge_and_rank_results ts rs limit)
merge-IsAnswer limit st ss ts rs p q =
    let (rest, ranked, perm, best, long) = merge_and_rank_results_top ts rs limit in
    record {
      short = omega arith;
      ranked = ranked;
      origin =
          unfold merge_and_rank_results in
          All-take (FromIndex st ss) limit (rank (all_results ts rs)) (
            All-rank (FromIndex st ss) (all_results ts rs) (
              All-append (FromIndex st ss) (map (tag task_memory_index) ts)
                (map (tag shared_memory_index) rs) (task-origin st ss ts p)
                (shared-origin st ss rs q)));
    }

module _ (es : Elastic) (limit : ℕ) (st ss : Bool) where
  abbrev GoodSearch : Bool → Result (List Doc) × History → Type 0
  GoodSearch b (ok docs, h) = Searched b docs
  GoodSearch b (raised e, h) = Unit

  search_index-good :
      (b : Bool) (q : SearchRequest) (h : History) → GoodSearch b (search_index es b q h)
  unfolding search_index
  search_index-good true q h = ground arith
  search_index-good false q h = inr refl

  merge_second :
      (ts : List Doc) (r : Result (List Doc)) (h : History)
      → Searched st ts
      → GoodSearch ss (r, h)
      → Answers limit st ss (((λ _. (r, h)) >>= λ rs. pure (merge_and_rank_results ts rs limit)) h)
  merge_second ts (ok rs) h p q = merge-IsAnswer limit st ss ts rs p q
  merge_second ts (raised e) h p q = tt

  -- What follows the two searches, by what they answered.
  merge_both :
      (r : Result (List Doc)) (h : History) (n : Act (List Doc))
      → GoodSearch st (r, h)
      → GoodSearch ss (n h)
      → Answers limit st ss
          ((do ts ← λ _. (r, h); rs ← n; pure (merge_and_rank_results ts rs limit)) h)
  merge_both (ok ts) h n p q = let (r', h') = n h in merge_second ts r' h' p q
  merge_both (raised e) h n p q = tt

  -- Both kinds of query: the two searches `f` and `g` after the indices were ensured.
  two_searches :
      (f g : SearchRequest) (h : History)
      → Answers limit st ss (
          (do
            ts ← search_index es st f
            rs ← search_index es ss g
            pure (merge_and_rank_results ts rs limit))
            h)
  two_searches f g h =
      let (r, h') = search_index es st f h in
      merge_both r h' (search_index es ss g) (search_index-good st f h) (search_index-good ss g h')

  execute_full_query-Answers :
      (query_text : String) (skills : Option (List String)) (h : History)
      → Answers limit st ss (execute_full_query es query_text skills limit st ss h)
  unfolding execute_full_query
  execute_full_query-Answers query_text skills h =
      rw
        (
          ensure_index-bind es task_memory_index task_memory_mapping,
          ensure_index-bind es shared_memory_index shared_memory_mapping,
        )
        (two_searches _ _ (both_indices es h))

  execute_bm25_query-Answers :
      (query_text : String) (h : History)
      → Answers limit st ss (execute_bm25_query es query_text limit st ss h)
  unfolding execute_bm25_query
  execute_bm25_query-Answers query_text h =
      rw
        (
          ensure_index-bind es task_memory_index task_memory_mapping,
          ensure_index-bind es shared_memory_index shared_memory_mapping,
        )
        (two_searches _ _ (both_indices es h))

  -- As `Answers`, and nothing was raised.
  abbrev pub Settles : Result (List Doc) × History → Type 0
  Settles (ok docs, h) = IsAnswer limit st ss docs
  Settles (raised e, h) = ⊥

  attempt-Settles :
      (r : Result (List Doc)) (h k : History) (handler : Exn → Act (List Doc))
      → Answers limit st ss (r, h)
      → ((e : Exn) → Settles (handler e h))
      → Settles (attempt (λ _. (r, h)) handler k)
  attempt-Settles (ok docs) h k handler a s = a
  attempt-Settles (raised e) h k handler a s = s e

  bm25_level-Settles :
      (query_text : String) (h : History) → Settles (bm25_level es query_text limit st ss h)
  unfolding bm25_level
  bm25_level-Settles query_text h =
      let (r, h') = execute_bm25_query es query_text limit st ss h in
      attempt-Settles r h' h (λ e. pure []) (execute_bm25_query-Answers query_text h)
        (λ e. IsAnswer-nil limit st ss)

  retry_level-Settles :
      (host : Host) (query_text : String) (skills : Option (List String)) (h : History)
      → Settles (retry_level es host query_text skills limit st ss h)
  unfolding retry_level add_jitter
  retry_level-Settles host query_text skills h =
      let k = Call.sleep_ms (50 + host.randint (Call.randint 0 50 ∷ h)) ∷ Call.randint 0 50 ∷ h in
      let (r, h') = execute_full_query es query_text skills limit st ss k in
      attempt-Settles r h' h (λ e. bm25_level es query_text limit st ss)
        (execute_full_query-Answers query_text skills k) (λ e. bm25_level-Settles query_text h')

  if_retryable-Settles :
      (b : Bool) (m : Act (List Doc)) (h : History)
      → Settles (m h)
      → Settles ((if b then m else pure []) h)
  if_retryable-Settles true m h s = s
  if_retryable-Settles false m h s = IsAnswer-nil limit st ss

-- Whatever Elasticsearch answers or raises, `unified_search` returns: no exception comes through.
-- The documents are at most `limit`, their scores fall along the list, and each is tagged with an
-- index that was to be searched. So with both indices disabled there is none.
pub unified_search-Settles :
    (es : Elastic) (host : Host) (query_text : String) (skills : Option (List String)) (limit : ℕ)
    (st ss : Bool) (h : History)
    → Settles es limit st ss (unified_search es host query_text skills limit st ss h)
unfolding unified_search
unified_search-Settles es host query_text skills limit false false h =
    IsAnswer-nil limit false false
unified_search-Settles es host query_text skills limit st ss h =
    let (r, h') = execute_full_query es query_text skills limit st ss h in
    attempt-Settles es limit st ss r h' h
      (λ e.
        if is_retryable_error e then retry_level es host query_text skills limit st ss else pure [])
      (execute_full_query-Answers es limit st ss query_text skills h)
      (λ e.
        if_retryable-Settles es limit st ss (is_retryable_error e)
          (retry_level es host query_text skills limit st ss) h'
          (retry_level-Settles es limit st ss host query_text skills h'))
