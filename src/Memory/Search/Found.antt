-- ===== src/Memory/Search/Found.antt =====
-- What holds of every document that a search hits holds of the documents of `unified_search`.
use bulletfarm.Prelude.{
  ℕ, String, ◌&&◌, Bool, true, false, not, Option, List, [], ◌∷◌, map, All, All-append, All-take,
}
use bulletfarm.Prelude.Dict.{put}
use bulletfarm.Prelude.Exec.{pure, ◌>>=◌, ◌>>◌}
use bulletfarm.Prelude.Triple.{
  Triple, Keeps, Ends-Always, Triple-bind, Triple-pure, Triple-attempt, Triple-if,
}
use bulletfarm.Outside.{
  Value, number, text, Doc, Hit, SearchRequest, Call, History, Act, Elastic, Host, call, sleep,
}
use bulletfarm.Memory.Buffer.{task_memory_index, shared_memory_index}
use bulletfarm.Memory.Errors.{is_retryable_error, add_jitter, es_retry_jitter_ms}
use bulletfarm.Memory.Rank.{tag, rank, merge_and_rank_results}
use bulletfarm.Memory.Rank.Order.{all_results}
use bulletfarm.Memory.Search.{
  scored, search_index, execute_full_query, execute_bm25_query, bm25_level, retry_level,
  unified_search,
}
use bulletfarm.Memory.Search.Results.{All-rank}

-- A property of a document that its score and its index do not touch.
pub record IsLasting (P : Doc → Type 0) : Type 0 where
  pub scored_too : (d : Doc) (v : Value) → P d → P (put d "_score" v)
  pub tagged_too : (d : Doc) (v : Value) → P d → P (put d "_source_index" v)

-- Every hit of every search has it.
abbrev pub Hits : (Doc → Type 0) → Elastic → Type 0
Hits P es =
    (request : SearchRequest)
    → Triple (λ _. Unit) (call es.search (Call.search request))
        (λ hits _. All (λ (hit : Hit). P hit.source) hits) (λ _. Unit)

module _ (P : Doc → Type 0) (last : IsLasting P) where
  scored-All : (hits : List Hit) → All (λ (hit : Hit). P hit.source) hits → All P (map scored hits)
  unfolding scored
  scored-All [] a = tt
  scored-All (hit ∷ hits) a =
      (last.scored_too hit.source (number hit.score) a.0, scored-All hits a.1)

  tag-All : (index : String) (l : List Doc) → All P l → All P (map (tag index) l)
  unfolding tag
  tag-All index [] a = tt
  tag-All index (d ∷ l) a = (last.tagged_too d (text index) a.0, tag-All index l a.1)

  merge-All :
      (ts ss : List Doc) (limit : ℕ)
      → All P ts
      → All P ss
      → All P (merge_and_rank_results ts ss limit)
  unfolding merge_and_rank_results
  merge-All ts ss limit a b = All-take P limit (rank (all_results ts ss)) (
      All-rank P (all_results ts ss) (
        All-append P (map (tag task_memory_index) ts) (map (tag shared_memory_index) ss)
          (tag-All task_memory_index ts a) (tag-All shared_memory_index ss b)))

  -- From anywhere, what it returns are documents with the property.
  abbrev Finds : Act (List Doc) → Type 0
  Finds m = Triple (λ _. Unit) m (λ docs _. All P docs) (λ _. Unit)

  anyway : {A : Type 0} (m : Act A) → Keeps (λ _. Unit) m
  anyway m = record { at = λ h p. let (r, h') = m h in Ends-Always (λ _. Unit) r h' tt }

  then-Finds :
      {A : Type 0} (m : Act A) (f : A → Act (List Doc)) → ((a : A) → Finds (f a)) → Finds (m >>= f)
  then-Finds m f t =
      Triple-bind (λ _. Unit) m (λ _ _. Unit) f (λ docs _. All P docs) (λ _. Unit) (anyway m) t

  finds_nothing : (h : History → Type 0) → Triple h (pure []) (λ docs _. All P docs) (λ _. Unit)
  finds_nothing h = Triple-pure h (λ docs _. All P docs) (λ _. Unit) [] (λ s p. tt)

  module _ (es : Elastic) (hits : Hits P es) where
    search_index-Finds : (b : Bool) (request : SearchRequest) → Finds (search_index es b request)
    unfolding search_index
    search_index-Finds true request =
        Triple-bind (λ _. Unit) _ (λ found _. All (λ (hit : Hit). P hit.source) found) _
          (λ docs _. All P docs) (λ _. Unit) (hits request)
          (λ found.
            Triple-pure (λ _. All (λ (hit : Hit). P hit.source) found) (λ docs _. All P docs)
              (λ _. Unit) (map scored found) (λ s a. scored-All found a))
    search_index-Finds false request = finds_nothing (λ _. Unit)

    -- The two searches, and what is made of them.
    two-Finds :
        (st ss : Bool) (f g : SearchRequest) (limit : ℕ)
        → Finds (do
          ts ← search_index es st f
          rs ← search_index es ss g
          pure (merge_and_rank_results ts rs limit))
    two-Finds st ss f g limit =
        Triple-bind (λ _. Unit) _ (λ ts _. All P ts) _ (λ docs _. All P docs) (λ _. Unit)
          (search_index-Finds st f)
          (λ ts. record {
            at = λ h a.
                (Triple-bind (λ _. Unit) _ (λ rs _. All P rs) _ (λ docs _. All P docs) (λ _. Unit)
                    (search_index-Finds ss g)
                    (λ rs.
                      Triple-pure (λ _. All P rs) (λ docs _. All P docs) (λ _. Unit) _
                        (λ s b. merge-All ts rs limit a b))).at
                  h tt;
          })

    full-Finds :
        (q : String) (skills : Option (List String)) (limit : ℕ) (st ss : Bool)
        → Finds (execute_full_query es q skills limit st ss)
    unfolding execute_full_query
    full-Finds q skills limit st ss = search (then-Finds, two-Finds) depth 9

    bm25-Finds :
        (q : String) (limit : ℕ) (st ss : Bool) → Finds (execute_bm25_query es q limit st ss)
    unfolding execute_bm25_query
    bm25-Finds q limit st ss = search (then-Finds, two-Finds) depth 9

    level-Finds : (q : String) (limit : ℕ) (st ss : Bool) → Finds (bm25_level es q limit st ss)
    unfolding bm25_level
    level-Finds q limit st ss =
        Triple-attempt (λ _. Unit) _ (λ docs _. All P docs) (λ _. Unit) (λ _. Unit) _
          (bm25-Finds q limit st ss) (λ e. finds_nothing (λ _. Unit))

    module _ (host : Host) (q : String) (skills : Option (List String)) (limit : ℕ)
        (st ss : Bool) where
      retry-Finds : Finds (retry_level es host q skills limit st ss)
      unfolding retry_level
      retry-Finds =
          Triple-attempt (λ _. Unit) _ (λ docs _. All P docs) (λ _. Unit) (λ _. Unit) _
            (then-Finds (add_jitter host 50 es_retry_jitter_ms)
              (λ delay. sleep delay >> execute_full_query es q skills limit st ss)
              (λ delay.
                then-Finds (sleep delay) (λ _. execute_full_query es q skills limit st ss)
                  (λ _. full-Finds q skills limit st ss)))
            (λ e. level-Finds q limit st ss)

      pub unified_search-Finds : Finds (unified_search es host q skills limit st ss)
      unfolding unified_search
      unified_search-Finds =
          Triple-if (λ _. Unit) (λ docs _. All P docs) (λ _. Unit) (not st && not ss) _ _
            (λ _. finds_nothing (λ _. Unit))
            (λ _.
              Triple-attempt (λ _. Unit) _ (λ docs _. All P docs) (λ _. Unit) (λ _. Unit) _
                (full-Finds q skills limit st ss)
                (λ e.
                  Triple-if (λ _. Unit) (λ docs _. All P docs) (λ _. Unit) (is_retryable_error e) _
                    _ (λ _. retry-Finds) (λ _. finds_nothing (λ _. Unit))))
