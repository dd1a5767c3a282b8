-- ===== src/Memory/Rank.antt =====
-- `merge_and_rank_results` of memory.py. Python's sort with `reverse=True` is stable: documents of
-- equal score keep their order. A `_score` is a number wherever the program writes one.
pub mod Order
pub mod Stable
use bulletfarm.Prelude.{
  ℕ, String, Option, none, some, List, [], ◌∷◌, ◌++◌, map, leb, take, if◌then◌else◌,
}
use bulletfarm.Prelude.Dict.{get, put}
use bulletfarm.Outside.{Value, text, number, Doc}
use bulletfarm.Memory.Buffer.{task_memory_index, shared_memory_index}

-- `x.get("_score", 0)`
score_value : Option Value → ℕ
score_value (some (number n)) = n
score_value _ = 0

unfoldable pub score_of : Doc → ℕ
unfolding score_value get
score_of doc = score_value (get doc "_score")

-- `result["_source_index"] = index`
unfoldable pub tag : String → Doc → Doc
unfolding put
tag index result = put result "_source_index" (text index)

-- Puts a document before the first one with no higher score, so before those of equal score that
-- came later.
unfoldable pub insert_ranked : Doc → List Doc → List Doc
insert_ranked d [] = d ∷ []
insert_ranked d (e ∷ l) =
    let rest = insert_ranked d l in if leb (score_of e) (score_of d) then d ∷ e ∷ l else e ∷ rest

-- `all_results.sort(key=…, reverse=True)`
unfoldable pub rank : List Doc → List Doc
unfolding insert_ranked
rank [] = []
rank (d ∷ l) = insert_ranked d (rank l)

unfoldable pub merge_and_rank_results : List Doc → List Doc → ℕ → List Doc
merge_and_rank_results task_results shared_results limit =
    let tagged =
      map (tag task_memory_index) task_results ++ map (tag shared_memory_index) shared_results in
    take limit (rank tagged)
