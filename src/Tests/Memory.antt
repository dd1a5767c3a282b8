-- ===== src/Tests/Memory.antt =====
-- The results on memory.py, at concrete inputs.
use bulletfarm.Prelude.{
  ◌≡◌, ◌↔◌, ◌⊎◌, String, Bool, true, none, List, [], ◌∷◌, ◌++◌, length, min, keep,
}
use mathlib.Core.List.{Perm}
use bulletfarm.Prelude.{All}
use bulletfarm.Prelude.Exec.{result_or}
use bulletfarm.Outside.{text, number, Doc, Call}
use bulletfarm.Memory.Gate.{
  UsedSkillTool, should_write_to_shared_memory, should_write_to_shared_memory_iff,
}
use bulletfarm.Memory.Rank.{score_of, merge_and_rank_results}
use bulletfarm.Memory.Rank.Order.{IsRanked, NoneAbove, all_results, merge_and_rank_results_top}
use bulletfarm.Memory.Rank.Stable.{has_score, merge_and_rank_results_stable}
use bulletfarm.Memory.Search.{unified_search}
use bulletfarm.Memory.Search.Results.{Settles, unified_search-Settles}
use bulletfarm.Memory.Search.Cost.{Costs, unified_search-Costs}
use bulletfarm.Memory.Bulk.{bulk_write}
use bulletfarm.Memory.Bulk.Laws.{Counted, bulk_write_accounts}
use bulletfarm.Memory.Store.{get_task_result}
use bulletfarm.Memory.Graduate.{graduate_to_shared}
use bulletfarm.Memory.Graduate.Laws.{Graduated, graduate_to_shared_writes}
use bulletfarm.Tests.{host, host-IsInRange, task_doc, es, slow_es, es-IsAccounting, buffer, low}

abbrev high : Doc
high = ("_score", number 9) ∷ ("n", text "high") ∷ []

abbrev tie : Doc
tie = ("_score", number 1) ∷ ("n", text "tie") ∷ []

merge_and_rank_results_top_example :
    let r = merge_and_rank_results (low ∷ high ∷ []) (tie ∷ []) 2 in
    (rest : List Doc) × IsRanked r
    × Perm (r ++ rest) (all_results (low ∷ high ∷ []) (tie ∷ []))
    × All (λ d. NoneAbove (score_of d) rest) r
    × (length r ≡ min 2 3)
merge_and_rank_results_top_example = merge_and_rank_results_top (low ∷ high ∷ []) (tie ∷ []) 2

merge_and_rank_results_stable_example :
    (rest : List Doc) × (keep (has_score 1) (merge_and_rank_results (low ∷ high ∷ []) (tie ∷ []) 2)
        ++ rest
      ≡ keep (has_score 1) (all_results (low ∷ high ∷ []) (tie ∷ [])))
merge_and_rank_results_stable_example =
    merge_and_rank_results_stable (low ∷ high ∷ []) (tie ∷ []) 2 1

abbrev used : List String
used = "read_file" ∷ "graphql_debug" ∷ []

should_write_to_shared_memory_iff_example :
    (should_write_to_shared_memory "Succeeded" true used ≡ true) ↔ (
      (◌≡◌ {A = String} "Succeeded" "Succeeded" ⊎ ◌≡◌ {A = String} "Succeeded" "success")
      × ◌≡◌ {A = Bool} true true
      × UsedSkillTool used)
should_write_to_shared_memory_iff_example = should_write_to_shared_memory_iff "Succeeded" true used

unified_search-Settles_example :
    Settles es 10 true true (unified_search es host "tests" none 10 true true [])
unified_search-Settles_example = unified_search-Settles es host "tests" none 10 true true []

unified_search-Costs_example :
    Costs 6 100 [] (unified_search slow_es host "tests" none 10 true true []).1
unified_search-Costs_example =
    unified_search-Costs slow_es host host-IsInRange "tests" none 10 true true []

bulk_write_accounts_example :
    Counted 2 (Call.bulk (task_doc ∷ low ∷ []) ∷ []) (bulk_write es buffer [])
bulk_write_accounts_example = bulk_write_accounts es es-IsAccounting buffer []

graduate_to_shared_writes_example :
    Graduated es host "t1" "merged" []
      (result_or none (get_task_result es "t1" []).0)
      (graduate_to_shared es host "t1" "merged" [])
graduate_to_shared_writes_example = graduate_to_shared_writes es host "t1" "merged" []
