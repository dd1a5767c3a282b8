-- ===== src/Memory/Rank/Stable.antt =====
-- Documents of equal score keep the order of the two searches, the task index first.
use bulletfarm.Prelude.{
  ℕ, ◌≡◌, refl, ◌∙◌, Bool, List, [], ◌∷◌, ◌++◌, arith, beq, take, drop, keep, keep-append,
  take-append-drop,
}
use bulletfarm.Outside.{Doc}
use bulletfarm.Memory.Rank.{score_of, insert_ranked, rank, merge_and_rank_results}
use bulletfarm.Memory.Rank.Order.{all_results}

abbrev pub has_score : ℕ → Doc → Bool
has_score n d = beq (score_of d) n

keep-insert_ranked :
    (n : ℕ) (d : Doc) (l : List Doc)
    → keep (has_score n) (insert_ranked d l) ≡ keep (has_score n) (d ∷ l)
unfolding insert_ranked
keep-insert_ranked n d [] = refl
keep-insert_ranked n d (e ∷ l) = ground (arith, keep-insert_ranked n d l)

keep-rank : (n : ℕ) (l : List Doc) → keep (has_score n) (rank l) ≡ keep (has_score n) l
unfolding rank
keep-rank n [] = refl
keep-rank n (d ∷ l) = keep-insert_ranked n d (rank l) ∙ ground (arith, keep-rank n l)

-- For each score, the documents of that score in the result are the first of that score among all
-- results, in the order in which the searches returned them.
pub merge_and_rank_results_stable :
    (ts ss : List Doc) (limit n : ℕ)
    → (rest : List Doc) × (keep (has_score n) (merge_and_rank_results ts ss limit) ++ rest
        ≡ keep (has_score n) (all_results ts ss))
unfolding merge_and_rank_results
merge_and_rank_results_stable ts ss limit n =
    let l = rank (all_results ts ss) in
    (
      keep (has_score n) (drop limit l),
      rw (← keep-append (has_score n) (take limit l) (drop limit l), take-append-drop limit l)
          (keep-rank n (all_results ts ss)),
    )
