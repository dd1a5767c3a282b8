-- ===== src/Memory/Rank/Order.antt =====
-- The result of `merge_and_rank_results` holds the best documents of both indices, best first.
use mathlib.Core.List.{Perm}
use mathlib.Core.List.Perm
use bulletfarm.Prelude.{
  ℕ, suc, ◌+◌, ◌≤◌, ◌≡◌, refl, inl, inr, List, [], ◌∷◌, ◌++◌, map, arith, leb, min, length, take,
  drop, All, All-take, length-append, length-take, length-map, Bool-cases, leb→le, take-append-drop,
}
use bulletfarm.Outside.{Doc}
use bulletfarm.Memory.Buffer.{task_memory_index, shared_memory_index}
use bulletfarm.Memory.Rank.{score_of, tag, insert_ranked, rank, merge_and_rank_results}

abbrev pub NoneAbove : ℕ → List Doc → Type 0
NoneAbove n = All (λ e. score_of e ≤ n)

-- The scores fall, or stay equal, along the list.
abbrev pub IsRanked : List Doc → Type 0
IsRanked [] = Unit
IsRanked (d ∷ l) = NoneAbove (score_of d) l × IsRanked l

-- The documents of both searches, tagged with their index.
abbrev pub all_results : List Doc → List Doc → List Doc
all_results ts ss = map (tag task_memory_index) ts ++ map (tag shared_memory_index) ss

NoneAbove-weaken : (m n : ℕ) (l : List Doc) → m ≤ n → NoneAbove m l → NoneAbove n l
NoneAbove-weaken m n [] h a = tt
NoneAbove-weaken m n (e ∷ l) h a = (omega arith, NoneAbove-weaken m n l h a.1)

NoneAbove-insert_ranked :
    (n : ℕ) (d : Doc) (l : List Doc)
    → score_of d ≤ n
    → NoneAbove n l
    → NoneAbove n (insert_ranked d l)
unfolding insert_ranked
NoneAbove-insert_ranked n d [] h a = (h, tt)
NoneAbove-insert_ranked n d (e ∷ l) h a = elim (Bool-cases (leb (score_of e) (score_of d))) [
  | inl le ↦ rw le (h, a)
  | inr gt ↦ rw gt (a.0, NoneAbove-insert_ranked n d l h a.1)
]

insert_ranked-IsRanked : (d : Doc) (l : List Doc) → IsRanked l → IsRanked (insert_ranked d l)
unfolding insert_ranked
insert_ranked-IsRanked d [] r = (tt, tt)
insert_ranked-IsRanked d (e ∷ l) r = elim (Bool-cases (leb (score_of e) (score_of d))) [
  | inl le ↦
      let below : score_of e ≤ score_of d = leb→le _ _ le in
      rw le ((below, NoneAbove-weaken _ _ l below r.0), r)
  | inr gt ↦
      rw gt (NoneAbove-insert_ranked _ d l (ground arith) r.0, insert_ranked-IsRanked d l r.1)
]

rank-IsRanked : (l : List Doc) → IsRanked (rank l)
unfolding rank
rank-IsRanked [] = tt
rank-IsRanked (d ∷ l) = insert_ranked-IsRanked d (rank l) (rank-IsRanked l)

insert_ranked-perm : (d : Doc) (l : List Doc) → Perm (insert_ranked d l) (d ∷ l)
unfolding insert_ranked
insert_ranked-perm d [] = Perm.refl _
insert_ranked-perm d (e ∷ l) = elim (Bool-cases (leb (score_of e) (score_of d))) [
  | inl le ↦ rw le (Perm.refl _)
  | inr gt ↦ rw gt (Perm.trans (Perm.cons e (insert_ranked-perm d l)) (Perm.swap d e l))
]

pub rank-perm : (l : List Doc) → Perm (rank l) l
unfolding rank
rank-perm [] = Perm.refl _
rank-perm (d ∷ l) = Perm.trans (insert_ranked-perm d (rank l)) (Perm.cons d (rank-perm l))

length-insert_ranked : (d : Doc) (l : List Doc) → length (insert_ranked d l) ≡ suc (length l)
unfolding insert_ranked
length-insert_ranked d [] = refl
length-insert_ranked d (e ∷ l) = ground (arith, length-insert_ranked d l)

pub length-rank : (l : List Doc) → length (rank l) ≡ length l
unfolding rank
length-rank [] = refl
length-rank (d ∷ l) = omega (arith, length-insert_ranked d (rank l), length-rank l)

-- A ranked list splits into a better part and a rest.
take-drop-IsRanked :
    (n : ℕ) (l : List Doc)
    → IsRanked l
    → IsRanked (take n l) × All (λ r. NoneAbove (score_of r) (drop n l)) (take n l)
take-drop-IsRanked ℕ.zero l r = (tt, tt)
take-drop-IsRanked (suc n) [] r = (tt, tt)
take-drop-IsRanked (suc n) (d ∷ l) r =
    let (ranked, best) = take-drop-IsRanked n l r.1 in
    ((All-take (λ e. score_of e ≤ score_of d) n l r.0, ranked), (All-drop n l r.0, best))
  where
    All-drop :
        (k : ℕ) (xs : List Doc) → NoneAbove (score_of d) xs → NoneAbove (score_of d) (drop k xs)
    All-drop ℕ.zero xs h = h
    All-drop (suc k) [] h = tt
    All-drop (suc k) (x ∷ xs) h = All-drop k xs h.1

-- The result is ranked by score, best first. Together with the `rest` that was cut off it is a
-- rearrangement of all tagged documents of both searches, and no document of the rest has a higher
-- score than any of the result. It has `limit` documents, or all if there are fewer.
pub merge_and_rank_results_top :
    (ts ss : List Doc) (limit : ℕ)
    → let r = merge_and_rank_results ts ss limit in
      (rest : List Doc) × IsRanked r
      × Perm (r ++ rest) (all_results ts ss)
      × All (λ d. NoneAbove (score_of d) rest) r
      × (length r ≡ min limit (length ts + length ss))
unfolding merge_and_rank_results
merge_and_rank_results_top ts ss limit =
    let l = all_results ts ss in
    let (ranked, best) = take-drop-IsRanked limit (rank l) (rank-IsRanked l) in
    (
      drop limit (rank l),
      ranked,
      rw (take-append-drop limit (rank l)) (rank-perm l),
      best,
      omega (
        arith,
        length-take limit (rank l),
        length-rank l,
        length-append (map (tag task_memory_index) ts) (map (tag shared_memory_index) ss),
        length-map (tag task_memory_index) ts,
        length-map (tag shared_memory_index) ss,
      ),
    )
