-- ===== src/Agent/Run/Recall.antt =====
-- The search in memory of a run (agent.py), where the prompts that it finds can be cut.
use bulletfarm.Prelude.{
  ℕ, String, ◌<>◌, ◌≡◌, ◌&&◌, refl, Bool, true, Option, inl, inr, List, [], ◌∷◌, All, Bool-cases,
  is_empty, ◌==◌,
}
use bulletfarm.Prelude.Dict.{get, get-put_other}
use bulletfarm.Prelude.Exec.{ok, of_result, result_or}
use bulletfarm.Prelude.Total.{Sure, Total, Total-pure, Total-if, Total-bind_sure, Triple-Total}
use bulletfarm.Outside.{text, Doc, Host}
use bulletfarm.Memory.Fields.{value_or, format_slice}
use bulletfarm.Memory.Search.{unified_search}
use bulletfarm.Memory.Search.Found.{IsLasting, Hits, unified_search-Finds}
use bulletfarm.Agent.Context.{is_text, context_line, context_lines, memory_context}
use bulletfarm.Agent.Session.{World, Session}
use bulletfarm.Agent.Prepare.{search_memory}
use bulletfarm.Agent.Total.{unified_search-Total, Sure-lift}

-- The prompt of a document can be cut: it is a text or a list, or missing.
abbrev pub IsCut : Host → Doc → Type 0
IsCut host d = (s : String) × (format_slice host 80 (value_or (get d "prompt") (text "")) ≡ ok s)

IsCut-IsLasting : (host : Host) → IsLasting (IsCut host)
IsCut-IsLasting host = record {
  scored_too = λ d v p. rw (get-put_other d "_score" v "prompt" refl) p;
  tagged_too = λ d v p. rw (get-put_other d "_source_index" v "prompt" refl) p;
}

module _ (host : Host) where
  context_line-ok : (d : Doc) → IsCut host d → (s : String) × (context_line host d ≡ ok s)
  unfolding context_line
  context_line-ok d (cut, e) =
      elim (Bool-cases
        (is_text (value_or (get d "_source_index") (text "unknown")) "task_memory")) [
          | inl own ↦ (result_or "" (context_line host d), rw (own, e) refl)
          | inr shared ↦ (result_or "" (context_line host d), rw shared refl)
        ]

  context_lines-ok :
      (l : List Doc) → All (IsCut host) l → (s : String) × (context_lines host l ≡ ok s)
  unfolding context_lines
  context_lines-ok [] cuts = ("", refl)
  context_lines-ok (d ∷ l) (cut, cuts) =
      let (line, e) = context_line-ok d cut in
      let (rest, f) = context_lines-ok l cuts in (line <> rest, rw (e, f) refl)

  memory_context-ok :
      (l : List Doc) → All (IsCut host) l → (s : String) × (memory_context host l ≡ ok s)
  unfolding memory_context
  memory_context-ok [] cuts = ("", refl)
  memory_context-ok (d ∷ l) cuts =
      let (lines, e) = context_lines-ok (d ∷ l) cuts in
      ("\n\nRelevant knowledge from past tasks:\n" <> lines, rw e refl)

  recalled :
      (l : List Doc) → All (IsCut host) l → Total {S = Session} (of_result (memory_context host l))
  unfolding of_result
  recalled l cuts = let (s, e) = memory_context-ok l cuts in rw e (Total-pure s)

module _ (w : World) (hits : Hits (IsCut w.host) w.es) where
  found :
      (q : String) (skills : Option (List String)) (limit : ℕ) (st ss : Bool)
      → Sure (All (IsCut w.host)) (unified_search w.es w.host q skills limit st ss)
  found q skills limit st ss = record {
    returns = λ h.
        (Triple-Total (λ _. Unit) _ (λ docs _. All (IsCut w.host) docs) (λ _. Unit)
            (unified_search-Total w.es w.host q skills limit st ss)
            (unified_search-Finds (IsCut w.host) (IsCut-IsLasting w.host) w.es hits w.host q skills
              limit st ss)).at
          h tt;
  }

  pub search_memory-Total : Total (search_memory w)
  unfolding search_memory
  search_memory-Total =
      Total-if (is_empty w.request.skills && (w.request.prompt == "")) _ _ (Total-pure "") (
        Total-bind_sure (All (IsCut w.host)) _ _
          (Sure-lift (All (IsCut w.host)) _ (found w.request.prompt _ 10 true true))
          (λ results cuts. recalled w.host results cuts))
