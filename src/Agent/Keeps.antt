-- ===== src/Agent/Keeps.antt =====
-- Predicates on the history that every call but a watched one keeps, and so every function of
-- memory.py and github_tools.py that a run calls.
use bulletfarm.Prelude.{
  ℕ, String, ◌≡◌, refl, Bool, true, false, Option, none, some, List, [], ◌∷◌, any, ◌==◌,
  if◌then◌else◌,
}
use bulletfarm.Prelude.Dict.{Dict}
use bulletfarm.Prelude.Exec.{pure, attempt, Result, Exn, ExnKind, github_error}
use bulletfarm.Prelude.Triple.{Keeps-if, Keeps-raise, Keeps-bind, Keeps, Ends-Always, keeps_rules}
use bulletfarm.Outside.{
  Doc, Label, PullRequest, SearchRequest, Call, History, Elastic, Host, Github, call,
}
use bulletfarm.Memory.Buffer.{
  MemoryWriteBuffer, create_buffer, add_task_memory, add_shared_memory, should_flush_intermediate,
}
use bulletfarm.Memory.Store.{ensure_index, get_task_history}
use bulletfarm.Memory.Errors.{add_jitter}
use bulletfarm.Memory.Search.{
  search_index, execute_full_query, execute_bm25_query, bm25_level, retry_level, unified_search,
}
use bulletfarm.Memory.Bulk.{send, bulk_write}
use bulletfarm.Github.PrUrl.{is_too_long, parse_pr_url}
use bulletfarm.Github.Client.{
  pass_github_error, pass_kind, after_int, too_many_digits, comment_parsed, create_missing,
  ensure_labels, create_draft_pr, get_repo_info, comment_at, comment_on_pr,
}

-- The calls that the results count. Of the memory functions of a run and its GitHub helpers, only
-- `bulk_write` makes one.
abbrev pub is_watched : Call → Bool
is_watched (Call.report _ _ _) = true
is_watched (Call.bulk _) = true
is_watched (Call.wait _) = true
is_watched (Call.stream_events _) = true
is_watched (Call.invoke_graph _) = true
is_watched (Call.mark_ready _) = true
is_watched (Call.close_pull _ _) = true
is_watched (Call.delete_git_ref _ _) = true
is_watched (Call.delete_by_query _ _) = true
is_watched _ = false

pub record IsCalm (P : History → Type 0) : Type 0 where
  pub stable : (c : Call) (h : History) → is_watched c ≡ false → P h → P (c ∷ h)

-- It is kept by bulk calls too.
pub record IsStable (P : History → Type 0) : Type 0 where
  pub calm : IsCalm P
  pub bulks : (docs : List Doc) (h : History) → P h → P (Call.bulk docs ∷ h)

pub Keeps-call :
    {A : Type 0} {P : History → Type 0} (answer : History → Result A) (c : Call)
    → IsCalm P
    → is_watched c ≡ false
    → Keeps P (call answer c)
Keeps-call {P} answer c st e = record {
  at = λ h p. Ends-Always P (answer (c ∷ h)) (c ∷ h) (st.stable c h e p);
}

pub ruleset act_rules = (keeps_rules, Keeps-call, refl)

module _ {P : History → Type 0} (st : IsCalm P) (es : Elastic) where
  pub ensure_index-Keeps :
      (index : String) (mapping : Dict String) → Keeps P (ensure_index es index mapping)
  unfolding ensure_index
  ensure_index-Keeps index mapping = search act_rules

  pub get_task_history-Keeps :
      (agent_ref : String) (limit : ℕ) → Keeps P (get_task_history es agent_ref limit)
  unfolding get_task_history
  get_task_history-Keeps agent_ref limit = search (act_rules, ensure_index-Keeps)

  search_index-Keeps : (b : Bool) (q : SearchRequest) → Keeps P (search_index es b q)
  unfolding search_index
  search_index-Keeps b q = search act_rules

  execute_full_query-Keeps :
      (q : String) (skills : Option (List String)) (limit : ℕ) (st' ss : Bool)
      → Keeps P (execute_full_query es q skills limit st' ss)
  unfolding execute_full_query
  execute_full_query-Keeps q skills limit st' ss =
      search (act_rules, ensure_index-Keeps, search_index-Keeps) depth 9

  execute_bm25_query-Keeps :
      (q : String) (limit : ℕ) (st' ss : Bool) → Keeps P (execute_bm25_query es q limit st' ss)
  unfolding execute_bm25_query
  execute_bm25_query-Keeps q limit st' ss =
      search (act_rules, ensure_index-Keeps, search_index-Keeps) depth 9

  bm25_level-Keeps :
      (q : String) (limit : ℕ) (st' ss : Bool) → Keeps P (bm25_level es q limit st' ss)
  unfolding bm25_level
  bm25_level-Keeps q limit st' ss = search (act_rules, execute_bm25_query-Keeps)

module _ {P : History → Type 0} (st : IsCalm P) (host : Host) where
  pub create_buffer-Keeps : (task_id : String) → Keeps P (create_buffer host task_id)
  unfolding create_buffer
  create_buffer-Keeps task_id = search act_rules

  pub add_task_memory-Keeps :
      (b : MemoryWriteBuffer) (doc : Doc) → Keeps P (add_task_memory host b doc)
  unfolding add_task_memory
  add_task_memory-Keeps b doc = search act_rules

  pub add_shared_memory-Keeps :
      (b : MemoryWriteBuffer) (doc : Doc) → Keeps P (add_shared_memory host b doc)
  unfolding add_shared_memory
  add_shared_memory-Keeps b doc = search act_rules

  pub should_flush_intermediate-Keeps :
      (b : MemoryWriteBuffer) (n : ℕ) → Keeps P (should_flush_intermediate host b n)
  unfolding should_flush_intermediate
  should_flush_intermediate-Keeps b n = search act_rules

  add_jitter-Keeps : (m n : ℕ) → Keeps P (add_jitter host m n)
  unfolding add_jitter
  add_jitter-Keeps m n = search act_rules

  retry_level-Keeps :
      (es : Elastic) (q : String) (skills : Option (List String)) (limit : ℕ) (st' ss : Bool)
      → Keeps P (retry_level es host q skills limit st' ss)
  unfolding retry_level
  retry_level-Keeps es q skills limit st' ss =
      search (act_rules, add_jitter-Keeps, execute_full_query-Keeps st, bm25_level-Keeps st) depth 9

  pub unified_search-Keeps :
      (es : Elastic) (q : String) (skills : Option (List String)) (limit : ℕ) (st' ss : Bool)
      → Keeps P (unified_search es host q skills limit st' ss)
  unfolding unified_search
  unified_search-Keeps es q skills limit st' ss =
      search (act_rules, execute_full_query-Keeps st, retry_level-Keeps) depth 9

module _ {P : History → Type 0} (st : IsCalm P) (gh : Github) where
  pass_kind-Keeps : (k : ExnKind) (e : Exn) → Keeps P (pass_kind k e)
  unfolding pass_kind
  pass_kind-Keeps github_error e = search act_rules
  pass_kind-Keeps _ e = search act_rules

  create_missing-Keeps :
      (repo : String) (existing : List String) (labels : List Label)
      → Keeps P (create_missing gh repo existing labels)
  unfolding create_missing
  create_missing-Keeps repo existing [] = search act_rules
  create_missing-Keeps repo existing (l ∷ labels) =
      Keeps-bind
        (if any (λ name. name == l.name) existing
          then pure tt
          else attempt (call gh.create_label (Call.create_label repo l)) pass_github_error)
        (λ _. create_missing gh repo existing labels) (search (act_rules, pass_kind-Keeps))
        (λ _. create_missing-Keeps repo existing labels)

  ensure_labels-Keeps :
      (repo : String) (labels : List Label) → Keeps P (ensure_labels gh repo labels)
  unfolding ensure_labels
  ensure_labels-Keeps repo labels = search (act_rules, create_missing-Keeps)

  pub create_draft_pr-Keeps :
      (repo : String) (pull : PullRequest) (task_id agent_ref : String)
      → Keeps P (create_draft_pr gh repo pull task_id agent_ref)
  unfolding create_draft_pr
  create_draft_pr-Keeps repo pull task_id agent_ref =
      search (act_rules, ensure_labels-Keeps) depth 9

  pub get_repo_info-Keeps : (repo : String) → Keeps P (get_repo_info gh repo)
  unfolding get_repo_info
  get_repo_info-Keeps repo = search act_rules

  comment_at-Keeps : (repo : String) (n : ℕ) (c : String) → Keeps P (comment_at gh repo n c)
  unfolding comment_at
  comment_at-Keeps repo n c = search act_rules depth 9

  comment_parsed-Keeps :
      (url : String) (o : Option (String × ℕ)) (c : String) → Keeps P (comment_parsed gh url o c)
  unfolding comment_parsed after_int
  comment_parsed-Keeps url none c = search act_rules
  comment_parsed-Keeps url (some (repo, n)) c =
      Keeps-if (is_too_long url) _ _ (Keeps-raise (too_many_digits url)) (comment_at-Keeps repo n c)

  pub comment_on_pr-Keeps : (url c : String) → Keeps P (comment_on_pr gh url c)
  unfolding comment_on_pr
  comment_on_pr-Keeps url c = comment_parsed-Keeps url (parse_pr_url url) c

module _ {P : History → Type 0} (st : IsStable P) (es : Elastic) where
  bulk-Keeps : (docs : List Doc) → Keeps P (call es.bulk (Call.bulk docs))
  bulk-Keeps docs = record {
    at = λ h p.
        Ends-Always P (es.bulk (Call.bulk docs ∷ h)) (Call.bulk docs ∷ h) (st.bulks docs h p);
  }

  send-Keeps : (docs : List Doc) → Keeps P (send es docs)
  unfolding send
  send-Keeps docs = search (keeps_rules, bulk-Keeps)

  pub bulk_write-Keeps : (b : MemoryWriteBuffer) → Keeps P (bulk_write es b)
  unfolding bulk_write
  bulk_write-Keeps b = search (keeps_rules, ensure_index-Keeps st.calm es, send-Keeps) depth 9
