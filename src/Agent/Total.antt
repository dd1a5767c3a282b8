-- ===== src/Agent/Total.antt =====
-- Parts of a run that never raise, whatever the services do.
use bulletfarm.Prelude.{ℕ, ◌≡◌, false, String, Bool, Option, none, some, List, ◌∷◌}
use bulletfarm.Prelude.Dict.{Dict}
use bulletfarm.Prelude.Exec.{Result, ok, raised}
use bulletfarm.Prelude.Triple.{Ends}
use bulletfarm.Prelude.Total.{
  Sure, Total, Total-if, Total-pure, Total-step, Total-bind, total_rules,
}
use bulletfarm.Outside.{Message, Doc, Call, History, Act, Elastic, Host, Github, call, read_clock}
use bulletfarm.Memory.Buffer.{
  MemoryWriteBuffer, add_task_memory, add_shared_memory, should_flush_intermediate,
}
use bulletfarm.Memory.Store.{ensure_index, get_task_history}
use bulletfarm.Memory.Search.{bm25_level, retry_level, unified_search}
use bulletfarm.Memory.Bulk.{send, bulk_write}
use bulletfarm.Github.PrUrl.{is_too_long, parse_pr_url}
use bulletfarm.Github.Client.{after_int, comment_at, comment_parsed, comment_on_pr}
use bulletfarm.Agent.Session.{
  Session, World, lift, get_buffer, set_pr_url, set_result, progress, buffer_task_memory,
  buffer_shared_memory,
}
use bulletfarm.Agent.Loop.{flush_if_due}

-- A call that is always answered.
pub Total-call :
    {A : Type 0} (answer : History → Result A) (c : Call)
    → ((h : History) → Ends (λ _ _. Unit) (λ _. ⊥) (answer (c ∷ h), c ∷ h))
    → Total (call answer c)
Total-call answer c t = record { returns = t }

pub Total-clock : (host : Host) → Total (read_clock host)
Total-clock host = record { returns = λ h. tt }

module _ (es : Elastic) where
  pub ensure_index-Total :
      (index : String) (mapping : Dict String) → Total (ensure_index es index mapping)
  unfolding ensure_index
  ensure_index-Total index mapping = search total_rules

  pub get_task_history-Total :
      (agent_ref : String) (limit : ℕ) → Total (get_task_history es agent_ref limit)
  unfolding get_task_history
  get_task_history-Total agent_ref limit = search total_rules

  send-Total : (docs : List Doc) → Total (send es docs)
  unfolding send
  send-Total docs = search total_rules

  pub bulk_write-Total : (b : MemoryWriteBuffer) → Total (bulk_write es b)
  unfolding bulk_write
  bulk_write-Total b = search (total_rules, ensure_index-Total, send-Total) depth 9

  bm25_level-Total : (q : String) (limit : ℕ) (st ss : Bool) → Total (bm25_level es q limit st ss)
  unfolding bm25_level
  bm25_level-Total q limit st ss = search total_rules

  retry_level-Total :
      (host : Host) (q : String) (skills : Option (List String)) (limit : ℕ) (st ss : Bool)
      → Total (retry_level es host q skills limit st ss)
  unfolding retry_level
  retry_level-Total host q skills limit st ss = search (total_rules, bm25_level-Total)

  pub unified_search-Total :
      (host : Host) (q : String) (skills : Option (List String)) (limit : ℕ) (st ss : Bool)
      → Total (unified_search es host q skills limit st ss)
  unfolding unified_search
  unified_search-Total host q skills limit st ss = search (total_rules, retry_level-Total)

module _ (gh : Github) where
  comment_at-Total : (repo : String) (n : ℕ) (c : String) → Total (comment_at gh repo n c)
  unfolding comment_at
  comment_at-Total repo n c = search total_rules

  comment_parsed-Total :
      (url : String) (o : Option (String × ℕ)) (c : String)
      → is_too_long url ≡ false
      → Total (comment_parsed gh url o c)
  unfolding comment_parsed after_int
  comment_parsed-Total url none c short = Total-pure _
  comment_parsed-Total url (some (repo, n)) c short = rw short (comment_at-Total repo n c)

  pub comment_on_pr-Total :
      (url c : String) → is_too_long url ≡ false → Total (comment_on_pr gh url c)
  unfolding comment_on_pr
  comment_on_pr-Total url c short = comment_parsed-Total url (parse_pr_url url) c short

-- From a service to the session.
lifted :
    {A : Type 0} (r : Result A) (h : History) (s : Session)
    → Ends (λ _ _. Unit) (λ _. ⊥) (r, h)
    → Ends (λ _ _. Unit) (λ _. ⊥) (r, record s { history = h })
lifted (ok a) h s e = e
lifted (raised x) h s e = e

pub Total-lift : {A : Type 0} (m : Act A) → Total m → Total (lift m)
Total-lift m t = record {
  returns = λ s. let (r, h) = m s.history in lifted r h s (t.returns s.history);
}

surely :
    {A : Type 0} (Q : A → Type 0) (r : Result A) (h : History) (s : Session)
    → Ends (λ a _. Q a) (λ _. ⊥) (r, h)
    → Ends (λ a _. Q a) (λ _. ⊥) (r, record s { history = h })
surely Q (ok a) h s q = q
surely Q (raised x) h s q = q

pub Sure-lift : {A : Type 0} (Q : A → Type 0) (m : Act A) → Sure Q m → Sure Q (lift m)
Sure-lift Q m t = record {
  returns = λ s. let (r, h) = m s.history in surely Q r h s (t.returns s.history);
}

pub Total-get_buffer : Total get_buffer
Total-get_buffer = record { returns = λ s. tt }

pub Total-set_pr_url : (url : String) → Total (set_pr_url url)
Total-set_pr_url url = record { returns = λ s. tt }

pub Total-set_result : (m : Option (List Message)) → Total (set_result m)
Total-set_result m = record { returns = λ s. tt }

pub Total-set_buffer :
    (b : MemoryWriteBuffer)
    → Total {S = Session} {A = Unit {0}} (λ s. (ok tt, record s { buffer = b }))
Total-set_buffer b = record { returns = λ s. tt }

pub Total-state : {A : Type 0} (f : Session → A) → Total {S = Session} (λ s. (ok (f s), s))
Total-state f = record { returns = λ s. tt }

pub ruleset session_rules = (
  total_rules, Total-clock, Total-lift, Total-get_buffer, Total-set_pr_url, Total-set_result,
  Total-set_buffer, Total-state,
)

module _ (host : Host) where
  add_task_memory-Total : (b : MemoryWriteBuffer) (doc : Doc) → Total (add_task_memory host b doc)
  unfolding add_task_memory
  add_task_memory-Total b doc = search (total_rules, Total-clock)

  add_shared_memory-Total :
      (b : MemoryWriteBuffer) (doc : Doc) → Total (add_shared_memory host b doc)
  unfolding add_shared_memory
  add_shared_memory-Total b doc = search (total_rules, Total-clock)

  should_flush-Total : (b : MemoryWriteBuffer) (n : ℕ) → Total (should_flush_intermediate host b n)
  unfolding should_flush_intermediate
  should_flush-Total b n = search (total_rules, Total-clock)

module _ (w : World) where
  pub progress-Total : (n : ℕ) (message : String) → Total (progress w n message)
  unfolding progress
  progress-Total n message =
      Total-lift _ (Total-if w.has_callback _ _ (record { returns = λ h. tt }) (Total-pure tt))

  pub buffer_task_memory-Total : (doc : Doc) → Total (buffer_task_memory w doc)
  unfolding buffer_task_memory
  buffer_task_memory-Total doc = search (session_rules, add_task_memory-Total)

  pub buffer_shared_memory-Total : (doc : Doc) → Total (buffer_shared_memory w doc)
  unfolding buffer_shared_memory
  buffer_shared_memory-Total doc = search (session_rules, add_shared_memory-Total)

  pub flush_if_due-Total : (n : ℕ) → Total (flush_if_due w n)
  unfolding flush_if_due
  flush_if_due-Total n =
      search (session_rules, should_flush-Total, buffer_task_memory-Total, bulk_write-Total) depth 9
