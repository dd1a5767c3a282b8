-- ===== src/Agent/Writes/Parts.antt =====
-- The parts of a run of agent.py that send no document that a test picks, where it picks none of those
-- that the parts make.
use bulletfarm.Prelude.{
  ℕ, zero, suc, ◌+◌, String, ◌≡◌, refl, Bool, true, false, Option, none, some, List, [], ◌∷◌, ◌++◌,
  any, keep, arith, ◌==◌, if◌then◌else◌,
}
use mathlib.Core.List.{append_assoc}
use bulletfarm.Prelude.Dict.{update}
use bulletfarm.Prelude.Exec.{Exn, Result, ok, ◌>>=◌, ◌>>◌}
use bulletfarm.Prelude.Triple.{
  Always, Keeps, Ends-Always, keeps_rules, Keeps-if, Keeps-pure, Keeps-raise, Keeps-bind,
}
use bulletfarm.Outside.{text, time, Doc, Message, Call, History, call}
use bulletfarm.Memory.Buffer.{
  add_task_memory, add_shared_memory, task_memory_index, shared_memory_index,
}
use bulletfarm.Memory.Bulk.{bulk_write}
use bulletfarm.Agent.Session.{
  World, Session, Run, lift, get_buffer, set_pr_url, set_result, progress, run_command, run_checked,
  buffer_task_memory, buffer_shared_memory,
}
use bulletfarm.Agent.Prepare.{
  checkout_retry, clone_git, clone_repo, search_memory, gather_parts, gather_context,
}
use bulletfarm.Agent.Loop.{intermediate_doc}
use bulletfarm.Agent.Keeps.{get_repo_info-Keeps, get_task_history-Keeps, unified_search-Keeps}
use bulletfarm.Models.{TaskRequest}
use bulletfarm.Agent.Run.{failure_doc}
use bulletfarm.Agent.Documents.{incomplete_doc}
use bulletfarm.Agent.Writes.{Watch, docs_of, Sent, calm, Quiet, Quiet-lift, Quiet-flush}

-- What `add_task_memory` makes of a document.
abbrev pub task_doc : String → ℕ → Doc → Doc
task_doc task_id stamp doc =
    update
      (("_index", text task_memory_index)
        ∷ ("_op_type", text "index")
        ∷ ("task_id", text task_id)
        ∷ ("timestamp", time stamp)
        ∷ [])
      doc

-- What `add_shared_memory` makes of a document.
abbrev pub lesson_doc : ℕ → Doc → Doc
lesson_doc stamp doc =
    update
      (("_index", text shared_memory_index)
        ∷ ("_op_type", text "index")
        ∷ ("timestamp", time stamp)
        ∷ [])
      doc

abbrev pub Spares : Watch → Doc → Type 0
Spares q doc = (stamp : ℕ) → q.picks (task_doc q.owner stamp doc) ≡ false

-- The test picks no document of the run before it is known to succeed.
pub record SparesRun (q : Watch) (request : TaskRequest) : Type 0 where
  pub checkpoints : (n : ℕ) → Spares q (intermediate_doc request n)
  pub incompletes :
      (out : String) (tools : List String) (url : String)
      → Spares q (incomplete_doc request out tools url)
  pub failures : (exc : Exn) → Spares q (failure_doc request exc)

still_none :
    (p : Doc → Bool) (xs ys : List Doc) (d : Doc)
    → p d ≡ false
    → keep p (xs ++ ys) ≡ []
    → keep p ((xs ++ (d ∷ [])) ++ ys) ≡ []
still_none p [] ys d e none_yet = ground arith
still_none p (x ∷ xs) ys d e none_yet = ground (arith, still_none p xs ys d e)

none_end :
    (p : Doc → Bool) (xs : List Doc) (d : Doc)
    → p d ≡ false
    → keep p xs ≡ []
    → keep p (xs ++ (d ∷ [])) ≡ []
none_end p [] d e none_yet = ground arith
none_end p (x ∷ xs) d e none_yet = ground (arith, none_end p xs d e)

none_after :
    (p : Doc → Bool) (xs ys : List Doc) (d : Doc)
    → p d ≡ false
    → keep p (xs ++ ys) ≡ []
    → keep p (xs ++ (ys ++ (d ∷ []))) ≡ []
none_after p xs ys d e none_yet =
    rw (append_assoc xs ys (d ∷ [])) at (none_end p (xs ++ ys) d e none_yet)

module _ (q : Watch) where
  pub call-Sent :
      {A : Type 0} (answer : History → Result A) (c : Call)
      → docs_of c ≡ []
      → Keeps (Sent q) (call answer c)
  call-Sent answer c e = record {
    at = λ h p. Ends-Always (Sent q) (answer (c ∷ h)) (c ∷ h) (record { sent = rw e p.sent });
  }

  pub Quiet-set_result : (m : Option (List Message)) → Keeps (Quiet q) (set_result m)
  Quiet-set_result m = record {
    at = λ s p. record { said = p.said; held = p.held; owned = p.owned };
  }

  pub Quiet-set_pr_url : (url : String) → Keeps (Quiet q) (set_pr_url url)
  Quiet-set_pr_url url = record {
    at = λ s p. record { said = p.said; held = p.held; owned = p.owned };
  }

  pub Quiet-get_buffer : Keeps (Quiet q) get_buffer
  Quiet-get_buffer = record { at = λ s p. p }

  pub Quiet-state : {A : Type 0} (f : Session → A) → Keeps (Quiet q) (λ s. (ok (f s), s))
  Quiet-state f = record { at = λ s p. p }

pub ruleset quiet_rules =
    (keeps_rules, refl, Quiet-lift, call-Sent, Quiet-set_result, Quiet-set_pr_url, Quiet-state)

module _ (q : Watch) (w : World) where
  pub buffer-Quiet : (doc : Doc) → Spares q doc → Keeps (Quiet q) (buffer_task_memory w doc)
  unfolding buffer_task_memory add_task_memory
  buffer-Quiet doc spared = record {
    at = λ s p. record {
      said = p.said;
      held =
          still_none q.picks s.buffer.task_memory_docs s.buffer.shared_memory_docs _
            (rw p.owned (spared (w.host.now (Call.now ∷ s.history)))) p.held;
      owned = p.owned;
    };
  }

  pub lesson-Quiet :
      (doc : Doc)
      → ((stamp : ℕ) → q.picks (lesson_doc stamp doc) ≡ false)
      → Keeps (Quiet q) (buffer_shared_memory w doc)
  unfolding buffer_shared_memory add_shared_memory
  lesson-Quiet doc spared = record {
    at = λ s p. record {
      said = p.said;
      held =
          none_after q.picks s.buffer.task_memory_docs s.buffer.shared_memory_docs _
            (spared (w.host.now (Call.now ∷ s.history))) p.held;
      owned = p.owned;
    };
  }

  pub progress-Quiet : (n : ℕ) (message : String) → Keeps (Quiet q) (progress w n message)
  unfolding progress
  progress-Quiet n message = search quiet_rules

  pub run_command-Quiet :
      (args : List String) (cwd : Option String) → Keeps (Quiet q) (run_command w args cwd)
  unfolding run_command
  run_command-Quiet args cwd = search quiet_rules

  pub run_checked-Quiet :
      (args : List String) (cwd : Option String) → Keeps (Quiet q) (run_checked w args cwd)
  unfolding run_checked
  run_checked-Quiet args cwd = search (quiet_rules, run_command-Quiet)

  pub clone-Quiet : Keeps (Quiet q) (clone_repo w)
  unfolding clone_repo clone_git checkout_retry
  clone-Quiet = search (quiet_rules, progress-Quiet, run_checked-Quiet, run_command-Quiet) depth 14

  pub gather-Quiet : Keeps (Quiet q) (gather_context w)
  unfolding gather_context gather_parts search_memory
  gather-Quiet =
      search
        (
          quiet_rules,
          progress-Quiet,
          run_command-Quiet,
          get_repo_info-Keeps (calm q),
          get_task_history-Keeps (calm q),
          unified_search-Keeps (calm q),
        )
        depth 14

  -- A document is added, and the buffer is sent.
  pub store-Quiet :
      {B : Type 0} (doc : Doc) (result : Run B)
      → Spares q doc
      → Keeps (Quiet q) result
      → Keeps
          (Quiet q)
          (do buffer_task_memory w doc; b ← get_buffer; lift (bulk_write w.es b); result)
  store-Quiet doc result spared k =
      Keeps-bind (buffer_task_memory w doc) _ (buffer-Quiet doc spared)
        (λ _. Quiet-flush q w (λ _. result) (λ _. k))
