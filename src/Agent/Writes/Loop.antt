-- ===== src/Agent/Writes/Loop.antt =====
-- The LLM loop of agent.py sends no document that a test picks, where it picks no checkpoint.
use bulletfarm.Prelude.{ℕ, zero, suc, ◌+◌, String, Option, none, some, List, [], ◌∷◌}
use bulletfarm.Prelude.Exec.{Exn, pure}
use bulletfarm.Prelude.Triple.{Keeps, Keeps-if, Keeps-pure, Keeps-raise, Keeps-bind}
use bulletfarm.Outside.{
  Message, StreamEvent, on_tool_start, on_tool_end, on_other, on_chat_model_end,
}
use bulletfarm.Agent.Session.{World, get_buffer, set_result}
use bulletfarm.Agent.Loop.{
  intermediate_doc, flush_if_due, handle_events, raise_failure, invoke_if_none, llm_attempt,
  llm_loop, run_agent,
}
use bulletfarm.Agent.Keeps.{should_flush_intermediate-Keeps}
use bulletfarm.Agent.Writes.{Watch, calm, Quiet, Quiet-lift}
use bulletfarm.Agent.Writes.Parts.{
  SparesRun, quiet_rules, progress-Quiet, store-Quiet, Quiet-get_buffer, Quiet-set_result,
}

module _ (q : Watch) (w : World) (spares : SparesRun q w.request) where
  flush_if_due-Quiet : (n : ℕ) → Keeps (Quiet q) (flush_if_due w n)
  unfolding flush_if_due
  flush_if_due-Quiet n =
      let due-Quiet = should_flush_intermediate-Keeps (calm q) w.host in
      let store =
        store-Quiet q w (intermediate_doc w.request n) (pure tt) (spares.checkpoints n)
          (Keeps-pure tt) in
      Keeps-bind get_buffer _ (Quiet-get_buffer q) (λ b.
        Keeps-bind _ _ (Quiet-lift q _ (due-Quiet b 300))
          (λ due. Keeps-if due _ _ store (Keeps-pure tt)))

  events-Quiet : (n : ℕ) (events : List StreamEvent) → Keeps (Quiet q) (handle_events w n events)
  unfolding handle_events
  events-Quiet n [] = Keeps-pure tt
  events-Quiet n (on_tool_start ∷ events) =
      Keeps-bind (flush_if_due w (n + 1)) (λ _. handle_events w (n + 1) events)
        (flush_if_due-Quiet (n + 1)) (λ _. events-Quiet (n + 1) events)
  events-Quiet n (on_tool_end ∷ events) = events-Quiet n events
  events-Quiet n (on_other ∷ events) = events-Quiet n events
  events-Quiet n (on_chat_model_end none ∷ events) = events-Quiet n events
  events-Quiet n (on_chat_model_end (some m) ∷ events) =
      Keeps-bind (set_result (some (m ∷ []))) (λ _. handle_events w n events)
        (Quiet-set_result q (some (m ∷ []))) (λ _. events-Quiet n events)

  raise_failure-Quiet : (o : Option Exn) → Keeps (Quiet q) (raise_failure w o)
  unfolding raise_failure
  raise_failure-Quiet none = Keeps-pure tt
  raise_failure-Quiet (some e) = Keeps-raise e

  invoke-Quiet :
      (prompt : String) (o : Option (List Message)) → Keeps (Quiet q) (invoke_if_none w prompt o)
  unfolding invoke_if_none
  invoke-Quiet prompt none = search quiet_rules
  invoke-Quiet prompt (some m) = Keeps-pure tt

  attempt-Quiet : (prompt : String) → Keeps (Quiet q) (llm_attempt w prompt)
  unfolding llm_attempt
  attempt-Quiet prompt =
      search (quiet_rules, events-Quiet, raise_failure-Quiet, invoke-Quiet) depth 9

  loop-Quiet : (prompt : String) (left tries : ℕ) → Keeps (Quiet q) (llm_loop w prompt left tries)
  unfolding llm_loop
  loop-Quiet prompt zero tries = Keeps-pure tt
  loop-Quiet prompt (suc left) tries =
      let again = loop-Quiet prompt left (tries + 1) in
      search (quiet_rules, attempt-Quiet, progress-Quiet q w) depth 12

  pub agent-Quiet : (prompt : String) → Keeps (Quiet q) (run_agent w prompt)
  unfolding run_agent
  agent-Quiet prompt = search (quiet_rules, progress-Quiet q w, loop-Quiet) depth 14
