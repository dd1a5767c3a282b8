-- ===== src/Agent/Loop.antt =====
-- Step 3 of `run_task`: the agent graph, its events, and the retries after a rate limit.
use bulletfarm.Prelude.{
  ℕ, zero, suc, ◌+◌, ◌*◌, ◌^◌, String, ◌<>◌, Bool, true, ◌&&◌, Option, none, some, List, [], ◌∷◌,
  ltb, decimal, lower_contains, if◌then◌else◌,
}
use bulletfarm.Prelude.Exec.{Exn, ok, pure, raise, attempt, ◌>>=◌, ◌>>◌}
use bulletfarm.Outside.{
  text, texts, flag, Doc, Message, StreamEvent, on_tool_start, on_tool_end, on_other,
  on_chat_model_end, Call, call,
}
use bulletfarm.Memory.Buffer.{should_flush_intermediate}
use bulletfarm.Memory.Bulk.{bulk_write}
use bulletfarm.Models.{TaskRequest}
use bulletfarm.Agent.Session.{
  World, Run, lift, get_buffer, set_result, progress, buffer_task_memory,
}
use bulletfarm.Agent.Skills.{select_tools}
use bulletfarm.Agent.Evaluate.{has_marker, rate_limit_markers}

abbrev pub max_llm_retries : ℕ
max_llm_retries = 3

abbrev pub max_agent_steps : ℕ
max_agent_steps = 50

unfoldable pub intermediate_doc : TaskRequest → ℕ → Doc
intermediate_doc request step_count =
    ("agent_ref", text request.agent_ref)
    ∷ ("repository", text request.repository)
    ∷ ("prompt", text request.prompt)
    ∷ ("output", text ("Task in progress (step " <> decimal step_count <> ")"))
    ∷ ("skills_used", texts request.skills)
    ∷ ("phase", text "Running")
    ∷ ("intermediate_checkpoint", flag true)
    ∷ []

abbrev pub recursion_message : Message
recursion_message = record {
  content =
      "Agent hit the maximum step limit ("
      <> decimal max_agent_steps
      <> " steps) without completing the task.";
  tool_calls = [];
  name = none;
}

abbrev pub is_rate_limit : Exn → Bool
is_rate_limit exc = has_marker rate_limit_markers exc.message

abbrev pub is_recursion : Exn → Bool
is_recursion exc = lower_contains exc.message "recursion"

-- `(2**attempt) * 15`
abbrev pub wait_secs : ℕ → ℕ
wait_secs tries = 2 ^ tries * 15

-- `result.get("messages", []) if result else []`
unfoldable pub messages_of : Option (List Message) → List Message
messages_of none = []
messages_of (some messages) = messages

module _ (w : World) where
  -- The intermediate flush, at the start of a tool.
  unfoldable pub flush_if_due : ℕ → Run (Unit {0})
  flush_if_due step_count = do
    b ← get_buffer
    due ← lift (should_flush_intermediate w.host b 300)
    if due
        then (do
          buffer_task_memory w (intermediate_doc w.request step_count)
          b' ← get_buffer
          lift (bulk_write w.es b')
          pure tt)
        else pure tt

  -- The loop over the events, after `step_count` tools were started.
  unfoldable pub handle_events : ℕ → List StreamEvent → Run (Unit {0})
  unfolding flush_if_due
  handle_events step_count [] = pure tt
  handle_events step_count (on_tool_start ∷ events) =
      flush_if_due (step_count + 1) >> handle_events (step_count + 1) events
  handle_events step_count (on_tool_end ∷ events) = handle_events step_count events
  handle_events step_count (on_other ∷ events) = handle_events step_count events
  handle_events step_count (on_chat_model_end none ∷ events) = handle_events step_count events
  handle_events step_count (on_chat_model_end (some output) ∷ events) =
      set_result (some (output ∷ [])) >> handle_events step_count events

  unfoldable pub raise_failure : Option Exn → Run (Unit {0})
  raise_failure none = pure tt
  raise_failure (some exc) = raise exc

  -- `if result is None: result = await agent_graph.ainvoke(…)`
  unfoldable pub invoke_if_none : String → Option (List Message) → Run (Unit {0})
  invoke_if_none prompt none = do
    messages ← lift (call w.graph.invoke (Call.invoke_graph prompt))
    set_result (some messages)
  invoke_if_none prompt (some messages) = pure tt

  -- The `try` of one attempt.
  unfoldable pub llm_attempt : String → Run (Unit {0})
  unfolding handle_events raise_failure invoke_if_none
  llm_attempt prompt = do
    stream ← lift (call w.graph.stream (Call.stream_events prompt))
    handle_events 0 stream.events
    raise_failure stream.failure
    messages ← λ s. (ok s.result, s)
    invoke_if_none prompt messages

  -- The loop over the attempts, with as many left as the first argument says.
  unfoldable pub llm_loop : String → ℕ → ℕ → Run (Unit {0})
  unfolding llm_attempt
  llm_loop prompt zero tries = pure tt
  llm_loop prompt (suc left) tries =
      let again = llm_loop prompt left (tries + 1) in
      attempt (llm_attempt prompt) (λ exc.
        if is_recursion exc
        then set_result (some (recursion_message ∷ []))
        else if is_rate_limit exc && ltb (tries + 1) max_llm_retries
        then (do
          progress w 45 ("Rate limited, retrying in " <> decimal (wait_secs tries) <> "s")
          lift (call (λ h. ok tt) (Call.wait (wait_secs tries)))
          again)
        else raise exc)

  unfoldable pub run_agent : String → Run (List Message)
  unfolding llm_loop messages_of
  run_agent prompt = do
    progress w 30 "Running LLM agent"
    lift (call w.graph.build (Call.build_graph (select_tools w.request.skills)))
    progress w 40 "Agent executing"
    set_result none
    llm_loop prompt max_llm_retries 0
    λ s. (ok (messages_of s.result), s)
