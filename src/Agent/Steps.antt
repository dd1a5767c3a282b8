-- ===== src/Agent/Steps.antt =====
-- The parts of `run_task` that make no watched call keep what a stable predicate says of the past.
use bulletfarm.Prelude.{zero, suc, ℕ, String, ◌+◌, List, [], ◌∷◌, Option, none, some}
use bulletfarm.Prelude.Exec.{ok, ◌>>=◌, Exn, ◌>>◌}
use bulletfarm.Prelude.Triple.{Ends-Always, Keeps, Keeps-pure, Keeps-raise, Keeps-bind}
use bulletfarm.Outside.{
  Stream, History, Call, call, PullRequest, StreamEvent, on_tool_start, on_tool_end, on_other,
  on_chat_model_end, Message,
}
use bulletfarm.Github.Client.{RepoInfo}
use bulletfarm.Agent.Session.{World, set_result, progress}
use bulletfarm.Agent.Prepare.{checkout_retry, clone_git, search_memory, gather_parts}
use bulletfarm.Agent.Loop.{
  flush_if_due, handle_events, raise_failure, invoke_if_none, llm_attempt, llm_loop,
}
use bulletfarm.Agent.Finish.{open_pull, modified_files, publish, finish_incomplete}
use bulletfarm.Agent.Run.{store_failure, handle_failure}
use bulletfarm.Agent.Keeps.{
  IsStable, get_repo_info-Keeps, get_task_history-Keeps, should_flush_intermediate-Keeps,
  unified_search-Keeps, create_draft_pr-Keeps, comment_on_pr-Keeps, bulk_write-Keeps,
}
use bulletfarm.Agent.Rules.{
  Keeps-lift, Past, run_rules, run_command-Keeps, run_checked-Keeps, buffer_task_memory-Keeps,
  Keeps-set_result,
}

module _ {P : History → Type 0} (st : IsStable P) (w : World) where
  checkout_retry-Keeps : Keeps (Past P) (checkout_retry w)
  unfolding checkout_retry
  checkout_retry-Keeps =
      search (run_rules, run_command-Keeps st.calm w, run_checked-Keeps st.calm w)

  search_memory-Keeps : Keeps (Past P) (search_memory w)
  unfolding search_memory
  search_memory-Keeps = search (run_rules, unified_search-Keeps st.calm)

  pub clone_git-Keeps : Keeps (Past P) (clone_git w)
  unfolding clone_git
  clone_git-Keeps = search (run_rules, run_checked-Keeps st.calm w, checkout_retry-Keeps) depth 9

  pub gather_parts-Keeps : Keeps (Past P) (gather_parts w)
  unfolding gather_parts
  gather_parts-Keeps =
      search
        (
          run_rules,
          get_repo_info-Keeps st.calm,
          get_task_history-Keeps st.calm,
          search_memory-Keeps,
          run_command-Keeps st.calm w,
        )
        depth 9

  pub flush_if_due-Keeps : (n : ℕ) → Keeps (Past P) (flush_if_due w n)
  unfolding flush_if_due
  flush_if_due-Keeps n =
      search
        (
          run_rules,
          should_flush_intermediate-Keeps st.calm,
          buffer_task_memory-Keeps st.calm w,
          bulk_write-Keeps st,
        )
        depth 9

  pub handle_events-Keeps :
      (n : ℕ) (events : List StreamEvent) → Keeps (Past P) (handle_events w n events)
  unfolding handle_events
  handle_events-Keeps n [] = Keeps-pure tt
  handle_events-Keeps n (on_tool_start ∷ events) =
      Keeps-bind (flush_if_due w (n + 1)) (λ _. handle_events w (n + 1) events)
        (flush_if_due-Keeps (n + 1)) (λ _. handle_events-Keeps (n + 1) events)
  handle_events-Keeps n (on_tool_end ∷ events) = handle_events-Keeps n events
  handle_events-Keeps n (on_other ∷ events) = handle_events-Keeps n events
  handle_events-Keeps n (on_chat_model_end none ∷ events) = handle_events-Keeps n events
  handle_events-Keeps n (on_chat_model_end (some output) ∷ events) =
      Keeps-bind (set_result (some (output ∷ []))) (λ _. handle_events w n events)
        (Keeps-set_result P _) (λ _. handle_events-Keeps n events)

  pub raise_failure-Keeps : (o : Option Exn) → Keeps (Past P) (raise_failure w o)
  unfolding raise_failure
  raise_failure-Keeps none = Keeps-pure tt
  raise_failure-Keeps (some e) = Keeps-raise e

  pub modified_files-Keeps : Keeps (Past P) (modified_files w)
  unfolding modified_files
  modified_files-Keeps = search (run_rules, run_command-Keeps st.calm w)

  pub publish-Keeps :
      (info : RepoInfo) (out : String) (files : List String)
      → Keeps (Past P) (publish w info out files)
  unfolding publish
  publish-Keeps info out files =
      search (run_rules, create_draft_pr-Keeps st.calm, comment_on_pr-Keeps st.calm) depth 8

  open_pull-Keeps : (pull : PullRequest) → Keeps (Past P) (open_pull w pull)
  open_pull-Keeps pull = search (run_rules, create_draft_pr-Keeps st.calm)

  pub finish_incomplete-Keeps :
      (info : RepoInfo) (out : String) (tools : List String)
      → Keeps (Past P) (finish_incomplete w info out tools)
  unfolding finish_incomplete
  finish_incomplete-Keeps info out tools =
      search
        (
          run_rules,
          open_pull-Keeps,
          comment_on_pr-Keeps st.calm,
          buffer_task_memory-Keeps st.calm w,
          bulk_write-Keeps st,
        )
        depth 10

  pub store_failure-Keeps : (exc : Exn) → Keeps (Past P) (store_failure w exc)
  unfolding store_failure
  store_failure-Keeps exc =
      search (run_rules, buffer_task_memory-Keeps st.calm w, bulk_write-Keeps st) depth 9

  pub handle_failure-Keeps : (exc : Exn) → Keeps (Past P) (handle_failure w exc)
  unfolding handle_failure
  handle_failure-Keeps exc = search (run_rules, store_failure-Keeps)

-- The attempts at the LLM, for a predicate that their calls keep too.
module _ {P : History → Type 0} (st : IsStable P) (w : World)
    (invokes : (prompt : String) (h : History) → P h → P (Call.invoke_graph prompt ∷ h)) where
  invoke-Keeps : (prompt : String) → Keeps P (call w.graph.invoke (Call.invoke_graph prompt))
  invoke-Keeps prompt = record { at = λ h p. Ends-Always P _ _ (invokes prompt h p) }

  invoke_if_none-Keeps :
      (prompt : String) (o : Option (List Message)) → Keeps (Past P) (invoke_if_none w prompt o)
  unfolding invoke_if_none
  invoke_if_none-Keeps prompt none = search (run_rules, invoke-Keeps)
  invoke_if_none-Keeps prompt (some messages) = Keeps-pure tt

  -- An attempt, once it has its stream.
  pub streamed-Keeps :
      (prompt : String) (stream : Stream)
      → Keeps (Past P) (do
        handle_events w 0 stream.events
        raise_failure w stream.failure
        messages ← λ s. (ok s.result, s)
        invoke_if_none w prompt messages)
  streamed-Keeps prompt stream =
      search (run_rules, handle_events-Keeps st w, raise_failure-Keeps st w, invoke_if_none-Keeps)
        depth 9

module _ {P : History → Type 0} (st : IsStable P) (w : World)
    (streams : (prompt : String) (h : History) → P h → P (Call.stream_events prompt ∷ h))
    (invokes : (prompt : String) (h : History) → P h → P (Call.invoke_graph prompt ∷ h))
    (waits : (secs : ℕ) (h : History) → P h → P (Call.wait secs ∷ h))
    (reports : (message : String) → Keeps (Past P) (progress w 45 message)) where
  wait-Keeps : (secs : ℕ) → Keeps P (call (λ h. ok tt) (Call.wait secs))
  wait-Keeps secs = record { at = λ h p. waits secs h p }

  stream-Keeps : (prompt : String) → Keeps P (call w.graph.stream (Call.stream_events prompt))
  stream-Keeps prompt = record { at = λ h p. Ends-Always P _ _ (streams prompt h p) }

  llm_attempt-Keeps : (prompt : String) → Keeps (Past P) (llm_attempt w prompt)
  unfolding llm_attempt
  llm_attempt-Keeps prompt =
      Keeps-bind _ _ (Keeps-lift P _ (stream-Keeps prompt)) (streamed-Keeps st w invokes prompt)

  pub llm_loop-Keeps :
      (prompt : String) (left tries : ℕ) → Keeps (Past P) (llm_loop w prompt left tries)
  unfolding llm_loop
  llm_loop-Keeps prompt zero tries = Keeps-pure tt
  llm_loop-Keeps prompt (suc left) tries =
      let again = llm_loop-Keeps prompt left (tries + 1) in
      search (run_rules, llm_attempt-Keeps, wait-Keeps, reports) depth 9
