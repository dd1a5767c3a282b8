-- ===== src/Agent/Run/Working.antt =====
-- The parts of `run_task` of agent.py where the services that it cannot do without work.
use bulletfarm.Prelude.{
  ℕ, zero, suc, ◌+◌, String, ◌≡◌, true, false, map, if◌then◌else◌, Option, none, some, List, [],
  ◌∷◌, beq, any, ◌==◌,
}
use bulletfarm.Prelude.Exec.{Exn, ok, pure, ◌>>=◌, ◌>>◌}
use bulletfarm.Prelude.Total.{
  Sure, Total, Total-pure, Total-if, Total-then, Total-tried, Total-bind, Total-bind_sure,
  Total-Sure, Sure-bind, Sure-bind_sure, Sure-if, total_rules,
}
use bulletfarm.Outside.{
  Message, Label, Pull, PullRequest, Completed, Stream, StreamEvent, on_tool_start, on_tool_end,
  on_other, on_chat_model_end, Call, call,
}
use bulletfarm.Github.PrUrl.{is_too_long}
use bulletfarm.Memory.Store.{get_task_history}
use bulletfarm.Memory.Search.Found.{Hits}
use bulletfarm.Agent.Run.Recall.{IsCut, search_memory-Total}
use bulletfarm.Github.Client.{
  PrInfo, labels_to_create, label_name, comment_on_pr, RepoInfo, pass_github_error, create_missing,
  ensure_labels, create_draft_pr, get_repo_info,
}
use bulletfarm.Agent.Session.{World, Run, lift, set_result, run_command, run_checked}
use bulletfarm.Agent.Prepare.{
  checkout_retry, clone_git, clone_repo, search_memory, gather_parts, gather_context,
}
use bulletfarm.Agent.Loop.{
  handle_events, raise_failure, invoke_if_none, llm_attempt, llm_loop, run_agent,
}
use bulletfarm.Agent.Finish.{
  open_pull, modified_files, publish, remember, commit_and_push, finish_changes, finish_incomplete,
  handle_changes, handle_incomplete,
}
use bulletfarm.Agent.Total.{
  session_rules, Total-state, Total-lift, Total-set_result, Sure-lift, get_task_history-Total,
  bulk_write-Total, comment_on_pr-Total, progress-Total, buffer_task_memory-Total,
  buffer_shared_memory-Total, flush_if_due-Total,
}
use bulletfarm.Agent.Run.{evaluate, run_steps}

abbrev Succeeds : Completed → Type 0
Succeeds done = beq done.returncode 0 ≡ true

abbrev Unbroken : Stream → Type 0
Unbroken stream = stream.failure ≡ none

abbrev IsReadable : String → Type 0
IsReadable pr_url = is_too_long pr_url ≡ false

-- Every command exits with 0, the note of an incomplete task can be written, the agent graph can be
-- built, streams to the end, and can be invoked where its stream had no message, and GitHub answers
-- what is needed for a pull request, with an address whose number is not too long, as is that of the
-- request. Elasticsearch may raise anything, but a document that it finds has a prompt that can be cut.
pub record IsWorking (w : World) : Type 0 where
  pub runs :
      (args : List String) (cwd : Option String)
      → Sure (λ done. beq done.returncode 0 ≡ true) (call w.machine.run (Call.run_command args cwd))
  pub writes : (path text : String) → Total (call w.machine.write_file (Call.write_file path text))
  pub builds : (tools : List String) → Total (call w.graph.build (Call.build_graph tools))
  pub streams :
      (prompt : String)
      → Sure (λ stream. stream.failure ≡ none) (call w.graph.stream (Call.stream_events prompt))
  pub invokes : (prompt : String) → Total (call w.graph.invoke (Call.invoke_graph prompt))
  pub gets_repo : (name : String) → Total (call w.github.get_repo (Call.get_repo name))
  pub gets_labels : (repo : String) → Total (call w.github.get_labels (Call.get_labels repo))
  pub creates_label :
      (repo : String) (label : Label)
      → Total (call w.github.create_label (Call.create_label repo label))
  pub creates_pull :
      (repo : String) (pull : PullRequest)
      → Sure
          (λ pr. is_too_long pr.html_url ≡ false)
          (call w.github.create_pull (Call.create_pull repo pull))
  pub sets_labels :
      (repo : String) (n : ℕ) (names : List String)
      → Total (call w.github.set_labels (Call.set_labels repo n names))
  pub readable : is_too_long w.request.pr_url ≡ false
  pub finds : Hits (IsCut w.host) w.es

module _ (w : World) (up : IsWorking w) where
  create_missing-Total :
      (repo : String) (existing : List String) (labels : List Label)
      → Total (create_missing w.github repo existing labels)
  unfolding create_missing
  create_missing-Total repo existing [] = Total-pure tt
  create_missing-Total repo existing (label ∷ labels) =
      Total-bind _ _
        (Total-if (any (λ name. name == label.name) existing) _ _ (Total-pure tt)
          (Total-tried _ pass_github_error (up.creates_label repo label)))
        (λ _. create_missing-Total repo existing labels)

  ensure_labels-Total :
      (repo : String) (labels : List Label) → Total (ensure_labels w.github repo labels)
  unfolding ensure_labels
  ensure_labels-Total repo labels = search (total_rules, create_missing-Total, up.gets_labels)

  create_draft_pr-Readable :
      (repo : String) (pull : PullRequest) (task_id agent_ref : String)
      → Sure
          (λ (info : PrInfo). IsReadable info.url)
          (create_draft_pr w.github repo pull task_id agent_ref)
  unfolding create_draft_pr
  create_draft_pr-Readable repo pull task_id agent_ref =
      let Q : PrInfo → Type 0 = λ info. IsReadable info.url in
      let labels = labels_to_create task_id agent_ref in
      Sure-bind Q _ _ (up.gets_repo repo) (λ found.
        Sure-bind Q _ _ (ensure_labels-Total found.full_name labels) (λ _.
          Sure-bind_sure (λ (pr : Pull). IsReadable pr.html_url) Q _
            (λ pr. do
              call w.github.set_labels
                  (Call.set_labels found.full_name pr.number (map label_name labels))
              pure (record { url = pr.html_url; number = pr.number }))
            (up.creates_pull found.full_name pull)
            (λ pr short.
              Sure-bind Q _ (λ _. pure (record { url = pr.html_url; number = pr.number }))
                (up.sets_labels found.full_name pr.number (map label_name labels))
                (λ _. record { returns = λ s. short }))))

  get_repo_info-Total : (repo : String) → Total (get_repo_info w.github repo)
  unfolding get_repo_info
  get_repo_info-Total repo = search (total_rules, up.gets_repo)

  run_command-Total : (args : List String) (cwd : Option String) → Total (run_command w args cwd)
  unfolding run_command
  run_command-Total args cwd = Total-lift _ (Total-Sure Succeeds _ (up.runs args cwd))

  run_checked-Total : (args : List String) (cwd : Option String) → Total (run_checked w args cwd)
  unfolding run_checked run_command
  run_checked-Total args cwd =
      Total-bind_sure Succeeds (run_command w args cwd) _ (Sure-lift Succeeds _ (up.runs args cwd))
        (λ done. Total-then (beq done.returncode 0) _ _ (Total-pure tt))

  clone-Total : Total (clone_repo w)
  unfolding clone_repo clone_git checkout_retry
  clone-Total =
      search (session_rules, progress-Total w, run_checked-Total, run_command-Total) depth 14

  recalling : Total (search_memory w)
  recalling = search_memory-Total w up.finds

  task_history-Total :
      (agent_ref : String) (limit : ℕ) → Total (lift (get_task_history w.es agent_ref limit))
  task_history-Total agent_ref limit = Total-lift _ (get_task_history-Total w.es agent_ref limit)

  parts-Total : Total (gather_parts w)
  unfolding gather_parts
  parts-Total =
      search (session_rules, run_command-Total, get_repo_info-Total, task_history-Total, recalling)
        depth 12

  gather-Total : Total (gather_context w)
  unfolding gather_context
  gather-Total = search (session_rules, progress-Total w, parts-Total)

  events-Total : (n : ℕ) (events : List StreamEvent) → Total (handle_events w n events)
  unfolding handle_events
  events-Total n [] = Total-pure tt
  events-Total n (on_tool_start ∷ events) =
      Total-bind _ _ (flush_if_due-Total w (n + 1)) (λ _. events-Total (n + 1) events)
  events-Total n (on_tool_end ∷ events) = events-Total n events
  events-Total n (on_other ∷ events) = events-Total n events
  events-Total n (on_chat_model_end none ∷ events) = events-Total n events
  events-Total n (on_chat_model_end (some m) ∷ events) =
      Total-bind (set_result (some (m ∷ []))) (λ _. handle_events w n events)
        (Total-set_result (some (m ∷ []))) (λ _. events-Total n events)

  unraised : (o : Option Exn) → o ≡ none → Total (raise_failure w o)
  unfolding raise_failure
  unraised none e = Total-pure tt
  unraised (some x) e = cc

  invoke-Total : (prompt : String) (o : Option (List Message)) → Total (invoke_if_none w prompt o)
  unfolding invoke_if_none
  invoke-Total prompt none = search (session_rules, up.invokes)
  invoke-Total prompt (some m) = Total-pure tt

  attempt-Total : (prompt : String) → Total (llm_attempt w prompt)
  unfolding llm_attempt
  attempt-Total prompt =
      Total-bind_sure Unbroken (lift (call w.graph.stream (Call.stream_events prompt)))
        (λ stream. do
          handle_events w 0 stream.events
          raise_failure w stream.failure
          messages ← λ s. (ok s.result, s)
          invoke_if_none w prompt messages)
        (Sure-lift Unbroken _ (up.streams prompt))
        (λ stream e.
          let read : Run (Option (List Message)) = λ s. (ok s.result, s) in
          Total-bind (handle_events w 0 stream.events) _ (events-Total 0 stream.events) (λ _.
            Total-bind (raise_failure w stream.failure) _ (unraised stream.failure e) (λ _.
              Total-bind read (invoke_if_none w prompt) (Total-state (λ s. s.result))
                (invoke-Total prompt))))

  loop-Total : (prompt : String) (left tries : ℕ) → Total (llm_loop w prompt left tries)
  unfolding llm_loop
  loop-Total prompt zero tries = Total-pure tt
  loop-Total prompt (suc left) tries = search (Total-tried, attempt-Total)

  agent-Total : (prompt : String) → Total (run_agent w prompt)
  unfolding run_agent
  agent-Total prompt = search (session_rules, progress-Total w, up.builds, loop-Total) depth 14

  open_pull-Readable : (pull : PullRequest) → Sure IsReadable (open_pull w pull)
  open_pull-Readable pull =
      Sure-bind_sure (λ (info : PrInfo). IsReadable info.url) IsReadable _ (λ info. pure info.url)
        (Sure-lift (λ (info : PrInfo). IsReadable info.url) _
          (create_draft_pr-Readable w.request.repository pull w.request.task_id
            w.request.agent_ref))
        (λ info short. record { returns = λ s. short })

  open_pull-Total : (pull : PullRequest) → Total (open_pull w pull)
  open_pull-Total pull = Total-Sure IsReadable _ (open_pull-Readable pull)

  commented : (url c : String) → IsReadable url → Total (lift (comment_on_pr w.github url c))
  commented url c short = Total-lift _ (comment_on_pr-Total w.github url c short)

  publish-Total :
      (info : RepoInfo) (out : String) (files : List String) → Total (publish w info out files)
  unfolding publish
  publish-Total info out files =
      search (session_rules, open_pull-Total, commented, up.readable) depth 9

  changes-Total :
      (info : RepoInfo) (out : String) (tools : List String)
      → Total (handle_changes w info out tools)
  unfolding handle_changes commit_and_push finish_changes modified_files remember
  changes-Total info out tools =
      search
        (
          session_rules,
          progress-Total w,
          run_checked-Total,
          publish-Total,
          buffer_task_memory-Total w,
          buffer_shared_memory-Total w,
          bulk_write-Total,
        )
        depth 20

  -- The address of the pull request of an incomplete task.
  address-Readable :
      (pull : PullRequest)
      → Sure IsReadable (if w.request.pr_url == "" then open_pull w pull else pure w.request.pr_url)
  address-Readable pull =
      Sure-if IsReadable (w.request.pr_url == "") _ _ (open_pull-Readable pull)
        (record { returns = λ s. up.readable })

  address_then :
      {B : Type 0} (pull : PullRequest) (f : String → Run B)
      → ((url : String) → IsReadable url → Total (f url))
      → Total ((if w.request.pr_url == "" then open_pull w pull else pure w.request.pr_url) >>= f)
  address_then pull f t = Total-bind_sure IsReadable _ f (address-Readable pull) t

  finish_incomplete-Total :
      (info : RepoInfo) (out : String) (tools : List String)
      → Total (finish_incomplete w info out tools)
  unfolding finish_incomplete
  finish_incomplete-Total info out tools =
      search (address_then, commented, session_rules, buffer_task_memory-Total w, bulk_write-Total)
        depth 14

  incomplete-Total :
      (info : RepoInfo) (out : String) (tools : List String)
      → Total (handle_incomplete w info out tools)
  unfolding handle_incomplete
  incomplete-Total info out tools =
      search
        (session_rules, progress-Total w, run_checked-Total, up.writes, finish_incomplete-Total)
        depth 20

  evaluate-Total : (info : RepoInfo) (messages : List Message) → Total (evaluate w info messages)
  unfolding evaluate
  evaluate-Total info messages =
      search
        (
          session_rules,
          progress-Total w,
          run_checked-Total,
          run_command-Total,
          changes-Total,
          incomplete-Total,
        )
        depth 14

  pub steps-Total : Total (run_steps w)
  unfolding run_steps
  steps-Total = search (session_rules, clone-Total, gather-Total, agent-Total, evaluate-Total)
