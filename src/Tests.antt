-- ===== src/Tests.antt =====
-- Concrete services, runs of the model against them, and the theorems at these inputs.
mod Memory
mod Runs
mod Lives
mod Replies
mod Writes
mod Reconciles
use bulletfarm.Prelude.{
  ℕ, ◌*◌, ◌≡◌, ◌↔◌, ◌⊎◌, refl, String, Bool, true, false, none, some, List, [], ◌∷◌, ◌++◌, arith,
  length, min, keep,
}
use mathlib.Core.Path.{subst, ap}
use mathlib.Core.List.{Perm}
use bulletfarm.Prelude.{All}
use bulletfarm.Prelude.Exec.{Exn, connection_timeout, other_error, Result, ok, raised, result_or}
use bulletfarm.Prelude.Triple.{Ends}
use bulletfarm.Outside.{
  text, texts, number, Doc, BulkOutcome, listed, counted, Pull, Message, on_tool_start,
  on_chat_model_end, Call, History, Elastic, Host, Machine, Graph, Github,
}
use bulletfarm.Memory.Buffer.{MemoryWriteBuffer}
use bulletfarm.Memory.Errors.{IsInRange}
use bulletfarm.Memory.Gate.{
  UsedSkillTool, should_write_to_shared_memory, should_write_to_shared_memory_iff,
}
use bulletfarm.Memory.Calls.{is_write}
use bulletfarm.Memory.Rank.{score_of, merge_and_rank_results}
use bulletfarm.Memory.Rank.Order.{IsRanked, NoneAbove, all_results, merge_and_rank_results_top}
use bulletfarm.Memory.Rank.Stable.{has_score, merge_and_rank_results_stable}
use bulletfarm.Memory.Search.{unified_search}
use bulletfarm.Memory.Search.Results.{Settles, unified_search-Settles}
use bulletfarm.Memory.Search.Cost.{Costs, unified_search-Costs}
use bulletfarm.Memory.Bulk.{bulk_write}
use bulletfarm.Memory.Bulk.Laws.{Accounts, IsAccounting, Counted, bulk_write_accounts}
use bulletfarm.Memory.Store.{get_task_result}
use bulletfarm.Memory.Graduate.{graduate_to_shared}
use bulletfarm.Memory.Graduate.Laws.{deletion, Graduated, graduate_to_shared_writes}
use bulletfarm.Models.{new_status, TaskPhase, TaskRequest, TaskStatus}
use bulletfarm.Agent.Session.{World}
use bulletfarm.Agent.Run.{run_task}
use bulletfarm.Agent.Run.Outcome.{IsOutcome, run_task-Settles}
use bulletfarm.Agent.Run.Pushed.{HasPushed, run_task-FailedOrPushed}
use bulletfarm.Prelude.Dict
use bulletfarm.Github.Client.{cleanup_pr}
use bulletfarm.Github.Cleanup.{IsTrue, cleanup_pr-IsTrue}
use bulletfarm.Agent.Run.Percents.{UpTo}
use bulletfarm.Agent.Run.Rising.{run_task-Rises}
use bulletfarm.Agent.Run.Attempts.{run_task-Attempts}
use bulletfarm.Agent.Run.Budget.{Within}
use bulletfarm.Agent.Run.Harmless.{is_drastic, run_task-Harmless}
use bulletfarm.Service.Finalize.{Careful, finalize_task-Careful}
use bulletfarm.Service.Routes.{Registry, create_task, finalize_task}
use bulletfarm.Service.Background.{update_progress}
use bulletfarm.Service.System.{Server, submit, report, here, next, IsValid, Reach-IsValid}

-- A clock that moves a second with each call, and the least random number.
abbrev least : History → ℕ
least (Call.randint a b ∷ h) = a
least h = 0

abbrev host : Host
host = record {
  now = λ h. length h * 1_000_000;
  randint = least;
  str = λ v. "None";
  type_error = λ v. record { kind = other_error; message = "object is not subscriptable" };
}

host-IsInRange : IsInRange host
host-IsInRange = record { range = λ x y h le. (omega arith, le) }

abbrev timeout : Exn
timeout = record { kind = connection_timeout; message = "timed out" }

abbrev task_doc : Doc
task_doc =
    ("prompt", text "Add tests")
    ∷ ("repository", text "org/repo")
    ∷ ("files_modified", texts ("a.py" ∷ []))
    ∷ ("tools_called", texts ("code_edit" ∷ []))
    ∷ []

abbrev bulk_answer : History → Result BulkOutcome
bulk_answer (Call.bulk docs ∷ h) = ok (listed (length docs) [])
bulk_answer h = raised timeout

-- A service that finds one document in each search.
abbrev es : Elastic
es = record {
  exists = λ h. ok true;
  create = λ h. ok tt;
  index = λ h. ok (record { id = "1"; index = "shared_memory" });
  search = λ h. ok (record { source = task_doc; score = 5 } ∷ []);
  delete_by_query = λ h. ok (some 1);
  bulk = bulk_answer;
}

-- A service whose searches all time out.
abbrev slow_es : Elastic
slow_es = record es { search = λ h. raised timeout; exists = λ h. ok false }

es-IsAccounting : IsAccounting es
es-IsAccounting = record {
  accounts = λ h docs o e. subst (Accounts docs) (ap (result_or (counted 0)) e) (omega arith);
}

abbrev low : Doc
low = ("_score", number 1) ∷ ("n", text "low") ∷ []

abbrev buffer : MemoryWriteBuffer
buffer = record {
  task_id = "t1";
  task_memory_docs = task_doc ∷ [];
  shared_memory_docs = low ∷ [];
  start_time = 0;
  last_flush_time = 0;
}

abbrev request : TaskRequest
request = record {
  task_id = "t1";
  agent_ref = "agent";
  repository = "org/repo";
  prompt = "Add tests";
  target_branch = "add-tests";
  skills = "code-edit" ∷ [];
  is_retry = false;
  pr_url = "";
}

-- Every command succeeds, and prints one line.
abbrev pub machine : Machine
machine = record {
  run = λ h. ok (record { returncode = 0; stdout = "a.py" });
  write_file = λ h. ok tt;
  read_file = λ h. ok "def run(x):\n    return x\n";
  make_dirs = λ h. ok tt;
  post = λ h. ok (record { status_code = 200; body = "{}" });
}

abbrev answer : Message
answer = record { content = "Done."; tool_calls = "code_edit" ∷ []; name = none }

abbrev graph : Graph
graph = record {
  build = λ h. ok tt;
  stream = λ h.
      ok (record { events = on_tool_start ∷ on_chat_model_end (some answer) ∷ []; failure = none });
  invoke = λ h. ok [];
}

abbrev pull : Pull
pull = record {
  number = 7;
  html_url = "https://github.com/org/repo/pull/7";
  state = "open";
  merged = false;
  draft = true;
  node_id = "N";
  head_ref = "add-tests";
}

abbrev github : Github
github = record {
  get_repo =
      λ h. ok (record { full_name = "org/repo"; default_branch = "main"; description = none });
  get_labels = λ h. ok [];
  create_label = λ h. ok tt;
  create_pull = λ h. ok pull;
  set_labels = λ h. ok tt;
  get_pull = λ h. ok pull;
  close_pull = λ h. ok tt;
  get_git_ref = λ h. ok tt;
  delete_git_ref = λ h. ok tt;
  get_issue = λ h. ok tt;
  create_comment = λ h. ok tt;
  graphql = λ h. ok (record { status_code = 200; has_errors = false });
}

abbrev world : World
world = record {
  github_token = "secret";
  request = request;
  has_callback = true;
  es = es;
  host = host;
  machine = machine;
  graph = graph;
  github = github;
}

abbrev idle : Server
idle = record { statuses = []; running = [] }

idle-IsValid : IsValid idle.statuses
unfolding Dict.get
idle-IsValid = record { at_key = λ k status e. cc }

abbrev started : Server
started = record { statuses = (create_task request []).1; running = request ∷ [] }

abbrev reported : Server
reported = record {
  statuses = update_progress "t1" 100 "Almost" started.statuses;
  running = request ∷ [];
}

Reach-IsValid_example : IsValid reported.statuses
Reach-IsValid_example =
    Reach-IsValid {gh = github} {s = idle} {t = reported}
      (next (next here (submit idle request)) (report started [] [] request 100 "Almost" refl))
      idle-IsValid
