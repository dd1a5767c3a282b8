-- ===== src/Tests/Writes.antt =====
-- The results on what a run writes and on the start of a worker, at concrete inputs.
use bulletfarm.Prelude.{
  String, ◌≡◌, refl, ◌⊎◌, true, false, ◌&&◌, Option, none, some, [], ◌∷◌, is_empty, ◌==◌,
  if◌then◌else◌,
}
use bulletfarm.Prelude.Exec.{ok}
use bulletfarm.Prelude.Triple.{Ends}
use bulletfarm.Outside.{Doc, Elastic}
use bulletfarm.Models.{TaskStatus}
use bulletfarm.Memory.Graduate.{graduate_to_shared}
use bulletfarm.Memory.Store.{get_task_result, ensure_index}
use bulletfarm.Agent.Run.{run_task}
use bulletfarm.Agent.Run.Outcome.{IsOutcome}
use bulletfarm.Agent.Writes.{picked}
use bulletfarm.Agent.Writes.Typed.{is_stray, run_task-typed}
use bulletfarm.Agent.Records.{Recorded}
use bulletfarm.Agent.Records.Whole.{run_task-Recorded}
use bulletfarm.Agent.Graduates.{record_of, Taught, graduate_to_shared-record_of}
use bulletfarm.Service.Routes.{reply, not_found}
use bulletfarm.Service.Operator.{Assignment, payload_of}
use bulletfarm.Service.Wiring.{Libraries, Worker, worker_config, choose_llm, task_payload, lifespan}
use bulletfarm.Service.Wiring.Laws.{ComesUp, answer, deployed_task_ends}
use bulletfarm.Tests.{world, request, es, host, machine, graph, github}
use bulletfarm.Tests.Replies.{offline}

run_task-typed_example :
    Ends (λ _ k. picked (is_stray "t1") k ≡ picked (is_stray "t1") []) (λ _. ⊥) (run_task world [])
run_task-typed_example = run_task-typed world []

run_task-Recorded_example : Ends Recorded (λ _. ⊥) (run_task offline [])
run_task-Recorded_example = run_task-Recorded offline []

abbrev found : Doc
found =
    record_of request "Done" ("code_edit" ∷ []) ("a.py" ∷ []) "merged"
      "https://github.com/org/repo/pull/7" 5

abbrev holding_record : Elastic
holding_record = record es { search = λ h. ok (record { source = found; score = 1 } ∷ []) }

graduate_to_shared-record_of_example :
    Taught request "Done"
      ("code_edit" ∷ [])
      ("a.py" ∷ [])
      "merged"
      "https://github.com/org/repo/pull/7"
      5
      holding_record
      host
      []
      (graduate_to_shared holding_record host "t1" "merged" [])
unfolding get_task_result ensure_index
graduate_to_shared-record_of_example =
    graduate_to_shared-record_of request "Done" ("code_edit" ∷ []) ("a.py" ∷ []) "merged"
      "https://github.com/org/repo/pull/7" 5 holding_record host [] refl

abbrev pub given : Assignment
given = record {
  name = "t1";
  agent_ref = "agent";
  repository = "org/repo";
  prompt = "Add tests";
  description = "";
  target_branch = "";
  default_skills = "testing" ∷ [];
  skills = [];
  retry_count = 0;
  pull_request_url = "";
}

abbrev environ : String → Option String
environ name =
    if name == "TASK_PAYLOAD"
    then some "payload"
    else if name == "BULLETFARM_LLM_PROVIDER"
    then some "ollama"
    else none

abbrev pub pod : Libraries
pod = record {
  environ = environ;
  int = λ s. ok 9000;
  loads = λ s. some (payload_of given);
  elasticsearch = λ url. ok es;
  github = λ token. ok github;
  chat_ollama = λ model base_url. ok graph;
  chat_openai = λ model api_key. ok graph;
  host = host;
  machine = machine;
}

abbrev pub pod_up : ComesUp pod
unfolding worker_config choose_llm
pod_up = record {
  config = record {
    github_token = "";
    elasticsearch_url = "http://elasticsearch-master:9200";
    llm_provider = "ollama";
    llm_model = "gpt-4o-mini";
    openai_api_key = "";
    ollama_base_url = "http://localhost:11434";
    worker_port = 8000;
  };
  es = es;
  gh = github;
  llm = graph;
  configured = refl;
  stored = refl;
  hosted = refl;
  chosen = refl;
}

deployed_task_ends_example :
    (worker : Worker) × (lifespan pod [] ≡ ok worker)
    × (((is_empty given.default_skills && is_empty given.skills ≡ true)
          × (answer given worker ≡ not_found "t1"))
        ⊎ ((is_empty given.default_skills && is_empty given.skills ≡ false)
            × (status : TaskStatus) × (answer given worker ≡ reply status)
            × IsOutcome "t1" status))
unfolding task_payload
deployed_task_ends_example = deployed_task_ends pod pod_up given refl
