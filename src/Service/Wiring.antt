-- ===== src/Service/Wiring.antt =====
-- How a worker comes up: the settings of config.py, `_build_dependencies` and `lifespan` of main.py.
pub mod Laws
use bulletfarm.Prelude.{ℕ, String, true, Option, none, some, ◌==◌, if◌then◌else◌}
use bulletfarm.Prelude.Exec.{Exn, Result, ok, raised}
use bulletfarm.Outside.{Doc, Elastic, Host, Machine, Graph, Github}
use bulletfarm.Models.{TaskRequest}
use bulletfarm.Memory.Factory.{MemoryStore, create_memory_store}
use bulletfarm.Github.Factory.{GithubClient, create_github_client}
use bulletfarm.Agent.Session.{World}
use bulletfarm.Service.Routes.{Registry}
use bulletfarm.Service.Background.{auto_start}
use bulletfarm.Service.Execute.{execute_task}

pub record WorkerConfig : Type 0 where
  pub github_token : String
  pub elasticsearch_url : String
  pub llm_provider : String
  pub llm_model : String
  pub openai_api_key : String
  pub ollama_base_url : String
  pub worker_port : ℕ

-- The environment of the process, and what the libraries make of it: `int` is pydantic's reading of a
-- number, `loads` is `json.loads` of an object, and each constructor of a client may raise.
pub record Libraries : Type 0 where
  pub environ : String → Option String
  pub int : String → Result ℕ
  pub loads : String → Option Doc
  pub elasticsearch : String → Result Elastic
  pub github : String → Result Github
  pub chat_ollama : (model base_url : String) → Result Graph
  pub chat_openai : (model api_key : String) → Result Graph
  pub host : Host
  pub machine : Machine

-- `app.state.deps`. The agent is the surroundings that `create_agent` gives to a run of a request; they
-- hold the clients over which the helpers for GitHub and for memory are made.
pub record Dependencies : Type 0 where
  pub agent : TaskRequest → World
  pub github : GithubClient
  pub memory : MemoryStore

-- The service when `lifespan` yields, with the task that it started.
pub record Worker : Type 0 where
  pub config : WorkerConfig
  pub deps : Dependencies
  pub started : Option TaskRequest
  pub statuses : Registry

infixl 10 ◌>>=◌
abbrev ◌>>=◌ : {A B : Type 0} → Result A → (A → Result B) → Result B
ok a >>= f = f a
raised exc >>= f = raised exc

module _ (lib : Libraries) where
  -- A setting of the environment, with the prefix `BULLETFARM_`, or its default.
  abbrev setting : String → String → String
  setting name default = elim (lib.environ name) [ none ↦ default | some value ↦ value ]

  abbrev port : Option String → Result ℕ
  port none = ok 8000
  port (some value) = lib.int value

  -- `WorkerConfig()`
  unfoldable pub worker_config : Result WorkerConfig
  worker_config = do
    worker_port ← port (lib.environ "BULLETFARM_WORKER_PORT")
    ok (record {
      github_token = setting "BULLETFARM_GITHUB_TOKEN" "";
      elasticsearch_url = setting "BULLETFARM_ELASTICSEARCH_URL" "http://elasticsearch-master:9200";
      llm_provider = setting "BULLETFARM_LLM_PROVIDER" "openai";
      llm_model = setting "BULLETFARM_LLM_MODEL" "gpt-4o-mini";
      openai_api_key = setting "BULLETFARM_OPENAI_API_KEY" "";
      ollama_base_url = setting "BULLETFARM_OLLAMA_BASE_URL" "http://localhost:11434";
      worker_port = worker_port;
    })

  -- `llm` of `create_agent`
  unfoldable pub choose_llm : WorkerConfig → Result Graph
  choose_llm config =
      if config.llm_provider == "ollama"
      then lib.chat_ollama config.llm_model config.ollama_base_url
      else lib.chat_openai config.llm_model config.openai_api_key

  -- `create_agent`, as far as `run_task` sees it; `_execute_task` gives it `_update_progress`.
  unfoldable pub create_agent : WorkerConfig → Github → Elastic → Result (TaskRequest → World)
  unfolding choose_llm
  create_agent config github memory = do
    llm ← choose_llm config
    ok (λ request. record {
      github_token = config.github_token;
      request = request;
      has_callback = true;
      es = memory;
      host = lib.host;
      machine = lib.machine;
      graph = llm;
      github = github;
    })

  unfoldable pub build_dependencies : WorkerConfig → Result Dependencies
  unfolding create_agent
  build_dependencies config = do
    es_client ← lib.elasticsearch config.elasticsearch_url
    github ← lib.github config.github_token
    agent ← create_agent config github es_client
    ok (record {
      agent = agent;
      github = create_github_client github;
      memory = create_memory_store es_client lib.host;
    })

  -- `os.environ.get("TASK_PAYLOAD")`, where it is set and not blank, as JSON
  unfoldable pub task_payload : Option Doc
  task_payload = elim (lib.environ "TASK_PAYLOAD") [
    | none ↦ none
    | some payload ↦ if payload == "" then none else lib.loads payload
  ]

  -- `lifespan` up to its `yield`. What it raises keeps the service from starting.
  unfoldable pub lifespan : Registry → Result Worker
  lifespan statuses = do
    config ← worker_config
    deps ← build_dependencies config
    let start = auto_start task_payload statuses
    ok (record { config = config; deps = deps; started = start.0; statuses = start.1 })

-- The registry when the task that `lifespan` started has ended.
unfoldable pub run_started : Worker → Registry
unfolding execute_task
run_started worker = elim worker.started [
  | none ↦ worker.statuses
  | some request ↦ execute_task (worker.deps.agent request) worker.statuses
]
