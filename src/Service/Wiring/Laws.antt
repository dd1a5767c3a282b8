-- ===== src/Service/Wiring/Laws.antt =====
-- A worker that the operator brings up, from its start to the end of its task.
use bulletfarm.Prelude.{
  ◌≡◌, refl, ◌⊎◌, inl, inr, true, false, ◌&&◌, Option, none, some, is_empty, [], Bool-cases,
}
use bulletfarm.Prelude.Exec.{ok}
use bulletfarm.Prelude.Dict.{get}
use bulletfarm.Outside.{Doc, Elastic, Github, Graph}
use bulletfarm.Memory.Factory.{create_memory_store}
use bulletfarm.Github.Factory.{create_github_client}
use bulletfarm.Models.{TaskRequest, TaskStatus}
use bulletfarm.Agent.Run.Outcome.{IsOutcome}
use bulletfarm.Service.Routes.{Registry, Response, reply, not_found, create_task, get_task_status}
use bulletfarm.Service.Background.{auto_start}
use bulletfarm.Service.Execute.Laws.{accepted_task_ends}
use bulletfarm.Service.Operator.{Assignment, payload_of}
use bulletfarm.Service.Operator.Laws.{request_for, auto_start-payload_of}
use bulletfarm.Service.Wiring.{
  choose_llm, WorkerConfig, Libraries, Dependencies, Worker, worker_config, build_dependencies,
  create_agent, task_payload, choose_llm, lifespan, run_started,
}

-- What the service answers about the operator's task once it has run what it started.
abbrev pub answer : Assignment → Worker → Response TaskStatus
answer task worker = get_task_status task.name (run_started worker)

-- The settings can be read, and the clients of Elasticsearch, GitHub and the LLM can be made.
pub record ComesUp (lib : Libraries) : Type 0 where
  pub config : WorkerConfig
  pub es : Elastic
  pub gh : Github
  pub llm : Graph
  pub configured : worker_config lib ≡ ok config
  pub stored : lib.elasticsearch config.elasticsearch_url ≡ ok es
  pub hosted : lib.github config.github_token ≡ ok gh
  pub chosen : choose_llm lib config ≡ ok llm

module _ (lib : Libraries) (up : ComesUp lib) where
  abbrev deps : Dependencies
  deps = record {
    agent = λ request. record {
      github_token = up.config.github_token;
      request = request;
      has_callback = true;
      es = up.es;
      host = lib.host;
      machine = lib.machine;
      graph = up.llm;
      github = up.gh;
    };
    github = create_github_client up.gh;
    memory = create_memory_store up.es lib.host;
  }

  built : build_dependencies lib up.config ≡ ok deps
  unfolding build_dependencies create_agent
  built = rw (up.stored, up.hosted, up.chosen) refl

  came_up :
      (payload : Option Doc) (started : Option TaskRequest) (statuses : Registry)
      → task_payload lib ≡ payload
      → auto_start payload [] ≡ (started, statuses)
      → lifespan lib []
        ≡ ok (record { config = up.config; deps = deps; started = started; statuses = statuses })
  unfolding lifespan
  came_up payload started statuses given e = rw (up.configured, built, given, e) refl

  -- A worker that comes up, with the payload that the operator wrote for a task: once what it started
  -- has run, it answers for that task with an outcome, whatever the services do meanwhile; or, where
  -- neither the agent nor the task has a skill, with 404, since it started nothing.
  pub deployed_task_ends :
      (task : Assignment)
      → task_payload lib ≡ some (payload_of task)
      → (worker : Worker) × (lifespan lib [] ≡ ok worker)
        × (((is_empty task.default_skills && is_empty task.skills ≡ true)
              × (answer task worker ≡ not_found task.name))
            ⊎ ((is_empty task.default_skills && is_empty task.skills ≡ false)
                × (status : TaskStatus) × (answer task worker ≡ reply status)
                × IsOutcome task.name status))
  unfolding run_started get_task_status get
  deployed_task_ends task given =
      let request = request_for task in
      let e = auto_start-payload_of task [] in
      elim (Bool-cases (is_empty task.default_skills && is_empty task.skills)) [
        | inl unskilled ↦ (
          record { config = up.config; deps = deps; started = none; statuses = [] },
          came_up (some (payload_of task)) none [] given (rw unskilled at e),
          inl (unskilled, refl),
        )
        | inr skilled ↦
            let (status, answers, outcome) = (accepted_task_ends (deps.agent request) []).0 in
            (
              record {
                config = up.config;
                deps = deps;
                started = some request;
                statuses = (create_task request []).1;
              },
              came_up (some (payload_of task)) (some request) (create_task request []).1 given
                  (rw skilled at e),
              inr (skilled, status, answers, outcome),
            )
      ]
