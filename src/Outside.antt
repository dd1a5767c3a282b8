-- ===== src/Outside.antt =====
-- What the worker calls and does not implement: the Elasticsearch client, the clock, the random
-- numbers and the sleep that memory.py uses, and the services that github_tools.py and agent.py call.
-- Each answer is a function of the history of calls so far, the latest first, which has the answered
-- call at its head. So a clock that moves on, a store that remembers and a service that fails now and
-- then are all such functions.
use bulletfarm.Prelude.{ℕ, String, Bool, Option, List, ◌∷◌}
use bulletfarm.Prelude.Dict.{Dict}
use bulletfarm.Prelude.Exec.{Exn, Result, ok, Exec}

-- The values that the documents of memory.py and agent.py hold. A score stands for a float that
-- is not negative by a number in the same order, a time is in microseconds, and `null` is None.
pub data Value : Type 0 where
  text : String → Value
  number : ℕ → Value
  flag : Bool → Value
  texts : List String → Value
  time : ℕ → Value
  null : Value

abbrev pub Doc : Type 0
Doc = Dict Value

-- `{"term": {field: value}}`, `{"multi_match": {"query": q, "fields": fields}}`,
-- `{"terms": {field: values}}` and `{"match": {field: q}}`
pub data Clause : Type 0 where
  term : String → String → Clause
  multi_match : String → List String → Clause
  terms : String → List String → Clause
  match_field : String → String → Clause

-- One clause, or `{"bool": {"must": clauses}}`.
pub data Query : Type 0 where
  single : Clause → Query
  must : List Clause → Query

-- The arguments of `es_client.search`; `sort_desc` is the field of `sort=[{field: "desc"}]`.
pub record SearchRequest : Type 0 where
  pub index : String
  pub query : Query
  pub size : ℕ
  pub sort_desc : Option String
  pub timeout_ms : Option ℕ

-- An element of `response["hits"]["hits"]`: `_source` and `_score`.
pub record Hit : Type 0 where
  pub source : Doc
  pub score : ℕ

-- The part of an index response that is read: `_id` and `_index`.
pub record IndexResult : Type 0 where
  pub id : String
  pub index : String

-- A failed item of `helpers.bulk`: its "index" entry, if it has one, and what that holds.
pub record FailedEntry : Type 0 where
  pub index : Option String
  pub error : Option Doc
  pub status : Option ℕ

abbrev pub FailedItem : Type 0
FailedItem = Option FailedEntry

-- What `helpers.bulk` returns: a pair with the failed items, or a bare count.
pub data BulkOutcome : Type 0 where
  listed : ℕ → List FailedItem → BulkOutcome
  counted : ℕ → BulkOutcome

-- What the PyGithub objects of a repository and of a pull request hold.
pub record Repo : Type 0 where
  pub full_name : String
  pub default_branch : String
  pub description : Option String

pub record Pull : Type 0 where
  pub number : ℕ
  pub html_url : String
  pub state : String
  pub merged : Bool
  pub draft : Bool
  pub node_id : String
  pub head_ref : String

-- The arguments of `repo.create_label` and of `repo.create_pull(…, draft=True)`.
pub record Label : Type 0 where
  pub name : String
  pub color : String
  pub description : String

pub record PullRequest : Type 0 where
  pub base : String
  pub head : String
  pub title : String
  pub body : String

-- The response to a GraphQL request: `status_code`, and whether its JSON has "errors".
pub record GraphqlReply : Type 0 where
  pub status_code : ℕ
  pub has_errors : Bool

-- What `subprocess.run` returns: `returncode` and `stdout`.
pub record HttpReply : Type 0 where
  pub status_code : ℕ
  pub body : String

pub record Completed : Type 0 where
  pub returncode : ℕ
  pub stdout : String

-- A message of the agent graph: its content as text, the names in `tool_calls`, and its `name`.
pub record Message : Type 0 where
  pub content : String
  pub tool_calls : List String
  pub name : Option String

-- An event of `astream_events` that is acted on. The end of a model call carries its output, if
-- that has content.
pub data StreamEvent : Type 0 where
  on_tool_start on_tool_end on_other : StreamEvent
  on_chat_model_end : Option Message → StreamEvent

-- The events of one stream, and the exception that ended it, if one did.
pub record Stream : Type 0 where
  pub events : List StreamEvent
  pub failure : Option Exn

pub data Call : Type 0 where
  index_exists : String → Call
  index_create : String → Dict String → Call
  index_doc : String → Doc → Call
  search : SearchRequest → Call
  delete_by_query : String → Query → Call
  bulk : List Doc → Call
  now : Call
  randint : ℕ → ℕ → Call
  sleep_ms : ℕ → Call
  wait : ℕ → Call
  get_repo : String → Call
  get_labels : String → Call
  create_label : String → Label → Call
  create_pull : String → PullRequest → Call
  set_labels : String → ℕ → List String → Call
  get_pull : String → ℕ → Call
  close_pull : String → ℕ → Call
  get_git_ref : String → String → Call
  delete_git_ref : String → String → Call
  get_issue : String → ℕ → Call
  create_comment : String → ℕ → String → Call
  mark_ready : String → Call
  run_command : List String → Option String → Call
  read_file : String → Call
  write_file : String → String → Call
  make_dirs : String → Call
  post_query : String → String → Call
  build_graph : List String → Call
  stream_events : String → Call
  invoke_graph : String → Call
  report : String → ℕ → String → Call

abbrev pub History : Type 0
History = List Call

abbrev pub Act : Type 0 → Type 0
Act = Exec History

-- Makes a call and returns, or raises, what `answer` says.
abbrev pub call : {A : Type 0} → (History → Result A) → Call → Act A
call answer c h = let h' = c ∷ h in (answer h', h')

-- The methods of the Elasticsearch client, with those of `es_client.indices`.
pub record Elastic : Type 0 where
  pub exists : History → Result Bool
  pub create : History → Result (Unit {0})
  pub index : History → Result IndexResult
  pub search : History → Result (List Hit)
  pub delete_by_query : History → Result (Option ℕ)
  pub bulk : History → Result BulkOutcome

-- `subprocess.run` with the argument list and the working directory that the call names, reading and
-- writing a file, `os.makedirs`, and `requests.post` of a query.
pub record Machine : Type 0 where
  pub run : History → Result Completed
  pub read_file : History → Result String
  pub make_dirs : History → Result (Unit {0})
  pub post : History → Result HttpReply
  pub write_file : History → Result (Unit {0})

-- The agent graph of langgraph: building it from the tools, and its `astream_events` and `ainvoke`.
pub record Graph : Type 0 where
  pub build : History → Result (Unit {0})
  pub stream : History → Result Stream
  pub invoke : History → Result (List Message)

-- The methods of PyGithub that github_tools.py calls, on the client and on the repositories, pull
-- requests, issues and references that it hands out, and the GraphQL request of `mark_pr_ready`.
pub record Github : Type 0 where
  pub get_repo : History → Result Repo
  pub get_labels : History → Result (List String)
  pub create_label : History → Result (Unit {0})
  pub create_pull : History → Result Pull
  pub set_labels : History → Result (Unit {0})
  pub get_pull : History → Result Pull
  pub close_pull : History → Result (Unit {0})
  pub get_git_ref : History → Result (Unit {0})
  pub delete_git_ref : History → Result (Unit {0})
  pub get_issue : History → Result (Unit {0})
  pub create_comment : History → Result (Unit {0})
  pub graphql : History → Result GraphqlReply

-- `datetime.now(timezone.utc)` in microseconds, and `random.randint`; what `str` makes of a value that
-- is not a text, and the TypeError of `len` or of a slice, by the value that has none.
pub record Host : Type 0 where
  pub now : History → ℕ
  pub randint : History → ℕ
  pub str : Value → String
  pub type_error : Value → Exn

-- `datetime.now(timezone.utc)`
abbrev pub read_clock : Host → Act ℕ
read_clock host = call (λ h. ok (host.now h)) now

-- `time.sleep`, in milliseconds
abbrev pub sleep : ℕ → Act (Unit {0})
sleep ms = call (λ h. ok tt) (sleep_ms ms)
