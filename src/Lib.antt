-- ===== src/Lib.antt =====
-- BulletFarm's worker, a Python service that runs one coding agent per task.
--
-- A task comes in as a request to the service (worker/src/main.py) or as the TASK_PAYLOAD of its
-- environment. The service keeps a registry of task statuses and starts the agent
-- (worker/src/agent.py) in the background. The agent clones the repository, looks up what
-- earlier tasks left in memory, runs an LLM with tools, commits and pushes what it changed, and
-- opens a draft pull request by the GitHub helpers (worker/src/github_tools.py). It buffers
-- documents about the run and writes them to Elasticsearch by the memory store
-- (worker/src/memory.py). When the operator asks, the service marks the pull request ready, or
-- graduates the memory of a task to a shared lesson.
--
--   - Prelude, Prelude/*: names of the library, lists, ASCII texts, decimals, the search for a
--     text in a text (Find), dictionaries as association lists, results with exceptions (Exec),
--     triples on them (Triple), the actions that raise nothing (Total), and `do` for results
--     without effects (Fallible).
--   - Outside: the values of documents, and the code that is not here as parameters: the
--     Elasticsearch client, PyGithub and the GraphQL endpoint, subprocesses and files, the LLM
--     graph, clock and random numbers. Each call is recorded in a history, latest first, and its
--     answer, or the exception it raises, is a function of that history; so a service may answer
--     the same call differently each time.
--   - Models: worker/src/models.py, with the same types and fields.
--   - Memory/*: worker/src/memory.py. Buffer is MemoryWriteBuffer; Rank, Gate and Errors are the
--     functions at module level; Store, Search, Bulk and Graduate are the functions of
--     create_memory_store. Factory is the interface that it returns. Fields reads a field of a
--     document, whatever is stored in it, and Graduate/Texts has the texts of a lesson. Rank/*,
--     Search/*, Bulk/Laws and Graduate/Laws hold proofs, Calls the kinds of call that they
--     count, and Schema says when a document fits its index.
--   - Github/*: worker/src/github_tools.py. PrUrl is the regular expression that each helper
--     matches against an address; Client holds the helpers, Factory the interface that
--     create_github_client returns, and Cleanup and Answers proofs about those that catch
--     exceptions, call by call as in Calls; PrUrl/RoundTrip is about the addresses.
--   - Agent/*: worker/src/agent.py. Session is the state of a run: the buffer, the address of
--     the pull request, the result of the LLM and the history of calls. Skills is the selection
--     of tools, and Prepare, Loop, Evaluate and Finish are the steps of run_task: 1 and 2, 3, 4,
--     5 to 7 with _handle_incomplete; Context has the text that the results of the search in
--     memory become, and Documents the texts that the last steps make. Run composes them with
--     the exception handler. Tools/Core, Edit, Generate and Docs are the bodies of the tools,
--     with proofs below them and in Tools/Laws. Keeps, Rules, Steps, Total, Resends, Writes,
--     Lessons, Records, Graduates and Run/* hold proofs.
--   - Service/*: worker/src/main.py. Routes are the HTTP handlers on the registry, Payload and
--     Background are TASK_PAYLOAD, _execute_task and _update_progress; Execute is _execute_task
--     as a whole, with the run of the agent; Wiring is worker/src/config.py, _build_dependencies
--     and lifespan, from the environment to the task that is started; System is the relation of
--     their steps, and Finalize holds proofs about a route. Lives is the specification that
--     System refines, with the proof in Lives/*. Operator is the payload that the operator
--     (operator/internal/controller/agenttask_controller.go) writes into TASK_PAYLOAD, with
--     proofs below it; Operator/Task and Operator/Reconcile are the status of a task and
--     Reconcile with one file per handler, Operator/Reconcile/Life is their specification, and
--     Steps, Pods, Polled and Spawned hold proofs; Replies holds proofs about two replies.
--   - Tests, ToolTests: concrete parameters, and each result applied to them.
--
-- Loops are structural: over the events of a stream, over labels and documents, and over the
-- three attempts at the LLM that the code itself allows, so no fuel is chosen. `decimal` has its
-- number as fuel, which suffices, as each digit takes a division by ten.
--
-- What is not modelled, or is bounded:
--   - the LLM graph, which calls the tools in an order of its own; the building of its prompt
--     and tool objects;
--   - the expansion of a replacement text by re.sub, which is a parameter of doc_update; in the
--     regular expressions, letters, digits and white space are the ASCII ones;
--   - logging, and the FastAPI application; a field of WorkerConfig is read from the variable of
--     its name with the prefix BULLETFARM_;
--   - of the operator, updateAgentStatus, the controller of agents, and a worker's pod beyond
--     its name and payload; Kubernetes and the transport of a request are parameters, and its
--     counts are natural numbers;
--   - limits and sizes are natural numbers, as in every call that the worker makes; scores are
--     natural numbers in the order of the floats, or absent;
--   - texts are lowered and stripped as ASCII; the order of a Python set is that of first
--     occurrence; a list of strings is printed without quotes or backslashes inside; what Python
--     prints of any other value, and what the TypeError of its slice says, is a parameter;
--   - times are natural numbers, of the clock in microseconds, of a sleep in milliseconds and of
--     a wait for a rate limit in seconds; a phase is printed as an enum of strings prints since
--     Python 3.12;
--   - the flag is_retry of a payload is read from a boolean, from 0 and 1, and from the words
--     that pydantic takes; a float is not modelled;
--   - a task id does not end in a slash.
pub mod Prelude
pub mod Outside
pub mod Memory
pub mod Models
pub mod Github
pub mod Agent
pub mod Service
mod Tests
mod ToolTests
