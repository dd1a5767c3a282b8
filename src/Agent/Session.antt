-- ===== src/Agent/Session.antt =====
-- What `run_task` of agent.py keeps while it runs, and the steps that it is built from. The state
-- comes back beside an exception too, so the handler sees the buffer as the failing step left it.
use bulletfarm.Prelude.{
  ℕ, String, ◌<>◌, Bool, Option, List, [], ◌∷◌, beq, join, decimal, if◌then◌else◌,
}
use bulletfarm.Prelude.Exec.{Exn, other_error, Exec, ok, pure, raise, ◌>>=◌}
use bulletfarm.Outside.{
  Doc, Message, Completed, Call, History, Act, Elastic, Host, Machine, Graph, Github, call,
}
use bulletfarm.Memory.Buffer.{MemoryWriteBuffer}
use bulletfarm.Memory.Buffer
use bulletfarm.Models.{TaskRequest}

-- `history` is what the worker called so far, `buffer` is `memory_buffer`, `pr_url` and `result` are
-- the locals of those names, with the messages of `result`.
pub record Session : Type 0 where
  pub history : History
  pub buffer : MemoryWriteBuffer
  pub pr_url : String
  pub result : Option (List Message)

abbrev pub Run : Type 0 → Type 0
Run = Exec Session

abbrev pub lift : {A : Type 0} → Act A → Run A
lift m s = let (r, h') = m s.history in (r, record s { history = h' })

abbrev pub get_buffer : Run MemoryWriteBuffer
get_buffer s = (ok s.buffer, s)

abbrev pub set_pr_url : String → Run (Unit {0})
set_pr_url url s = (ok tt, record s { pr_url = url })

abbrev pub set_result : Option (List Message) → Run (Unit {0})
set_result messages s = (ok tt, record s { result = messages })

-- What the worker is given: its configuration, its task, and the services outside.
pub record World : Type 0 where
  pub github_token : String
  pub request : TaskRequest
  pub has_callback : Bool
  pub es : Elastic
  pub host : Host
  pub machine : Machine
  pub graph : Graph
  pub github : Github

-- `repr` of an argument with no quote and no backslash in it, and of a list of those
abbrev pub quoted : List String → List String
quoted [] = []
quoted (x ∷ xs) = ("'" <> x <> "'") ∷ quoted xs

-- `CalledProcessError`, with `str(exc)`.
unfoldable pub command_failed : List String → ℕ → Exn
command_failed args code = record {
  kind = other_error;
  message =
      "Command '["
      <> join ", " (quoted args)
      <> "]' returned non-zero exit status "
      <> decimal code
      <> ".";
}

module _ (w : World) where
  -- `if progress_callback: progress_callback(task_id, progress, message)`
  unfoldable pub progress : ℕ → String → Run (Unit {0})
  progress percent message = lift (
      if w.has_callback
      then call (λ h. ok tt) (Call.report w.request.task_id percent message)
      else pure tt)

  -- `subprocess.run(args, cwd=cwd)`
  unfoldable pub run_command : List String → Option String → Run Completed
  run_command args cwd = lift (call w.machine.run (Call.run_command args cwd))

  -- `subprocess.run(args, cwd=cwd, check=True)`
  unfoldable pub run_checked : List String → Option String → Run (Unit {0})
  unfolding run_command command_failed
  run_checked args cwd = do
    done ← run_command args cwd
    if beq done.returncode 0 then pure tt else raise (command_failed args done.returncode)

  unfoldable pub buffer_task_memory : Doc → Run (Unit {0})
  buffer_task_memory doc = do
    b ← get_buffer
    b' ← lift (Buffer.add_task_memory w.host b doc)
    λ s. (ok tt, record s { buffer = b' })

  unfoldable pub buffer_shared_memory : Doc → Run (Unit {0})
  buffer_shared_memory doc = do
    b ← get_buffer
    b' ← lift (Buffer.add_shared_memory w.host b doc)
    λ s. (ok tt, record s { buffer = b' })
