-- ===== src/Agent/Run/Finishes.antt =====
-- `run_task` of agent.py where the services that it cannot do without work.
use bulletfarm.Prelude.{String, ◌≡◌, ◌⊎◌, inl, inr, List}
use bulletfarm.Prelude.Triple.{Triple, Ends, Triple-both, Triple-pure, Triple-if, Triple-attempt}
use bulletfarm.Prelude.Total.{Triple-Total}
use bulletfarm.Outside.{Message, History}
use bulletfarm.Models.{TaskPhase, TaskStatus}
use bulletfarm.Github.Client.{RepoInfo}
use bulletfarm.Agent.Session.{World, Session}
use bulletfarm.Agent.Finish.{finish_changes, finish_incomplete, handle_changes, handle_incomplete}
use bulletfarm.Agent.Rules.{Anything, before}
use bulletfarm.Agent.Run.Whole.{run_task_of_body}
use bulletfarm.Agent.Run.Pushed.{HasPushed, steps-Pushed}
use bulletfarm.Agent.Run.Working.{IsWorking, steps-Total}
use bulletfarm.Agent.Run.{evaluate, run_steps, handle_failure, run_body, run_task}

module _ (w : World) where
  abbrev IsDone : TaskStatus → Type 0
  IsDone status = (status.phase ≡ TaskPhase.succeeded) ⊎ (status.phase ≡ TaskPhase.incomplete)

  abbrev Done : TaskStatus → Session → Type 0
  Done status s = IsDone status

  changes-Done :
      (info : RepoInfo) (out : String) (tools : List String)
      → Triple Anything (handle_changes w info out tools) Done Anything
  unfolding handle_changes finish_changes
  changes-Done info out tools = search (before, Triple-pure, inl) depth 12

  incomplete-Done :
      (info : RepoInfo) (out : String) (tools : List String)
      → Triple Anything (handle_incomplete w info out tools) Done Anything
  unfolding handle_incomplete finish_incomplete
  incomplete-Done info out tools = search (before, Triple-pure, inr) depth 16

  evaluate-Done :
      (info : RepoInfo) (messages : List Message)
      → Triple Anything (evaluate w info messages) Done Anything
  unfolding evaluate
  evaluate-Done info messages = search (before, Triple-if, changes-Done, incomplete-Done) depth 14

  steps-Done : Triple Anything (run_steps w) Done Anything
  unfolding run_steps
  steps-Done = search (before, evaluate-Done) depth 9

  -- Returned, with a phase other than Failed, after a push.
  abbrev pub Finished : TaskStatus → History → Type 0
  Finished status h = IsDone status × HasPushed w h

  module _ (up : IsWorking w) where
    steps-Finished : Triple Anything (run_steps w) (λ status s. Finished status s.history) (λ _. ⊥)
    steps-Finished =
        Triple-Total Anything (run_steps w) _ Anything (steps-Total w up)
          (Triple-both steps-Done (steps-Pushed w))

    body-Finished : Triple Anything (run_body w) (λ status s. Finished status s.history) (λ _. ⊥)
    unfolding run_body
    body-Finished =
        Triple-attempt Anything (run_steps w) _ (λ _. ⊥) (λ _. ⊥) (handle_failure w) steps-Finished
          (λ exc. record { at = λ s never. absurd never })

    -- A run finishes where the services work: every command exits with 0, the note of an incomplete
    -- task can be written, the agent graph can be built, streams without an exception, and can be
    -- invoked where its stream had no message; GitHub answers the calls that open a pull request, and
    -- the number in the address of that, or of the request's pull request, has at most 4300 digits;
    -- and each document that a search in Elasticsearch hits has a prompt that is a text, a list or
    -- missing. Then the run returns the phase Succeeded or Incomplete, and has pushed the branch. The
    -- calls of Elasticsearch may raise anything, and so may the comments.
    pub run_task-Finished : (h : History) → Ends Finished (λ _. ⊥) (run_task w h)
    run_task-Finished = run_task_of_body w Finished (λ _. ⊥) body-Finished
