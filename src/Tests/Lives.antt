-- ===== src/Tests/Lives.antt =====
-- The results on the whole service and on whole runs, at concrete inputs.
use bulletfarm.Prelude.{
  ◌||◌, none, length, ◌+◌, ◌*◌, arith, String, ◌==◌, false, decimal, ◌≡◌, refl, ◌⊎◌, false, some,
  [], ◌∷◌, take_text,
}
use bulletfarm.Prelude.Dict
use bulletfarm.Prelude.Exec.{ok}
use bulletfarm.Prelude.Triple.{Ends}
use bulletfarm.Memory.Fields.{format_slice}
use bulletfarm.Outside.{History}
use bulletfarm.Models.{TaskPhase, TaskStatus, TaskRequest}
use bulletfarm.Github.PrUrl.{parse_pr_url, is_too_long}
use bulletfarm.Github.PrUrl.RoundTrip.{no_slash, no_digit, parse_pr_url-pr_url}
use bulletfarm.Outside.{on_tool_start, on_tool_end}
use bulletfarm.Agent.Session.{World, Session}
use bulletfarm.Agent.Loop.{handle_events}
use bulletfarm.Agent.Resends.{IsForward, bulk_sizes}
use bulletfarm.Agent.Resends.Starts.{later_starts_resend}
use bulletfarm.Agent.Run.{run_task}
use bulletfarm.Agent.Run.Pushed.{HasPushed}
use bulletfarm.Agent.Run.Working.{IsWorking}
use bulletfarm.Agent.Run.Finishes.{run_task-Finished}
use bulletfarm.Service.Background.{auto_start, finish_task, update_progress}
use bulletfarm.Service.Routes.{reply, create_task, get_task_status}
use bulletfarm.Service.Execute.{execute_task}
use bulletfarm.Service.Execute.Laws.{execute_task-Reach, accepted_task_ends, accepted_task_finishes}
use bulletfarm.Agent.Run.Outcome.{IsOutcome}
use bulletfarm.Service.Payload.{request_of_payload}
use bulletfarm.Service.Operator.Skills.{member, Distinct, merge_skills_members}
use bulletfarm.Service.Operator.{merge_skills, Assignment, payload_of}
use bulletfarm.Service.Operator.Laws.{auto_start-payload_of}
use bulletfarm.Service.System.{Server, submit, report, finish, Reach, here, next}
use bulletfarm.Service.Lives.{Life, life_of, life_of_phase, life, LifeReach}
use bulletfarm.Service.Lives.Tracks.{Tracks, runs, runs_in}
use bulletfarm.Service.Lives.Refines.{service_refines, ended_stays}
use bulletfarm.Tests.{buffer, request, world, github, idle, started, reported}

parse_pr_url-pr_url_example :
    parse_pr_url "https://github.com/octo/hello-world/pull/1207/files"
    ≡ some ("octo/hello-world", 1207)
unfolding parse_pr_url no_slash no_digit decimal
parse_pr_url-pr_url_example =
    parse_pr_url-pr_url "octo" "hello-world" "/files" 1207 refl refl refl refl refl

world-IsWorking : IsWorking world
unfolding is_too_long format_slice Dict.get take_text
world-IsWorking = record {
  runs = λ args cwd. record { returns = λ h. refl };
  writes = λ path text. record { returns = λ h. tt };
  builds = λ tools. record { returns = λ h. tt };
  streams = λ prompt. record { returns = λ h. refl };
  invokes = λ prompt. record { returns = λ h. tt };
  gets_repo = λ name. record { returns = λ h. tt };
  gets_labels = λ repo. record { returns = λ h. tt };
  creates_label = λ repo label. record { returns = λ h. tt };
  creates_pull = λ repo pull. record { returns = λ h. refl };
  readable = refl;
  finds = λ request. record { at = λ h p. (("Add tests", refl), tt) };
  sets_labels = λ repo n names. record { returns = λ h. tt };
}

run_task-Finished_example :
    Ends
      (λ (status : TaskStatus) (h : History).
        ((status.phase ≡ TaskPhase.succeeded) ⊎ (status.phase ≡ TaskPhase.incomplete))
        × HasPushed world h)
      (λ _. ⊥)
      (run_task world [])
run_task-Finished_example = run_task-Finished world world-IsWorking []

abbrev outcome : TaskStatus
outcome = record {
  task_id = "t1";
  phase = TaskPhase.succeeded;
  progress = 100;
  message = "Done.";
  pull_request_url = "";
  rate_limited = false;
  pr_state = "";
  incomplete_reason = "";
}

abbrev finished : Server
finished = record { statuses = finish_task request (ok outcome) reported.statuses; running = [] }

abbrev from_idle : Reach github idle finished
from_idle =
    next {t = reported} {u = finished}
      (next {t = started} {u = reported} (next {u = started} here (submit idle request))
        (report started [] [] request 100 "Almost" refl))
      (finish reported [] [] request (ok outcome) refl (refl, (refl, refl, refl)))

idle-Tracks : Tracks idle
unfolding runs runs_in life_of Dict.get
idle-Tracks = record { one_each = λ k. refl }

service_refines_example : LifeReach (life idle.statuses) (life finished.statuses) × Tracks finished
unfolding Dict.get
service_refines_example = service_refines from_idle (((tt, refl), tt), tt) idle-Tracks

abbrev second : TaskRequest
second = record request { task_id = "t2" }

abbrev later : Server
later = record { statuses = (create_task second finished.statuses).1; running = second ∷ [] }

abbrev goes_on : Reach github finished later
goes_on = next {u = later} here (submit finished second)

ended_stays_example : life later.statuses "t1" ≡ Life.ended TaskPhase.succeeded
unfolding Dict.get Dict.put update_progress create_task finish_task life_of life_of_phase
ended_stays_example =
    ended_stays goes_on "t1" TaskPhase.succeeded (tt, refl)
      (service_refines from_idle (((tt, refl), tt), tt) idle-Tracks).1 refl

execute_task-Reach_example :
    Reach github started (record { statuses = execute_task world started.statuses; running = [] })
execute_task-Reach_example = execute_task-Reach github world started [] [] refl

accepted_task_ends_example :
    ((status : TaskStatus) × (get_task_status "t1"
          (execute_task world (create_task request reported.statuses).1)
        ≡ reply status)
      × IsOutcome "t1" status)
    × ((k : String)
        → ("t1" == k) ≡ false
        → get_task_status k (execute_task world (create_task request reported.statuses).1)
          ≡ get_task_status k reported.statuses)
accepted_task_ends_example = accepted_task_ends world reported.statuses

-- A clock in the second half of an hour, which moves a second with each call.
abbrev late_world : World
late_world = record world {
  host = record world.host { now = λ h. 1_800_000_000 + length h * 1_000_000 };
}

abbrev late_session : Session
late_session = record { history = []; buffer = buffer; pr_url = ""; result = none }

late_world-IsForward : IsForward late_world.host
late_world-IsForward = record { forward = λ c h. omega arith }

later_starts_resend_example :
    Ends
      (λ (_ : Unit {0}) (s : Session). bulk_sizes s.history ≡ 4 ∷ 3 ∷ [])
      (λ _. ⊥)
      (handle_events late_world 0 (on_tool_start ∷ on_tool_end ∷ on_tool_start ∷ []) late_session)
later_starts_resend_example =
    later_starts_resend late_world late_session (on_tool_start ∷ on_tool_end ∷ on_tool_start ∷ []) 0
      late_world-IsForward (omega arith) (omega arith)

-- A task with no skill, of an agent with no default skill.
abbrev unskilled : Assignment
unskilled = record {
  name = "t1";
  agent_ref = "agent";
  repository = "org/repo";
  prompt = "Add tests";
  description = "";
  target_branch = "";
  default_skills = [];
  skills = [];
  retry_count = 0;
  pull_request_url = "";
}

auto_start-payload_of_example :
    auto_start (some (payload_of unskilled)) reported.statuses ≡ (none, reported.statuses)
auto_start-payload_of_example = auto_start-payload_of unskilled reported.statuses

skilled_start :
    auto_start (some (payload_of (record unskilled { skills = "testing" ∷ "testing" ∷ [] }))) [] ≡ (
      some (record request { target_branch = "task-t1"; skills = "testing" ∷ [] }),
      (create_task request []).1,
    )
unfolding auto_start payload_of create_task Dict.get Dict.put request_of_payload
skilled_start = refl

accepted_task_finishes_example :
    (status : TaskStatus) × (get_task_status "t1"
        (execute_task world (create_task request reported.statuses).1)
      ≡ reply status)
    × ((status.phase ≡ TaskPhase.succeeded) ⊎ (status.phase ≡ TaskPhase.incomplete))
accepted_task_finishes_example = accepted_task_finishes world reported.statuses world-IsWorking

merge_skills_members_example :
    ((k : String)
      → member k (merge_skills ("testing" ∷ []) ("graphql" ∷ "testing" ∷ []))
        ≡ member k ("testing" ∷ []) || member k ("graphql" ∷ "testing" ∷ []))
    × Distinct (merge_skills ("testing" ∷ []) ("graphql" ∷ "testing" ∷ []))
merge_skills_members_example = merge_skills_members ("testing" ∷ []) ("graphql" ∷ "testing" ∷ [])
