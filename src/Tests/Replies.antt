-- ===== src/Tests/Replies.antt =====
-- The results on the replies of the service and on the parser of addresses, at concrete inputs.
use bulletfarm.Prelude.{◌⊎◌, count_text, arith, ◌≡◌, refl, []}
use bulletfarm.Prelude.Exec.{ok}
use bulletfarm.Prelude.Triple.{Ends}
use bulletfarm.Outside.{Completed, History}
use bulletfarm.Agent.Session.{World}
use bulletfarm.Agent.Run.{run_task}
use bulletfarm.Agent.Lessons.{lessons}
use bulletfarm.Agent.Lessons.Whole.{run_task-lessons}
use bulletfarm.Agent.Run.Leaks.{Shows, clone_failure-Shows}
use bulletfarm.Models.{TaskPhase, TaskStatus}
use bulletfarm.Github.PrUrl.{parse_pr_url}
use bulletfarm.Github.Client.{comment_on_pr, get_pr_status}
use bulletfarm.Github.Answers.{Posted, Read, comment_on_pr_honest, get_pr_status_reads}
use bulletfarm.Github.PrUrl.Sound.{IsAddress, parse_pr_url_sound}
use bulletfarm.Github.Calls.{Refused}
use bulletfarm.Tests.{world, github}

parse_pr_url_sound_example : IsAddress "https://github.com/o/r/pull/7/files" "o/r" 7
unfolding parse_pr_url
parse_pr_url_sound_example =
    parse_pr_url_sound "https://github.com/o/r/pull/7/files" ("o/r", 7) refl

abbrev stopped : Completed
stopped = record { returncode = 128; stdout = "" }

abbrev pub offline : World
offline = record world { machine = record world.machine { run = λ h. ok stopped } }

clone_failure-Shows_example :
    Ends
      (λ (status : TaskStatus) (_ : History). Shows "secret" status.message)
      (λ _. ⊥)
      (run_task offline [])
unfolding count_text
clone_failure-Shows_example =
    clone_failure-Shows offline [] stopped (λ k. refl) refl refl (omega arith)

run_task-lessons_example :
    Ends
      (λ (status : TaskStatus) (k : History).
        (status.phase ≡ TaskPhase.succeeded) ⊎ (lessons k ≡ []))
      (λ _. ⊥)
      (run_task offline [])
run_task-lessons_example = run_task-lessons offline []

comment_on_pr_honest_example :
    Ends
      (Posted github "https://github.com/o/r/pull/7" [] "done")
      (Refused github "https://github.com/o/r/pull/7" [])
      (comment_on_pr github "https://github.com/o/r/pull/7" "done" [])
comment_on_pr_honest_example = comment_on_pr_honest github "https://github.com/o/r/pull/7" [] "done"

get_pr_status_reads_example :
    Ends
      (Read github "https://github.com/o/r/pull/7" [])
      (Refused github "https://github.com/o/r/pull/7" [])
      (get_pr_status github "https://github.com/o/r/pull/7" [])
get_pr_status_reads_example = get_pr_status_reads github "https://github.com/o/r/pull/7" []
