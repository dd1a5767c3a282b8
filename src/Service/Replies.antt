-- ===== src/Service/Replies.antt =====
-- Replies of main.py that say what did not happen, or deny what did.
use bulletfarm.Prelude.{String, ◌≡◌, refl, Bool, true, false, none, some, List, [], ◌∷◌, keep, ◌==◌}
use bulletfarm.Prelude.Dict.{get, put}
use bulletfarm.Prelude.Exec.{Exn, Result, ok, raised, pure, ◌>>=◌}
use bulletfarm.Outside.{Call, History, Elastic, Host, Github, call}
use bulletfarm.Memory.Buffer.{task_memory_index}
use bulletfarm.Memory.Calls.{is_write}
use bulletfarm.Memory.Store.{ensure_index, task_memory_mapping, task_result_request}
use bulletfarm.Memory.Graduate.{graduate_to_shared}
use bulletfarm.Memory.Graduate.Laws.{deletion, graduate_deletes_unread}
use bulletfarm.Models.{TaskPhase, TaskStatus, GraduateResponse}
use bulletfarm.Github.PrUrl.{parse_pr_url}
use bulletfarm.Github.Client.{mark_pr_ready}
use bulletfarm.Service.Routes.{
  Registry, Response, reply, is_succeeded, finalize_found, finalize_task, state_of_pr,
  graduate_task,
}

-- The end of `graduate_task`, after the graduation.
abbrev graduation_reply :
    String → Result Bool × History → Result (Response GraduateResponse) × History
graduation_reply pr_state m =
    ((λ (_ : History). m) >>= (λ graduated. pure (
        reply (record {
          task_memory_deleted = graduated;
          shared_memory_updated = graduated;
          pr_state = pr_state;
        }))))
      []

denied :
    {calls : List Call} (r : Result Bool) (h : History)
    → r ≡ ok false
    → keep is_write h ≡ calls
    → ((graduation_reply "unknown" (r, h)).0
        ≡ ok (
            reply (record {
              task_memory_deleted = false;
              shared_memory_updated = false;
              pr_state = "unknown";
            })))
      × (keep is_write (graduation_reply "unknown" (r, h)).1 ≡ calls)
denied (ok b) h e writes = (cc, writes)
denied (raised x) h e writes = (cc, writes)

module _ (gh : Github) (task_id : String) (statuses : Registry) (status : TaskStatus) (h : History)
    (found : get statuses task_id ≡ some status) where
  -- A task that succeeded with an address that is not one of a pull request: `finalize_task` asks
  -- GitHub nothing, and replies that the pull request was marked ready for review.
  pub finalize_task_unmarked :
      status.phase ≡ TaskPhase.succeeded
      → (status.pull_request_url == "") ≡ false
      → parse_pr_url status.pull_request_url ≡ none
      → finalize_task gh task_id statuses h ≡ (
        ok (
          reply (record status { message = "PR marked ready for review" }),
          put statuses task_id (record status { message = "PR marked ready for review" }),
        ),
        h,
      )
  unfolding finalize_task finalize_found mark_pr_ready is_succeeded
  finalize_task_unmarked succeeded url unread =
      rw (found, finalize_task, succeeded, url, unread, mark_pr_ready) refl

  -- A task without a pull request, where the search for its result raises: `graduate_task` deletes the
  -- documents of the task, and replies that nothing was deleted.
  pub graduate_task_denies :
      (es : Elastic) (host : Host) (e : Exn)
      → (status.pull_request_url == "") ≡ true
      → (call es.search
          (Call.search (task_result_request task_id))
          (ensure_index es task_memory_index task_memory_mapping h).1).0
        ≡ raised e
      → ((graduate_task gh es host task_id statuses h).0
          ≡ ok (
              reply (record {
                task_memory_deleted = false;
                shared_memory_updated = false;
                pr_state = "unknown";
              })))
        × (keep is_write (graduate_task gh es host task_id statuses h).1
            ≡ deletion task_id ∷ keep is_write h)
  unfolding graduate_task state_of_pr
  graduate_task_denies es host e no_pr fails =
      let (answer, writes) = graduate_deletes_unread es host task_id "unknown" h e fails in
      let (r, h') = graduate_to_shared es host task_id "unknown" h in
      rw (found, graduate_task, no_pr) (denied r h' answer writes)
