-- ===== src/Agent/Graduates.antt =====
-- What graduation (memory.py) teaches from the record that a run of agent.py left.
use bulletfarm.Prelude.{
  ℕ, String, ◌≡◌, refl, ◌<>◌, Bool, true, none, some, List, [], ◌∷◌, take, length, take_text,
  take_text-take_text, decimal, arith, ◌==◌, ◌||◌, if◌then◌else◌,
}
use bulletfarm.Prelude.Dict.{put, update, get}
use bulletfarm.Prelude.Exec.{Result, ok, raised, result_or}
use bulletfarm.Outside.{text, texts, time, Doc, Call, History, Elastic, Host}
use bulletfarm.Models.{TaskRequest}
use bulletfarm.Memory.Buffer.{shared_memory_index}
use bulletfarm.Memory.Store.{get_task_result}
use bulletfarm.Memory.Graduate.Texts.{graduation_texts, outcome_text, join_or_none}
use bulletfarm.Memory.Graduate.{graduate_to_shared}
use bulletfarm.Memory.Graduate.Laws.{
  deletion, lesson, writes, Stored, Graduated, graduate_to_shared_writes,
}
use bulletfarm.Agent.Documents.{methodology, task_memory_doc}
use bulletfarm.Agent.Writes.Parts.{task_doc}

-- The fields of an action that `helpers.bulk` stores: `_index` and `_op_type` only say what to do.
unfoldable pub source_of_action : Doc → Doc
source_of_action [] = []
source_of_action ((key, v) ∷ doc) =
    let rest = source_of_action doc in
    if (key == "_index") || (key == "_op_type") then rest else (key, v) ∷ rest

module _ (request : TaskRequest) (out : String) (tools files : List String)
    (pr_state : String) where
  abbrev pub taught_summary : String
  taught_summary =
      "Task '"
      <> take_text 100 request.prompt
      <> "' on "
      <> request.repository
      <> " — PR "
      <> outcome_text pr_state
      <> ". Modified "
      <> decimal (length files)
      <> " files using "
      <> decimal (length tools)
      <> " tools."

  abbrev pub taught_context : String
  taught_context =
      "Outcome: PR "
      <> outcome_text pr_state
      <> "\nMethodology: "
      <> methodology request tools files
      <> "\nTools used: "
      <> join_or_none tools tools
      <> "\nFiles modified: "
      <> join_or_none files (take 20 files)
      <> "\nAgent output: "
      <> take_text 800 out

  -- The lesson of a run, by its request and by what it did.
  abbrev pub taught : ℕ → Call
  taught stamp = Call.index_doc shared_memory_index (
      ("summary", text taught_summary)
      ∷ ("context", text taught_context)
      ∷ ("skills", texts request.skills)
      ∷ ("repository", text request.repository)
      ∷ ("timestamp", time stamp)
      ∷ [])

  module _ (url : String) (written : ℕ) where
    -- The record as it is stored: what the run sends, less what tells `helpers.bulk` what to do.
    abbrev pub record_of : Doc
    record_of =
        source_of_action
          (task_doc request.task_id written (task_memory_doc request out tools files url))

    texts-taught :
        (host : Host)
        → graduation_texts host record_of pr_state ≡ ok (taught_summary, taught_context)
    unfolding task_memory_doc update put get graduation_texts source_of_action
    texts-taught host = rw (take_text-take_text 800 2000 out (omega arith)) refl

    lesson-taught :
        (stamp : ℕ) → lesson (taught_summary, taught_context) record_of stamp ≡ taught stamp
    unfolding task_memory_doc update put get source_of_action
    lesson-taught stamp = refl

    abbrev pub Taught : Elastic → Host → History → Result Bool × History → Type 0
    Taught es host h (ok done, h') =
        (done ≡ true)
        × (stamp : ℕ) × (writes h' ≡ deletion request.task_id ∷ taught stamp ∷ writes h)
    Taught es host h (raised _, h') = (stamp : ℕ) × (writes h' ≡ taught stamp ∷ writes h)

    teaches :
        (es : Elastic) (host : Host) (h : History) (r : Result Bool) (h' : History)
        → Stored es host request.task_id pr_state h record_of
            (ok (taught_summary, taught_context))
            (r, h')
        → Taught es host h (r, h')
    teaches es host h (ok done) h' (is_done, stamp, e) =
        (is_done, stamp, rw (lesson-taught stamp) at e)
    teaches es host h (raised x) h' (stamp, e) = (stamp, rw (lesson-taught stamp) at e)

    stored :
        (es : Elastic) (host : Host) (h : History) (out : Result Bool × History)
        → Graduated es host request.task_id pr_state h (some record_of) out
        → Stored es host request.task_id pr_state h record_of
            (graduation_texts host record_of pr_state)
            out
    unfolding task_memory_doc update put source_of_action
    stored es host h out g = g

    -- Where the search for the task's result finds the record of a run that succeeded, as it is
    -- stored, graduation stores the lesson of that run: with the request's prompt, repository and
    -- skills, and the tools, the files and the output of the run; and deletes the documents of the
    -- task after it, if it was stored. It writes nothing else.
    pub graduate_to_shared-record_of :
        (es : Elastic) (host : Host) (h : History)
        → result_or none (get_task_result es request.task_id h).0 ≡ some record_of
        → Taught es host h (graduate_to_shared es host request.task_id pr_state h)
    graduate_to_shared-record_of es host h found =
        let (r, h') = graduate_to_shared es host request.task_id pr_state h in
        teaches es host h r h' (
          rw (texts-taught host) at (
            stored es host h (r, h')
              (rw found at (graduate_to_shared_writes es host request.task_id pr_state h))))
