-- ===== src/Memory/Graduate/Laws.antt =====
-- What `graduate_to_shared` writes, in which order, and when it deletes without saving.
use bulletfarm.Prelude.{
  ℕ, String, ◌≡◌, refl, Bool, true, false, Option, none, some, List, [], ◌∷◌, arith, keep,
}
use bulletfarm.Prelude.Exec.{Exn, Result, of_result, ok, raised, result_or, pure, ◌>>=◌, ◌>>◌}
use bulletfarm.Outside.{
  IndexResult, text, time, Doc, Clause, single, Call, History, Act, Elastic, Host, call,
}
use bulletfarm.Memory.Buffer.{task_memory_index, shared_memory_index}
use bulletfarm.Memory.Calls.{is_write, write-IsOther, ensure_index-ok, keep-ensure_index}
use bulletfarm.Memory.Store.{
  ensure_index, task_memory_mapping, shared_memory_mapping, task_result_request, get_task_result,
  delete_task_memory, store_shared_knowledge,
}
use bulletfarm.Memory.Graduate.{
  graduate_found, graduate_missing, graduate_result, graduate_to_shared,
}
use bulletfarm.Memory.Graduate.Texts.{text_field, texts_field, graduation_texts}

-- The call that deletes the documents of a task.
abbrev pub deletion : String → Call
deletion task_id = Call.delete_by_query task_memory_index (single (Clause.term "task_id" task_id))

-- The call that stores what a task result teaches, with its summary and its context.
abbrev pub lesson : String × String → Doc → ℕ → Call
lesson (summary, context) doc stamp = Call.index_doc shared_memory_index (
    ("summary", text summary)
    ∷ ("context", text context)
    ∷ ("skills", texts_field doc "skills_used")
    ∷ ("repository", text_field doc "repository")
    ∷ ("timestamp", time stamp)
    ∷ [])

abbrev pub writes : History → List Call
writes = keep is_write

module _ (es : Elastic) (task_id : String) (h : History) where
  writes-get_task_result : writes (get_task_result es task_id h).1 ≡ writes h
  unfolding get_task_result
  writes-get_task_result = ground (
    arith,
    ensure_index-ok es task_memory_index task_memory_mapping h,
    keep-ensure_index es task_memory_index task_memory_mapping h is_write write-IsOther,
  )

  get_task_result-ok :
      (get_task_result es task_id h).0 ≡ ok (result_or none (get_task_result es task_id h).0)
  unfolding get_task_result
  get_task_result-ok = ground arith

  -- Deleting never raises, and is always tried.
  pub delete_task_memory-tries :
      ((delete_task_memory es task_id h).0 ≡ ok (result_or 0 (delete_task_memory es task_id h).0))
      × (writes (delete_task_memory es task_id h).1 ≡ deletion task_id ∷ writes h)
  unfolding delete_task_memory
  delete_task_memory-tries = ground (
    arith,
    ensure_index-ok es task_memory_index task_memory_mapping h,
    keep-ensure_index es task_memory_index task_memory_mapping h is_write write-IsOther,
  )

-- A search that raises reads as no result.
get_task_result_unread :
    (es : Elastic) (task_id : String) (h : History) (e : Exn)
    → (call es.search
        (Call.search (task_result_request task_id))
        (ensure_index es task_memory_index task_memory_mapping h).1).0
      ≡ raised e
    → result_or none (get_task_result es task_id h).0 ≡ none
unfolding get_task_result
get_task_result_unread es task_id h e fails =
    ground (arith, ensure_index-ok es task_memory_index task_memory_mapping h)

module _ (es : Elastic) (host : Host) (task_id pr_state : String) where
  abbrev store_lesson : String × String → Doc → History → Result IndexResult × History
  store_lesson (summary, context) doc =
      store_shared_knowledge es host summary context (texts_field doc "skills_used")
        (text_field doc "repository")

  -- The clock reading in the stored document.
  abbrev pub stored_at : History → ℕ
  stored_at h =
      host.now (Call.now ∷ (ensure_index es shared_memory_index shared_memory_mapping h).1)

  writes-store_lesson :
      (t : String × String) (doc : Doc) (h : History)
      → writes (store_lesson t doc h).1 ≡ lesson t doc (stored_at h) ∷ writes h
  unfolding store_shared_knowledge
  writes-store_lesson (summary, context) doc h = ground (
    arith,
    ensure_index-ok es shared_memory_index shared_memory_mapping h,
    keep-ensure_index es shared_memory_index shared_memory_mapping h is_write write-IsOther,
  )

  -- What a graduation of `doc` did after a history `h`, by the texts made of it and by how it ended.
  abbrev pub Stored : History → Doc → Result (String × String) → Result Bool × History → Type 0
  Stored h doc (ok t) (ok done, h') =
      (done ≡ true) × (stamp : ℕ) × (writes h' ≡ deletion task_id ∷ lesson t doc stamp ∷ writes h)
  Stored h doc (ok t) (raised _, h') = (stamp : ℕ) × (writes h' ≡ lesson t doc stamp ∷ writes h)
  Stored h doc (raised e) (r, h') = (r ≡ raised e) × (writes h' ≡ writes h)

  -- What a graduation did after a history `h`, by what `get_task_result` found there and by how the
  -- graduation ended.
  abbrev pub Graduated : History → Option Doc → Result Bool × History → Type 0
  Graduated h (some (f ∷ fs)) out = Stored h (f ∷ fs) (graduation_texts host (f ∷ fs) pr_state) out
  Graduated h _ (r, h') = (r ≡ ok false) × (writes h' ≡ deletion task_id ∷ writes h)

  after_store :
      (t : String × String) (doc : Doc) (h : History) (r : Result IndexResult) (h' : History)
      (stamp : ℕ)
      → writes h' ≡ lesson t doc stamp ∷ writes h
      → Stored h doc (ok t) (((λ _. (r, h')) >>= λ _. delete_task_memory es task_id >> pure true) h)
  unfolding delete_task_memory ensure_index
  after_store t doc h (ok _) h' stamp e =
      let (done, tried) = delete_task_memory-tries es task_id h' in rw done (refl, stamp, cc)
  after_store t doc h (raised _) h' stamp e = (stamp, e)

  -- What follows the texts.
  abbrev store_and_delete : Doc → String × String → Act Bool
  store_and_delete doc t = do store_lesson t doc; delete_task_memory es task_id; pure true

  after_texts :
      (r : Result (String × String)) (doc : Doc) (h h' : History)
      → writes h' ≡ writes h
      → Stored h doc r ((of_result r >>= store_and_delete doc) h')
  unfolding of_result
  after_texts (ok t) doc h h' e =
      let (r, h'') = store_lesson t doc h' in
      after_store t doc h r h'' (stored_at h') (cc (writes-store_lesson t doc h'))
  after_texts (raised x) doc h h' e = (refl, e)

  graduate_missing-Graduated :
      (h h' : History)
      → writes h' ≡ writes h
      → Graduated h none (graduate_missing es host task_id h')
  unfolding graduate_missing
  graduate_missing-Graduated h h' e = ground (arith, delete_task_memory-tries es task_id h')

  graduate_result-Graduated :
      (o : Option Doc) (h h' : History)
      → writes h' ≡ writes h
      → Graduated h o (graduate_result es host task_id pr_state o h')
  unfolding graduate_result graduate_found
  graduate_result-Graduated none h h' e = graduate_missing-Graduated h h' e
  graduate_result-Graduated (some []) h h' e = graduate_missing-Graduated h h' e
  graduate_result-Graduated (some (f ∷ fs)) h h' e =
      after_texts (graduation_texts host (f ∷ fs) pr_state) (f ∷ fs) h h' e

  after_get :
      (h : History) (r : Result (Option Doc)) (h' : History)
      → r ≡ ok (result_or none r)
      → writes h' ≡ writes h
      → Graduated h
          (result_or none r)
          (((λ _. (r, h')) >>= graduate_result es host task_id pr_state) h)
  after_get h (ok o) h' found e = graduate_result-Graduated o h h' e
  after_get h (raised x) h' found e = cc

  -- Graduation reads one result of the task, which may be none. Where it is a document that is not
  -- empty, and its fields can be cut and counted, the lesson made from it is stored first, and the
  -- task's documents are deleted only after the store succeeded; then the answer is true, and an
  -- exception of the store comes through with nothing deleted. Where a field cannot be cut or counted,
  -- the exception comes through, with nothing stored and nothing deleted. Where there is no result, or
  -- an empty one, the documents are deleted, nothing is stored, and the answer is false. No other
  -- document is written.
  pub graduate_to_shared_writes :
      (h : History)
      → Graduated h
          (result_or none (get_task_result es task_id h).0)
          (graduate_to_shared es host task_id pr_state h)
  unfolding graduate_to_shared
  graduate_to_shared_writes h =
      let (r, h') = get_task_result es task_id h in
      after_get h r h' (get_task_result-ok es task_id h) (writes-get_task_result es task_id h)

  -- Where the search for the task's result raises, for whatever reason, graduation answers false,
  -- and the task's documents are deleted with nothing stored.
  pub graduate_deletes_unread :
      (h : History) (e : Exn)
      → (call es.search
          (Call.search (task_result_request task_id))
          (ensure_index es task_memory_index task_memory_mapping h).1).0
        ≡ raised e
      → ((graduate_to_shared es host task_id pr_state h).0 ≡ ok false)
        × (writes (graduate_to_shared es host task_id pr_state h).1 ≡ deletion task_id ∷ writes h)
  graduate_deletes_unread h e fails =
      rw (get_task_result_unread es task_id h e fails) at (graduate_to_shared_writes h)
