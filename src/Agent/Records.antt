-- ===== src/Agent/Records.antt =====
-- The record of its end that a run of agent.py leaves in Elasticsearch.
pub mod Whole
use text.Mathlib.TextPositions.{eq_refl}
use bulletfarm.Prelude.{
  ℕ, String, ◌≡◌, refl, Bool, true, false, ◌&&◌, ◌||◌, List, [], ◌∷◌, ◌++◌, any, is_empty, arith,
  if◌then◌else◌,
}
use bulletfarm.Prelude.Dict.{get, put, update}
use bulletfarm.Prelude.Exec.{Exn, Result, ok, raised, pure, attempt, ◌>>=◌, ◌>>◌}
use bulletfarm.Prelude.Triple.{
  Triple, Ends, Always, Keeps, Triple-bind, Triple-weaken, Triple-attempt, Triple-pure, Ends-Always,
}
use bulletfarm.Prelude.Total.{Total, Triple-Total}
use bulletfarm.Outside.{Doc, Call, History, Act, call}
use bulletfarm.Models.{TaskPhase, phase_value, TaskStatus, TaskRequest}
use bulletfarm.Memory.Buffer.{
  MemoryWriteBuffer, task_memory_index, shared_memory_index, add_shared_memory,
}
use bulletfarm.Memory.Bulk.{BulkWriteResult, all_docs, send, bulk_write}
use bulletfarm.Agent.Rules.{Anything}
use bulletfarm.Agent.Session.{World, Session, lift, get_buffer, buffer_shared_memory}
use bulletfarm.Memory.Store.{ensure_index, task_memory_mapping, shared_memory_mapping}
use bulletfarm.Memory.Schema.{says}

abbrev is_failed : TaskPhase → Bool
is_failed TaskPhase.failed = true
is_failed _ = false

-- A document for the task memory with the task's id, the phase, and, unless the task failed, the
-- address of its pull request.
unfoldable pub is_record : TaskStatus → Doc → Bool
unfolding says get phase_value
is_record status doc =
    says task_memory_index (get doc "_index")
    && says status.task_id (get doc "task_id")
    && says (phase_value status.phase) (get doc "phase")
    && (is_failed status.phase || says status.pull_request_url (get doc "pr_url"))

-- The documents of the latest call, where it is a bulk write.
abbrev pub last_docs : History → List Doc
last_docs (Call.bulk docs ∷ h) = docs
last_docs _ = []

-- The latest call is a bulk write of such a document, among others.
abbrev pub Recorded : TaskStatus → History → Type 0
Recorded status h = any (is_record status) (last_docs h) ≡ true

any-ne-empty : (p : Doc → Bool) (xs : List Doc) → any p xs ≡ true → is_empty xs ≡ false
any-ne-empty p [] e = cc
any-ne-empty p (x ∷ xs) e = refl

pub any_middle :
    (p : Doc → Bool) (xs ys : List Doc) (d : Doc)
    → p d ≡ true
    → any p ((xs ++ (d ∷ [])) ++ ys) ≡ true
any_middle p [] ys d e = rw e refl
any_middle p (x ∷ xs) ys d e = ground (arith, any_middle p xs ys d e)

any_longer :
    (p : Doc → Bool) (xs ys zs : List Doc)
    → any p (xs ++ ys) ≡ true
    → any p (xs ++ (ys ++ zs)) ≡ true
any_longer p [] [] zs e = cc
any_longer p [] (y ∷ ys) zs e = ground (arith, any_longer p [] ys zs)
any_longer p (x ∷ xs) ys zs e = ground (arith, any_longer p xs ys zs)

abbrev Whenever : History → Type 0
Whenever h = Unit

sometime :
    {A B : Type 0} {Q : B → History → Type 0} (m : Act A) (f : A → Act B)
    → ((a : A) → Triple Whenever (f a) Q Whenever)
    → Triple Whenever (m >>= f) Q Whenever
sometime {Q} m f t =
    Triple-bind Whenever m (Always Whenever) f Q Whenever
      (record { at = λ h _. let (r, h') = m h in Ends-Always Whenever r h' tt }) t

otherwise :
    {A : Type 0} {P E : History → Type 0} {Q : A → History → Type 0} (b : Bool) (m n : Act A)
    → b ≡ false
    → Triple P n Q E
    → Triple P (if b then m else n) Q E
otherwise true m n e t = cc
otherwise false m n e t = t

module _ (w : World) (status : TaskStatus) where
  abbrev Stored : {A : Type 0} → A → History → Type 0
  Stored a h = Recorded status h

  send-Recorded :
      (docs : List Doc)
      → any (is_record status) docs ≡ true
      → Triple Whenever (send w.es docs) Stored Whenever
  unfolding send
  send-Recorded docs e =
      Triple-attempt Whenever _ Stored (Recorded status) Whenever _
        (Triple-bind Whenever (call w.es.bulk (Call.bulk docs)) Stored _ Stored (Recorded status)
          (record {
            at = λ h _. Ends-Always (Recorded status) (w.es.bulk (Call.bulk docs ∷ h)) _ e;
          })
          (λ outcome. Triple-pure (Recorded status) Stored (Recorded status) _ (λ h r. r)))
        (λ exc. Triple-pure (Recorded status) Stored Whenever _ (λ h r. r))

  -- A bulk write of a buffer that holds the record.
  bulk_write-Recorded :
      (b : MemoryWriteBuffer)
      → any (is_record status) (all_docs b) ≡ true
      → Triple Whenever (bulk_write w.es b) Stored Whenever
  unfolding bulk_write
  bulk_write-Recorded b e =
      sometime (ensure_index w.es task_memory_index task_memory_mapping) _ (λ _.
        sometime (ensure_index w.es shared_memory_index shared_memory_mapping) _ (λ _.
          otherwise (is_empty (all_docs b))
            (pure (record { success_count = 0; failed_count = 0; errors = [] })) _
            (any-ne-empty (is_record status) (all_docs b) e) (send-Recorded (all_docs b) e)))

  -- The record is in the buffer.
  abbrev pub Held : Session → Type 0
  Held s = any (is_record status) (all_docs s.buffer) ≡ true

  kept :
      {A : Type 0} (r : Result A) (h : History) (s : Session)
      → Held s
      → Ends (Always Held) Anything (r, record s { history = h })
  kept (ok a) h s e = e
  kept (raised x) h s e = tt

  pub Held-lift : {A : Type 0} (m : Act A) → Triple Held (lift m) (Always Held) Anything
  Held-lift m = record { at = λ s e. let (r, h) = m s.history in kept r h s e }

  pub Held-lesson : (doc : Doc) → Triple Held (buffer_shared_memory w doc) (Always Held) Anything
  unfolding buffer_shared_memory add_shared_memory
  Held-lesson doc = record {
    at = λ s e.
        any_longer (is_record status) s.buffer.task_memory_docs s.buffer.shared_memory_docs _ e;
  }

  abbrev pub Closed : {A : Type 0} → A → Session → Type 0
  Closed a s = Recorded status s.history

  lifted :
      {A : Type 0} (r : Result A) (h : History) (s : Session)
      → Ends Stored Whenever (r, h)
      → Ends Closed Anything (r, record s { history = h })
  lifted (ok a) h s e = e
  lifted (raised x) h s e = tt

  -- The buffer is sent, and nothing is called after.
  pub flush-Recorded :
      {A : Type 0} (Q : A → Session → Type 0) (a : A)
      → ((s : Session) → Recorded status s.history → Q a s)
      → Triple Held (get_buffer >>= λ b. lift (bulk_write w.es b) >> pure a) Q Anything
  flush-Recorded Q a recorded =
      let Has : MemoryWriteBuffer → Session → Type 0 =
        λ b s. any (is_record status) (all_docs b) ≡ true in
      Triple-bind Held get_buffer Has _ Q Anything (record { at = λ s e. e })
        (λ b.
          Triple-bind (Has b) (lift (bulk_write w.es b)) Closed _ Q Anything
            (record {
              at = λ s e.
                  let (r, h) = bulk_write w.es b s.history in
                  lifted r h s ((bulk_write-Recorded b e).at s.history tt);
            })
            (λ _. Triple-pure (λ s. Recorded status s.history) Q Anything a recorded))
