-- ===== src/Agent/Writes.antt =====
-- The documents that a run of agent.py sends to Elasticsearch, as far as a test picks them.
pub mod Parts
mod Loop
pub mod Whole
pub mod Typed
use bulletfarm.Prelude.{
  ℕ, String, ◌≡◌, refl, sym, ap, ◌∙◌, Bool, true, false, ◌||◌, Option, none, some, List, [], ◌∷◌,
  ◌++◌, any, keep, keep-append, is_empty, arith, inl, inr, Bool-cases, ◌==◌, if◌then◌else◌,
}
use bulletfarm.Prelude.Dict.{Dict, get, put, update, get-put_other}
use bulletfarm.Prelude.Exec.{Result, ok, raised, pure, attempt, ◌>>=◌, ◌>>◌}
use bulletfarm.Prelude.Triple.{
  Triple, Ends, Always, Keeps, Ends-Always, Triple-bind, keeps_rules, Keeps-if, Keeps-pure,
}
use bulletfarm.Outside.{Value, text, Doc, Call, History, Act, call}
use bulletfarm.Memory.Buffer.{MemoryWriteBuffer, shared_memory_index, add_task_memory}
use bulletfarm.Memory.Bulk.{BulkWriteResult, all_docs, send, bulk_write}
use bulletfarm.Agent.Session.{World, Session, Run, lift, get_buffer, buffer_task_memory}
use bulletfarm.Agent.Keeps.{is_watched, IsCalm, ensure_index-Keeps}

abbrev pub docs_of : Call → List Doc
docs_of (Call.bulk docs) = docs
docs_of _ = []

-- The documents that the bulk calls sent and that the test picks, those of the latest call first.
abbrev pub picked : (Doc → Bool) → History → List Doc
picked picks [] = []
picked picks (c ∷ h) = keep picks (docs_of c) ++ picked picks h

-- What is watched: the documents that a test picks, beside those that were sent before the run, in a
-- run of the task `owner`.
pub record Watch : Type 0 where
  pub picks : Doc → Bool
  pub earlier : List Doc
  pub owner : String

pub record Sent (q : Watch) (h : History) : Type 0 where
  pub sent : picked q.picks h ≡ q.earlier

no_docs : (c : Call) → is_watched c ≡ false → docs_of c ≡ []
no_docs (Call.bulk docs) e = cc
no_docs _ e = refl

pub calm : (q : Watch) → IsCalm (Sent q)
calm q = record { stable = λ c h e p. record { sent = rw (no_docs c e) p.sent } }

-- The run sent no document that the test picks, and holds none.
pub record Quiet (q : Watch) (s : Session) : Type 0 where
  pub said : picked q.picks s.history ≡ q.earlier
  pub held : keep q.picks (all_docs s.buffer) ≡ []
  pub owned : s.buffer.task_id ≡ q.owner

module _ (q : Watch) where
  lifted :
      {A : Type 0} (r : Result A) (h : History) (s : Session)
      → keep q.picks (all_docs s.buffer) ≡ []
      → s.buffer.task_id ≡ q.owner
      → Ends (Always (Sent q)) (Sent q) (r, h)
      → Ends (Always (Quiet q)) (Quiet q) (r, record s { history = h })
  lifted (ok a) h s held owned e = record { said = e.sent; held = held; owned = owned }
  lifted (raised x) h s held owned e = record { said = e.sent; held = held; owned = owned }

  pub Quiet-lift : {A : Type 0} (m : Act A) → Keeps (Sent q) m → Keeps (Quiet q) (lift m)
  Quiet-lift m k = record {
    at = λ s p.
        let (r, h) = m s.history in
        lifted r h s p.held p.owned (k.at s.history (record { sent = p.said }));
  }

  -- A bulk write of no such document.
  module _ (w : World) where
    bulk-Sent :
        (docs : List Doc)
        → keep q.picks docs ≡ []
        → Keeps (Sent q) (call w.es.bulk (Call.bulk docs))
    bulk-Sent docs e = record {
      at = λ h p.
          Ends-Always (Sent q) (w.es.bulk (Call.bulk docs ∷ h)) (Call.bulk docs ∷ h)
            (record { sent = rw e p.sent });
    }

    send-Sent : (docs : List Doc) → keep q.picks docs ≡ [] → Keeps (Sent q) (send w.es docs)
    unfolding send
    send-Sent docs e = search (keeps_rules, bulk-Sent)

    bulk_write-Sent :
        (b : MemoryWriteBuffer)
        → keep q.picks (all_docs b) ≡ []
        → Keeps (Sent q) (bulk_write w.es b)
    unfolding bulk_write
    bulk_write-Sent b e = search (keeps_rules, ensure_index-Keeps (calm q) w.es, send-Sent) depth 9

    Holding : MemoryWriteBuffer → Session → Type 0
    Holding b s = (b ≡ s.buffer) × Quiet q s

    written :
        (b : MemoryWriteBuffer)
        → Triple (Holding b) (lift (bulk_write w.es b)) (Always (Quiet q)) (Quiet q)
    unfolding Holding
    written b = record {
      at = λ s p.
          let free : keep q.picks (all_docs b) ≡ [] =
            ap (λ c. keep q.picks (all_docs c)) p.0 ∙ p.1.held in
          (Quiet-lift (bulk_write w.es b) (bulk_write-Sent b free)).at s p.1;
    }

    -- The buffer is read and sent, and what follows is quiet.
    pub Quiet-flush :
        {B : Type 0} (f : BulkWriteResult → Run B)
        → ((r : BulkWriteResult) → Keeps (Quiet q) (f r))
        → Keeps (Quiet q) (get_buffer >>= λ b. lift (bulk_write w.es b) >>= f)
    unfolding Holding
    Quiet-flush f k =
        Triple-bind (Quiet q) get_buffer Holding _ (Always (Quiet q)) (Quiet q)
          (record { at = λ s p. (refl, p) })
          (λ b.
            Triple-bind (Holding b) (lift (bulk_write w.es b)) (Always (Quiet q)) f
              (Always (Quiet q)) (Quiet q) (written b) k)
