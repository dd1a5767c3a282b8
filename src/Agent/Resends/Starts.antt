-- ===== src/Agent/Resends/Starts.antt =====
-- The flushes of agent.py at the starts of tools, after the first five minutes.
use bulletfarm.Prelude.{
  ℕ, suc, ◌+◌, ◌<◌, ◌≡◌, refl, sym, ap, ◌∙◌, Bool, true, false, none, some, List, [], ◌∷◌, ◌++◌,
  length, length-append, arith,
}
use bulletfarm.Prelude.Exec.{Result, ok, raised, pure, ◌>>=◌, ◌>>◌}
use bulletfarm.Prelude.Triple.{
  Triple, Ends, Always, Triple-bind, Triple-if, Triple-pure, Triple-weaken,
}
use mathlib.Core.Path.{subst}
use bulletfarm.Outside.{
  Doc, StreamEvent, on_tool_start, on_tool_end, on_other, on_chat_model_end, Call, History, Host,
}
use bulletfarm.Memory.Buffer.{MemoryWriteBuffer, add_task_memory, should_flush_intermediate}
use bulletfarm.Memory.Bulk.{all_docs, bulk_write}
use bulletfarm.Agent.Session.{World, Session, lift, get_buffer, buffer_task_memory}
use bulletfarm.Agent.Loop.{intermediate_doc, flush_if_due, handle_events}
use bulletfarm.Agent.Resends.{bulk_sizes, starts, resent, IsForward, At}
use bulletfarm.Agent.Resends.Sends.{later, bulk_write-At}

-- The buffer holds `n` documents, and both times in it are more than five minutes before `t`.
pub record Sending (host : Host) (t n : ℕ) (sizes : List ℕ) (s : Session) : Type 0 where
  pub past : At host t sizes s.history
  pub held : length (all_docs s.buffer) ≡ n
  pub started : s.buffer.start_time + 300_000_000 < t
  pub flushed : s.buffer.last_flush_time + 300_000_000 < t

module _ (w : World) (fw : IsForward w.host) (t : ℕ) where
  abbrev S : ℕ → List ℕ → Session → Type 0
  S = Sending w.host t

  abbrev Never : Session → Type 0
  Never s = ⊥

  abbrev Holding : ℕ → List ℕ → MemoryWriteBuffer → Session → Type 0
  Holding n sizes b s = (b ≡ s.buffer) × S n sizes s

  get_buffer-Holding :
      (n : ℕ) (sizes : List ℕ) → Triple (S n sizes) get_buffer (Holding n sizes) Never
  get_buffer-Holding n sizes = record { at = λ s p. (refl, p) }

  abbrev Due : ℕ → List ℕ → Bool → Session → Type 0
  Due n sizes due s = (due ≡ true) × S n sizes s

  past_time :
      (n : ℕ) (sizes : List ℕ) (s : Session)
      → S n sizes s
      → Ends (Due n sizes) Never (lift (should_flush_intermediate w.host s.buffer 300) s)
  unfolding should_flush_intermediate
  past_time n sizes s p = (
    (let late = p.past.late in
        let up = p.started in
        let uf = p.flushed in
        let one = fw.forward Call.now s.history in
        let two = fw.forward Call.now (Call.now ∷ s.history) in ground arith),
    record {
      past =
          later w.host fw t sizes Call.now _ refl (later w.host fw t sizes Call.now _ refl p.past);
      held = p.held;
      started = p.started;
      flushed = p.flushed;
    },
  )

  add-Sending :
      (n : ℕ) (sizes : List ℕ) (doc : Doc)
      → Triple (S n sizes) (buffer_task_memory w doc) (Always (S (suc n) sizes)) Never
  unfolding buffer_task_memory add_task_memory
  add-Sending n sizes doc = record {
    at = λ s p. record {
      past = later w.host fw t sizes Call.now _ refl p.past;
      held =
          (let h = p.held in
            let tasks = s.buffer.task_memory_docs in
            omega (
              arith,
              length-append (tasks ++ (_ ∷ [])) s.buffer.shared_memory_docs,
              length-append tasks (_ ∷ []),
              length-append tasks s.buffer.shared_memory_docs,
            ));
      started = p.started;
      flushed = p.flushed;
    };
  }

  should_flush-Due :
      (n : ℕ) (sizes : List ℕ) (b : MemoryWriteBuffer)
      → Triple
          (Holding n sizes b)
          (lift (should_flush_intermediate w.host b 300))
          (Due n sizes)
          Never
  should_flush-Due n sizes b = record {
    at = λ s p.
        subst (λ c. Ends (Due n sizes) Never (lift (should_flush_intermediate w.host c 300) s))
          (sym p.0) (past_time n sizes s p.1);
  }

  written :
      {A : Type 0} (n : ℕ) (sizes : List ℕ) (r : Result A) (h : History) (s : Session)
      → S n sizes s
      → Ends (Always (At w.host t (n ∷ sizes))) (λ _. ⊥) (r, h)
      → Ends (Always (S n (n ∷ sizes))) Never (r, record s { history = h })
  written n sizes (ok a) h s p e = record {
    past = e;
    held = p.held;
    started = p.started;
    flushed = p.flushed;
  }
  written n sizes (raised x) h s p e = e

  write-Sending :
      (n : ℕ) (sizes : List ℕ) (b : MemoryWriteBuffer)
      → Triple
          (Holding (suc n) sizes b)
          (lift (bulk_write w.es b))
          (Always (S (suc n) (suc n ∷ sizes)))
          Never
  write-Sending n sizes b = record {
    at = λ s p.
        let (same, held) = p in
        let (r, h) = bulk_write w.es b s.history in
        written (suc n) sizes r h s held (
          (bulk_write-At w.host fw t w.es n sizes b
              (ap (λ c. length (all_docs c)) same ∙ held.held)).at
            s.history held.past);
  }

  flushing :
      (n step : ℕ) (sizes : List ℕ)
      → Triple
          (S n sizes)
          (do
            buffer_task_memory w (intermediate_doc w.request step)
            b' ← get_buffer
            lift (bulk_write w.es b')
            pure tt)
          (Always (S (suc n) (suc n ∷ sizes)))
          Never
  flushing n step sizes =
      let Sent = Always (S (suc n) (suc n ∷ sizes)) in
      Triple-bind (S n sizes) _ (Always (S (suc n) sizes)) _ Sent Never
        (add-Sending n sizes (intermediate_doc w.request step))
        (λ _.
          Triple-bind (S (suc n) sizes) get_buffer (Holding (suc n) sizes) _ Sent Never
            (get_buffer-Holding (suc n) sizes)
            (λ b.
              Triple-bind (Holding (suc n) sizes b) (lift (bulk_write w.es b))
                (Always (S (suc n) (suc n ∷ sizes))) _ Sent Never (write-Sending n sizes b)
                (λ _. Triple-pure (S (suc n) (suc n ∷ sizes)) Sent Never tt (λ s p. p))))

  -- One flush, with one document more than before.
  flush-Sending :
      (n step : ℕ) (sizes : List ℕ)
      → Triple (S n sizes) (flush_if_due w step) (Always (S (suc n) (suc n ∷ sizes))) Never
  unfolding flush_if_due
  flush-Sending n step sizes =
      let Sent = Always (S (suc n) (suc n ∷ sizes)) in
      Triple-bind (S n sizes) get_buffer (Holding n sizes) _ Sent Never (get_buffer-Holding n sizes)
        (λ b.
          Triple-bind (Holding n sizes b) _ (Due n sizes) _ Sent Never (should_flush-Due n sizes b)
            (λ due.
              Triple-if (Due n sizes due) Sent Never due _ _
                (λ yes_due.
                  Triple-weaken (S n sizes) (Due n sizes due) _ Sent Sent Never Never (λ s p. p.1)
                    (λ a s p. p) (λ s p. p) (flushing n step sizes))
                (λ not_due. record { at = λ s p. absurd (true_false (sym p.0 ∙ not_due)) })))
    where
      true_false : true ≡ false → ⊥
      true_false e = cc

  starts_resend :
      (events : List StreamEvent) (n step : ℕ) (sizes : List ℕ)
      → Triple
          (S n sizes)
          (handle_events w step events)
          (λ _ s. bulk_sizes s.history ≡ resent n (starts events) sizes)
          Never
  unfolding handle_events
  starts_resend [] n step sizes =
      Triple-pure (S n sizes) (λ _ s. bulk_sizes s.history ≡ sizes) Never tt (λ s p. p.past.sent)
  starts_resend (on_tool_start ∷ events) n step sizes =
      Triple-bind (S n sizes) (flush_if_due w (step + 1)) (Always (S (suc n) (suc n ∷ sizes)))
        (λ _. handle_events w (step + 1) events)
        (λ _ s. bulk_sizes s.history ≡ resent (suc n) (starts events) (suc n ∷ sizes)) Never
        (flush-Sending n (step + 1) sizes)
        (λ _. starts_resend events (suc n) (step + 1) (suc n ∷ sizes))
  starts_resend (on_tool_end ∷ events) n step sizes = starts_resend events n step sizes
  starts_resend (on_other ∷ events) n step sizes = starts_resend events n step sizes
  starts_resend (on_chat_model_end none ∷ events) n step sizes = starts_resend events n step sizes
  starts_resend (on_chat_model_end (some m) ∷ events) n step sizes = record {
    at = λ s p.
        (starts_resend events n step sizes).at (record s { result = some (m ∷ []) })
          (record { past = p.past; held = p.held; started = p.started; flushed = p.flushed });
  }

-- Once a run has lasted more than five minutes, and as long after the last flush, every start of a
-- tool sends the whole buffer again, with one checkpoint more: for each such event of a stream there
-- is one bulk call, of one document more than the one before. This is so where the clock never goes
-- back, whatever Elasticsearch answers. No exception is raised.
pub later_starts_resend :
    (w : World) (s : Session) (events : List StreamEvent) (step : ℕ)
    → IsForward w.host
    → s.buffer.start_time + 300_000_000 < w.host.now s.history
    → s.buffer.last_flush_time + 300_000_000 < w.host.now s.history
    → Ends
        (λ _ s'.
          bulk_sizes s'.history
          ≡ resent (length (all_docs s.buffer)) (starts events) (bulk_sizes s.history))
        (λ _. ⊥)
        (handle_events w step events s)
later_starts_resend w s events step fw started flushed =
    (starts_resend w fw (w.host.now s.history) events (length (all_docs s.buffer)) step
        (bulk_sizes s.history)).at
      s
      (record {
        past = record { sent = refl; late = omega arith };
        held = refl;
        started = started;
        flushed = flushed;
      })
