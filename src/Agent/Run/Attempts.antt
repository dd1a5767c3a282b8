-- ===== src/Agent/Run/Attempts.antt =====
-- How often `run_task` of agent.py starts the LLM.
use bulletfarm.Prelude.{ℕ, zero, suc, ◌+◌, ◌≤◌, String, refl, ◌&&◌, some, none, [], ◌∷◌, arith, ltb}
use bulletfarm.Prelude.Exec.{ok, pure, ◌>>=◌}
use bulletfarm.Prelude.Triple.{
  Triple, Ends, Always, Keeps, Ends-Always, Triple-bind, Triple-weaken, Triple-if, Triple-attempt,
  Keeps-pure, Keeps-raise, Keeps-if,
}
use bulletfarm.Outside.{Call, History, call}
use bulletfarm.Agent.Session.{World, Session, Run, lift, progress}
use bulletfarm.Agent.Prepare.{clone_repo, gather_context}
use bulletfarm.Agent.Loop.{
  llm_attempt, llm_loop, run_agent, is_recursion, is_rate_limit, max_llm_retries, recursion_message,
  wait_secs, messages_of,
}
use bulletfarm.Agent.Run.Parts.{clone-Keeps, gather-Keeps, evaluate-Keeps}
use bulletfarm.Agent.Run.Whole.{run_task_from}
use bulletfarm.Agent.Run.{run_steps, run_body, handle_failure, run_task}
use bulletfarm.Agent.Keeps.{Keeps-call}
use bulletfarm.Agent.Rules.{Past, Keeps-lift, Keeps-set_result, Keeps-state}
use bulletfarm.Agent.Steps.{streamed-Keeps, handle_failure-Keeps}
use bulletfarm.Agent.Run.Budget.{
  streams, waited, Budget, ◌⊑◌, Within, same_streams, stable, more, wait_budget, budgeted,
}

module _ (w : World) where
  abbrev At : Budget → Session → Type 0
  At n = Past (Within n)

  -- At most `m` streams before the step, and at most `n` after it, however it ends.
  abbrev Adds : {A : Type 0} → Budget → Run A → Budget → Type 0
  Adds m r n = Triple (At m) r (Always (At n)) (At n)

  loosen : {A : Type 0} (m n : Budget) (r : Run A) → m ⊑ n → Keeps (At m) r → Adds m r n
  loosen m n r le k =
      Triple-weaken (At m) (At m) r (Always (At m)) (Always (At n)) (At m) (At n) (λ s p. p)
        (λ a s. more m n s.history le) (λ s. more m n s.history le) k

  first :
      {A B : Type 0} (m n : Budget) (r : Run A) (f : A → Run B)
      → m ⊑ n
      → Keeps (At m) r
      → ((a : A) → Adds m (f a) n)
      → Adds m (r >>= f) n
  first m n r f le k t =
      Triple-bind (At m) r (Always (At m)) f (Always (At n)) (At n)
        (Triple-weaken (At m) (At m) r (Always (At m)) (Always (At m)) (At m) (At n) (λ s p. p)
          (λ a s p. p) (λ s. more m n s.history le) k)
        t

  progress-Keeps : (k : Budget) (n : ℕ) (message : String) → Keeps (At k) (progress w n message)
  unfolding progress
  progress-Keeps k n message = Keeps-lift (Within k) _ (
      Keeps-if w.has_callback _ _ (record { at = λ h p. same_streams k h _ refl refl p })
        (Keeps-pure tt))

  streamed : Budget → Budget
  streamed n = (suc n.0, n.1)

  after_wait : ℕ → Budget → Budget
  after_wait secs n = (n.0, n.1 + secs)

  stream-Adds :
      (n : Budget) (prompt : String)
      → Adds n (lift (call w.graph.stream (Call.stream_events prompt))) (streamed n)
  unfolding streamed
  stream-Adds n prompt = record {
    at = λ s p.
        Ends-Always (At (streamed n)) _ _
          (record { at_most = (let few = p.at_most in omega arith); patient = p.patient });
  }

  wait-Adds :
      (n : Budget) (secs : ℕ)
      → Adds n (lift (call (λ h. ok tt) (Call.wait secs))) (after_wait secs n)
  unfolding after_wait
  wait-Adds n secs = record {
    at = λ s p. record { at_most = p.at_most; patient = (let few = p.patient in omega arith) };
  }

  attempt-Adds : (n : Budget) (prompt : String) → Adds n (llm_attempt w prompt) (streamed n)
  unfolding llm_attempt
  attempt-Adds n prompt =
      let k = streamed n in
      Triple-bind (At n) _ (Always (At k)) _ (Always (At k)) (At k) (stream-Adds n prompt)
        (streamed-Keeps (stable k) w (λ p h u. same_streams k h _ refl refl u) prompt)

  loop-Adds :
      (prompt : String) (left tries : ℕ) (m n : Budget)
      → (m.0 + left ≤ n.0) × (m.1 + wait_budget left tries ≤ n.1)
      → Adds m (llm_loop w prompt left tries) n
  unfolding llm_loop wait_budget streamed after_wait
  loop-Adds prompt zero tries m n le = loosen m n (pure tt) (omega arith) (Keeps-pure tt)
  loop-Adds prompt (suc left) tries m n le =
      let k = streamed m in
      let secs = wait_secs tries in
      let low : k ⊑ n = omega arith in
      Triple-attempt (At m) (llm_attempt w prompt) (Always (At n)) (At k) (At n) _
        (Triple-weaken (At m) (At m) (llm_attempt w prompt) (Always (At k)) (Always (At n)) (At k)
          (At k) (λ s p. p) (λ a s. more k n s.history low) (λ s p. p) (attempt-Adds m prompt))
        (λ exc.
          Triple-if (At k) (Always (At n)) (At n) (is_recursion exc) _ _
            (λ _. loosen k n _ low (Keeps-set_result (Within k) (some (recursion_message ∷ []))))
            (λ _.
              Triple-if (At k) (Always (At n)) (At n)
                (is_rate_limit exc && ltb (tries + 1) max_llm_retries) _ _
                (λ again.
                  let fits : m.1 + secs + wait_budget left (tries + 1) ≤ n.1 =
                    budgeted (is_rate_limit exc) (ltb (tries + 1) max_llm_retries) secs
                      (wait_budget left (tries + 1)) m.1 n.1 again le.1 in
                  first k n _ _ low (progress-Keeps k 45 _) (λ _.
                    Triple-bind (At k) (lift (call (λ h. ok tt) (Call.wait secs)))
                      (Always (At (after_wait secs k))) _ (Always (At n)) (At n)
                      (Triple-weaken (At k) (At k) _ (Always (At (after_wait secs k)))
                        (Always (At (after_wait secs k))) (At (after_wait secs k)) (At n) (λ s p. p)
                        (λ a s p. p) (λ s. more (after_wait secs k) n s.history (omega arith))
                        (wait-Adds k secs))
                      (λ _. loop-Adds prompt left (tries + 1) (after_wait secs k) n (omega arith))))
                (λ _. loosen k n _ low (Keeps-raise exc))))

  -- Three streams, and 45 seconds.
  abbrev Enough : Budget → Budget → Type 0
  Enough m n = (m.0 + 3 ≤ n.0) × (m.1 + 45 ≤ n.1)

  agent-Adds : (prompt : String) (m n : Budget) → Enough m n → Adds m (run_agent w prompt) n
  unfolding run_agent wait_budget
  agent-Adds prompt m n le =
      let low : m ⊑ n = omega arith in
      first m n _ _ low (progress-Keeps m 30 _) (λ _.
        first m n _ _ low (Keeps-lift _ _ (Keeps-call w.graph.build _ (stable m).calm refl)) (λ _.
          first m n _ _ low (progress-Keeps m 40 _) (λ _.
            first m n _ _ low (Keeps-set_result (Within m) none) (λ _.
              Triple-bind (At m) (llm_loop w prompt max_llm_retries 0) (Always (At n)) _
                (Always (At n)) (At n) (loop-Adds prompt max_llm_retries 0 m n le)
                (λ _. Keeps-state (Within n) (λ s. messages_of s.result))))))

  steps-Adds : (m n : Budget) → Enough m n → Adds m (run_steps w) n
  unfolding run_steps
  steps-Adds m n le =
      let low : m ⊑ n = omega arith in
      first m n (clone_repo w) _ low (clone-Keeps (stable m) w (progress-Keeps m)) (λ _.
        first m n (gather_context w) _ low (gather-Keeps (stable m) w (progress-Keeps m)) (λ c.
          Triple-bind (At m) (run_agent w c.1) (Always (At n)) _ (Always (At n)) (At n)
            (agent-Adds c.1 m n le) (evaluate-Keeps (stable n) w (progress-Keeps n) c.0)))

  body-Adds : (m n : Budget) → Enough m n → Adds m (run_body w) n
  unfolding run_body
  body-Adds m n le =
      Triple-attempt (At m) (run_steps w) (Always (At n)) (At n) (At n) (handle_failure w)
        (steps-Adds m n le) (handle_failure-Keeps (stable n) w)

-- A run streams the LLM at most three times, whatever exceptions the streams end with, and waits at
-- most 45 seconds in all for rate limits to pass.
pub run_task-Attempts :
    (w : World) (h : History)
    → Ends
        (λ _. Within (streams h + 3, waited h + 45))
        (Within (streams h + 3, waited h + 45))
        (run_task w h)
run_task-Attempts w h =
    let m : Budget = (streams h, waited h) in
    let n : Budget = (streams h + 3, waited h + 45) in
    (run_task_from w (Within m) (stable m) (λ _. Within n) (Within n)
        (body-Adds w m n (omega arith))).at
      h (record { at_most = omega arith; patient = omega arith })
