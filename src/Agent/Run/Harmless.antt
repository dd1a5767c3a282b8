-- ===== src/Agent/Run/Harmless.antt =====
-- What `run_task` of agent.py never asks of GitHub and of Elasticsearch.
use bulletfarm.Prelude.{ℕ, String, ◌≡◌, refl, Bool, true, false, List, ◌∷◌, keep}
use bulletfarm.Prelude.Triple.{Ends, Always, Keeps, Keeps-bind, Keeps-if, Keeps-pure}
use bulletfarm.Outside.{Call, History}
use bulletfarm.Agent.Session.{World, progress}
use bulletfarm.Agent.Prepare.{clone_repo, gather_context}
use bulletfarm.Agent.Loop.{run_agent}
use bulletfarm.Agent.Run.Parts.{clone-Keeps, gather-Keeps, evaluate-Keeps}
use bulletfarm.Agent.Run.Whole.{run_task_from}
use bulletfarm.Agent.Run.{run_steps, run_body, run_task}
use bulletfarm.Agent.Keeps.{is_watched, IsStable}
use bulletfarm.Agent.Rules.{Past, run_rules, Keeps-lift}
use bulletfarm.Agent.Steps.{handle_failure-Keeps, llm_loop-Keeps}

-- Closing a pull request, marking it ready, deleting a branch, and deleting documents.
abbrev pub is_drastic : Call → Bool
is_drastic (Call.mark_ready _) = true
is_drastic (Call.close_pull _ _) = true
is_drastic (Call.delete_git_ref _ _) = true
is_drastic (Call.delete_by_query _ _) = true
is_drastic _ = false

abbrev pub Same : List Call → History → Type 0
Same calls h = keep is_drastic h ≡ calls

not_drastic : (c : Call) → is_watched c ≡ false → is_drastic c ≡ false
not_drastic (Call.mark_ready _) e = e
not_drastic (Call.close_pull _ _) e = e
not_drastic (Call.delete_git_ref _ _) e = e
not_drastic (Call.delete_by_query _ _) e = e
not_drastic _ e = refl

stable : (calls : List Call) → IsStable (Same calls)
stable calls = record {
  calm = record { stable = λ c h e p. rw (not_drastic c e) p };
  bulks = λ docs h p. p;
}

-- Any predicate that every call of a run keeps.
module _ {P : History → Type 0} (st : IsStable P) (w : World)
    (streams : (prompt : String) (h : History) → P h → P (Call.stream_events prompt ∷ h))
    (invokes : (prompt : String) (h : History) → P h → P (Call.invoke_graph prompt ∷ h))
    (waits : (secs : ℕ) (h : History) → P h → P (Call.wait secs ∷ h))
    (reports : (n : ℕ) (message : String) → Keeps (Past P) (progress w n message)) where
  run_agent-Keeps : (prompt : String) → Keeps (Past P) (run_agent w prompt)
  unfolding run_agent
  run_agent-Keeps prompt =
      search (run_rules, reports, llm_loop-Keeps st w streams invokes waits (reports 45), st) depth
        12

  steps-Keeps : Keeps (Past P) (run_steps w)
  unfolding run_steps
  steps-Keeps = Keeps-bind (clone_repo w) _ (clone-Keeps st w reports) (λ _.
      Keeps-bind (gather_context w) _ (gather-Keeps st w reports) (λ c.
        Keeps-bind (run_agent w c.1) _ (run_agent-Keeps c.1) (evaluate-Keeps st w reports c.0)))

  body-Keeps : Keeps (Past P) (run_body w)
  unfolding run_body
  body-Keeps = search (run_rules, steps-Keeps, handle_failure-Keeps st w)

  pub run_task-Keeps : Keeps P (run_task w)
  run_task-Keeps = run_task_from w P st (Always P) P body-Keeps

progress-Keeps :
    (w : World) (calls : List Call) (n : ℕ) (message : String)
    → Keeps (Past (Same calls)) (progress w n message)
unfolding progress
progress-Keeps w calls n message =
    Keeps-lift (Same calls) _
      (Keeps-if w.has_callback _ _ (record { at = λ h p. p }) (Keeps-pure tt))

-- Whatever happens, a run makes no call that marks a pull request ready or closes it, that deletes a
-- branch, or that deletes documents.
pub run_task-Harmless :
    (w : World) (h : History)
    → Ends (λ _. Same (keep is_drastic h)) (Same (keep is_drastic h)) (run_task w h)
run_task-Harmless w h =
    let calls = keep is_drastic h in
    (run_task-Keeps (stable calls) w (λ _ h p. p) (λ _ h p. p) (λ _ h p. p)
        (progress-Keeps w calls)).at
      h refl
