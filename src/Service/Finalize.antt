-- ===== src/Service/Finalize.antt =====
-- What finalize_task of main.py asks of GitHub.
use bulletfarm.Prelude.{
  ℕ, String, ◌≡◌, refl, ◌⊎◌, inl, inr, Bool, true, false, some, List, keep, Bool-cases,
  Option-cases, take_text, ◌<>◌, ◌==◌, arith, ◌∷◌,
}
use bulletfarm.Prelude.Dict.{get}
use bulletfarm.Prelude.Exec.{Result, pure, attempt, ◌>>◌}
use bulletfarm.Prelude.Triple.{
  Ends, Always, Keeps, Ends-Always, Triple-bind, Triple-pure, Triple-attempt, keeps_rules, Keeps-if,
  Keeps-raise,
}
use bulletfarm.Outside.{Call, History, Github, call}
use bulletfarm.Models.{TaskPhase, TaskStatus}
use bulletfarm.Github.PrUrl.{is_too_long, parse_pr_url}
use bulletfarm.Github.Client.{mark_ready_at, mark_pr_ready, after_int, too_many_digits}
use bulletfarm.Service.Routes.{
  Registry, Response, mark, is_succeeded, finalize_found, finalize_task,
}

-- Closing a pull request, or deleting a branch.
abbrev pub is_closing : Call → Bool
is_closing (Call.close_pull _ _) = true
is_closing (Call.delete_git_ref _ _) = true
is_closing _ = false

abbrev pub Same : List Call → History → Type 0
Same calls h = keep is_closing h ≡ calls

call-Same :
    {A : Type 0} (calls : List Call) (answer : History → Result A) (c : Call)
    → is_closing c ≡ false
    → Keeps (Same calls) (call answer c)
call-Same calls answer c e = record {
  at = λ h p. Ends-Always (Same calls) (answer (c ∷ h)) (c ∷ h) (rw e p);
}

succeeded_of : (p : TaskPhase) → is_succeeded p ≡ true → p ≡ TaskPhase.succeeded
unfolding is_succeeded
succeeded_of TaskPhase.succeeded e = refl
succeeded_of _ e = ground arith

module _ (gh : Github) (calls : List Call) where
  mark_ready_at-Same : (repo : String) (n : ℕ) → Keeps (Same calls) (mark_ready_at gh repo n)
  unfolding mark_ready_at
  mark_ready_at-Same repo n = search (keeps_rules, call-Same calls) depth 10

  mark_pr_ready-Same : (url : String) → Keeps (Same calls) (mark_pr_ready gh url)
  unfolding mark_pr_ready after_int
  mark_pr_ready-Same url = elim (Option-cases (parse_pr_url url)) [
    | inl e ↦ rw (e, mark_pr_ready) (record { at = λ h p. p })
    | inr ((repo, n), e) ↦
        rw (e, mark_pr_ready)
          (Keeps-if (is_too_long url) _ _ (Keeps-raise (too_many_digits url))
            (mark_ready_at-Same repo n))
  ]

module _ (gh : Github) (task_id : String) (statuses : Registry) (h : History) where
  abbrev pub HasSucceeded : Type 0
  HasSucceeded =
      (status : TaskStatus) × (get statuses task_id ≡ some status)
      × (status.phase ≡ TaskPhase.succeeded)

  abbrev pub Careful : Response TaskStatus × Registry → History → Type 0
  Careful r h' = Same (keep is_closing h) h' × ((h' ≡ h) ⊎ HasSucceeded)

  marking :
      (status : TaskStatus)
      → HasSucceeded
      → Ends Careful
          (λ _. ⊥)
          (attempt
            (do
              mark_pr_ready gh status.pull_request_url
              pure (mark task_id "PR marked ready for review" status statuses))
            (λ exc.
              pure
                (mark task_id (take_text 500 ("Finalize error: " <> exc.message)) status statuses))
            h)
  marking status done =
      let P : History → Type 0 = Same (keep is_closing h) in
      (Triple-attempt P _ Careful P (λ _. ⊥) _
          (Triple-bind P (mark_pr_ready gh status.pull_request_url) (Always P) _ Careful P
            (mark_pr_ready-Same gh (keep is_closing h) status.pull_request_url)
            (λ _. Triple-pure P Careful P _ (λ s p. (p, inr done))))
          (λ exc. Triple-pure P Careful (λ _. ⊥) _ (λ s p. (p, inr done)))).at
        h refl

  found :
      (status : TaskStatus)
      → get statuses task_id ≡ some status
      → Ends Careful (λ _. ⊥) (finalize_found gh task_id status statuses h)
  unfolding finalize_found
  found status e = elim (Bool-cases (is_succeeded status.phase)) [
    | inl ended ↦
        rw (ended, finalize_found)
          (elim (Bool-cases (status.pull_request_url == "")) [
            | inl blank ↦ rw blank (refl, inl refl)
            | inr url ↦ rw url (marking status (status, e, succeeded_of status.phase ended))
          ])
    | inr other ↦ rw (other, finalize_found) (refl, inl refl)
  ]

  -- `finalize_task` always returns. It closes no pull request and deletes no branch, and it makes no
  -- call at all unless the registry holds a status of the task in phase Succeeded.
  pub finalize_task-Careful : Ends Careful (λ _. ⊥) (finalize_task gh task_id statuses h)
  unfolding finalize_task
  finalize_task-Careful = elim (Option-cases (get statuses task_id)) [
    | inl missing ↦ rw (missing, finalize_task) (refl, inl refl)
    | inr (status, e) ↦ rw (e, finalize_task) (found status e)
  ]
