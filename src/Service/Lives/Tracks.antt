-- ===== src/Service/Lives/Tracks.antt =====
-- The background tasks of main.py and what the registry shows of them.
use bulletfarm.Prelude.{
  ℕ, suc, String, ◌≡◌, refl, sym, ap, ◌∙◌, false, none, inl, inr, List, [], ◌∷◌, ◌++◌, arith, ◌==◌,
  eq_iff, Bool-cases, if◌then◌else◌,
}
use bulletfarm.Prelude.Dict.{get, put}
use bulletfarm.Models.{TaskPhase, TaskRequest, TaskStatus, new_status}
use bulletfarm.Agent.Run.Outcome.{EndsIn}
use bulletfarm.Service.Routes.{create_task}
use bulletfarm.Service.System.{Server}
use bulletfarm.Service.Lives.{
  Life, life_of_phase, life_of, life, IsEnd, Moves, LifeStep, stay, move, life-put, life-put_other,
}

-- How many of the background tasks are for an id.
unfoldable pub runs : String → List TaskRequest → ℕ
runs k [] = 0
runs k (r ∷ rest) = let n = runs k rest in if r.task_id == k then suc n else n

unfoldable pub runs_in : Life → ℕ
runs_in Life.running = 1
runs_in _ = 0

-- A task that the registry shows as running has one background task, and no other task has any.
pub record Tracks (s : Server) : Type 0 where
  pub one_each : (k : String) → runs k s.running ≡ runs_in (life s.statuses k)

runs-append :
    (k : String) (before after : List TaskRequest) (r : TaskRequest)
    → runs k (before ++ (r ∷ after)) ≡ runs k (r ∷ (before ++ after))
unfolding runs
runs-append k [] after r = refl
runs-append k (b ∷ before) after r = ground (arith, runs-append k before after r)

-- Where a step leaves every life and the background tasks as they are.
abbrev pub Unchanged : Server → Server → Type 0
Unchanged s t = (s.running ≡ t.running) × ((k : String) → life t.statuses k ≡ life s.statuses k)

pub unmoved :
    (s t : Server)
    → Unchanged s t
    → Tracks s
    → LifeStep (life s.statuses) (life t.statuses) × Tracks t
unmoved s t (same, lives) tracks =
    (stay lives, record { one_each = λ k. rw (lives k, ← same) (tracks.one_each k) })

-- Where a step moves one task, by a new status of it.
moved :
    (s : Server) (j : String) (status : TaskStatus) (running : List TaskRequest)
    → Moves (life s.statuses j) (life_of_phase status.phase)
    → runs j running ≡ runs_in (life_of_phase status.phase)
    → ((k : String) → (j == k) ≡ false → runs k running ≡ runs k s.running)
    → Tracks s
    → LifeStep (life s.statuses) (life (put s.statuses j status))
      × Tracks (record { statuses = put s.statuses j status; running = running })
moved s j status running moves own others tracks = (
  move j (rw (life-put s.statuses j status) moves) (life-put_other s.statuses j status),
  record {
    one_each = λ k. elim (Bool-cases (j == k)) [
      | inl equal ↦ rw (← (eq_iff j k).0 equal, life-put s.statuses j status) own
      | inr other ↦
          rw (life-put_other s.statuses j status k other, others k other) (tracks.one_each k)
    ];
  },
)

runs_other :
    (k : String) (r : TaskRequest) (rest : List TaskRequest)
    → (r.task_id == k) ≡ false
    → runs k (r ∷ rest) ≡ runs k rest
unfolding runs
runs_other k r rest other = rw other refl

runs_own :
    (r : TaskRequest) (rest : List TaskRequest)
    → runs r.task_id (r ∷ rest) ≡ suc (runs r.task_id rest)
unfolding runs
runs_own r rest = rw ((eq_iff r.task_id r.task_id).1 refl) refl

pub submitted :
    (s : Server) (request : TaskRequest)
    → get s.statuses request.task_id ≡ none
    → Tracks s
    → LifeStep (life s.statuses) (life (create_task request s.statuses).1)
      × Tracks
          (record { statuses = (create_task request s.statuses).1; running = request ∷ s.running })
unfolding create_task life_of life_of_phase runs_in
submitted s request fresh tracks =
    let none_yet : runs request.task_id s.running ≡ 0 =
      tracks.one_each request.task_id ∙ ap (λ o. runs_in (life_of o)) fresh in
    moved s request.task_id (new_status request.task_id TaskPhase.running) (request ∷ s.running)
      (rw fresh Moves.starts) (runs_own request s.running ∙ ap suc none_yet)
      (λ k other. runs_other k request s.running other) tracks

was_running : (l : Life) (n : ℕ) → suc n ≡ runs_in l → (l ≡ Life.running) × (n ≡ 0)
unfolding runs_in
was_running Life.running n e = (refl, omega arith)
was_running Life.absent n e = absurd (omega arith)
was_running (Life.ended phase) n e = absurd (omega arith)

over : (phase : TaskPhase) → IsEnd phase → Moves Life.running (life_of_phase phase)
unfolding life_of_phase
over TaskPhase.succeeded e = Moves.ends TaskPhase.succeeded e
over TaskPhase.incomplete e = Moves.ends TaskPhase.incomplete e
over TaskPhase.failed e = Moves.ends TaskPhase.failed e
over TaskPhase.running e = absurd e
over TaskPhase.pending e = absurd e
over TaskPhase.waiting_for_pr e = absurd e
over TaskPhase.merged e = absurd e
over TaskPhase.closed e = absurd e

no_runs : (phase : TaskPhase) → IsEnd phase → 0 ≡ runs_in (life_of_phase phase)
unfolding life_of_phase runs_in
no_runs TaskPhase.running e = absurd e
no_runs _ e = refl

pub IsEnd-of_EndsIn : (phase : TaskPhase) (status : TaskStatus) → EndsIn phase status → IsEnd phase
IsEnd-of_EndsIn TaskPhase.succeeded status e = tt
IsEnd-of_EndsIn TaskPhase.incomplete status e = tt
IsEnd-of_EndsIn TaskPhase.failed status e = tt
IsEnd-of_EndsIn TaskPhase.running status e = absurd e
IsEnd-of_EndsIn TaskPhase.pending status e = absurd e
IsEnd-of_EndsIn TaskPhase.waiting_for_pr status e = absurd e
IsEnd-of_EndsIn TaskPhase.merged status e = absurd e
IsEnd-of_EndsIn TaskPhase.closed status e = absurd e

pub ended_with :
    (s : Server) (before after : List TaskRequest) (request : TaskRequest) (status : TaskStatus)
    → s.running ≡ before ++ (request ∷ after)
    → IsEnd status.phase
    → Tracks s
    → LifeStep (life s.statuses) (life (put s.statuses request.task_id status))
      × Tracks
          (record { statuses = put s.statuses request.task_id status; running = before ++ after })
ended_with s before after request status e end tracks =
    let j = request.task_id in
    let count : (k : String) → runs k s.running ≡ runs k (request ∷ (before ++ after)) =
      λ k. ap (runs k) e ∙ runs-append k before after request in
    let (was, left) =
      was_running (life s.statuses j) (runs j (before ++ after))
        (sym (runs_own request (before ++ after)) ∙ sym (count j) ∙ tracks.one_each j) in
    moved s j status (before ++ after) (rw was (over status.phase end))
      (left ∙ no_runs status.phase end)
      (λ k other. sym (count k ∙ runs_other k request (before ++ after) other)) tracks
