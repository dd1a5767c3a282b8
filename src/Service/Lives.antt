-- ===== src/Service/Lives.antt =====
-- The life of a task as a client of main.py should see it: a task is absent, then it runs, then it
-- has ended in some phase. The registry, its statuses and the background tasks are forgotten.
pub mod Tracks
pub mod Refines
use bulletfarm.Prelude.{
  String, ◌≡◌, refl, Bool, true, false, Option, none, some, inl, inr, ap, sym, ◌∙◌, ◌==◌, eq_iff,
  Bool-cases, if◌then◌else◌,
}
use bulletfarm.Prelude.Dict.{get, put, get-put, get-put_own, get-put_other}
use bulletfarm.Models.{TaskPhase, TaskStatus}
use bulletfarm.Service.Routes.{Registry}

pub data Life : Type 0 where
  absent running : Life
  ended : TaskPhase → Life

unfoldable pub life_of_phase : TaskPhase → Life
life_of_phase TaskPhase.running = Life.running
life_of_phase phase = Life.ended phase

unfoldable pub life_of : Option TaskStatus → Life
unfolding life_of_phase
life_of none = Life.absent
life_of (some status) = life_of_phase status.phase

-- What the registry says of a task.
abbrev pub life : Registry → String → Life
life statuses k = life_of (get statuses k)

-- A phase that a run ends in.
abbrev pub IsEnd : TaskPhase → Type 0
IsEnd TaskPhase.succeeded = Unit
IsEnd TaskPhase.incomplete = Unit
IsEnd TaskPhase.failed = Unit
IsEnd _ = ⊥

pub data Moves : Life → Life → Type 0 where
  starts : Moves Life.absent Life.running
  ends : (phase : TaskPhase) → IsEnd phase → Moves Life.running (Life.ended phase)

-- One step of all the lives: at most one task moves, and the others stay as they are.
pub data LifeStep (a b : String → Life) : Type 0 where
  stay : ((k : String) → b k ≡ a k) → LifeStep a b
  move :
      (j : String)
      → Moves (a j) (b j)
      → ((k : String) → (j == k) ≡ false → b k ≡ a k)
      → LifeStep a b

pub data LifeReach (a : String → Life) : (String → Life) → Type 0 where
  start : LifeReach a a
  step : {b c : String → Life} → LifeReach a b → LifeStep b c → LifeReach a c

module _ (statuses : Registry) (j : String) (status : TaskStatus) where
  pub life-put : life (put statuses j status) j ≡ life_of_phase status.phase
  unfolding life_of
  life-put = ap life_of (get-put_own statuses j status)

  pub life-put_other :
      (k : String) → (j == k) ≡ false → life (put statuses j status) k ≡ life statuses k
  life-put_other k other = ap life_of (get-put_other statuses j status k other)

  -- A new status in the phase of the old one.
  pub life-put_same :
      (old : TaskStatus)
      → get statuses j ≡ some old
      → status.phase ≡ old.phase
      → (k : String) → life (put statuses j status) k ≡ life statuses k
  unfolding life_of
  life-put_same old found same k = elim (Bool-cases (j == k)) [
    | inl equal ↦
        let at_k : get statuses k ≡ some old =
          ap (get statuses) (sym ((eq_iff j k).0 equal)) ∙ found in
        rw (get-put statuses j k status, equal, at_k) (ap life_of_phase same)
    | inr other ↦ life-put_other k other
  ]
