-- ===== src/Agent/Run/Leaks.antt =====
-- What the status of a run of agent.py shows where the clone fails.
use mathlib.Core.Path.{subst}
use text.Mathlib.TextLemmas.{nil-append, cons-append, append_assoc}
use bulletfarm.Prelude.{
  ℕ, ◌+◌, ◌-◌, ◌≤◌, zero, suc, String, ◌<>◌, ◌≡◌, refl, sym, ap, ◌∙◌, Bool, true, false, none, List,
  [], ◌∷◌, beq, arith, count_text, take_text, join, decimal, if◌then◌else◌,
}
use bulletfarm.Prelude.Exec.{Exn, Result, ok, raised, attempt, ◌>>=◌}
use bulletfarm.Prelude.Triple.{Triple, Ends, Always, Triple-bind, Triple-weaken}
use bulletfarm.Prelude.Total.{Total}
use bulletfarm.Outside.{Completed, Call, History}
use bulletfarm.Models.{TaskStatus}
use bulletfarm.Agent.Session.{
  World, Session, Run, command_failed, progress, run_command, run_checked,
}
use bulletfarm.Agent.Prepare.{workspace, clone_url, clone_git, clone_repo}
use bulletfarm.Agent.Rules.{Anything}
use bulletfarm.Agent.Total.{progress-Total}
use bulletfarm.Agent.Run.Whole.{run_task_of_body}
use bulletfarm.Agent.Run.Outcome.{store_failure-total}
use bulletfarm.Agent.Run.{
  run_steps, store_failure, failure_status, handle_failure, run_body, run_task,
}

-- It raises `e`, from any state.
record Raises {A : Type 0} (e : Exn) (m : Run A) : Type 0 where
  raises : (s : Session) → (m s).0 ≡ raised e

module _ {B : Type 0} (e : Exn) where
  Raises-else : (b : Bool) (m n : Run B) → b ≡ false → Raises e n → Raises e (if b then m else n)
  Raises-else true m n p t = cc
  Raises-else false m n p t = t

module _ {A B : Type 0} (e : Exn) where
  first_raised :
      (f : A → Run B) (r : Result A) (s k : Session)
      → r ≡ raised e
      → (((λ _. (r, s)) >>= f) k).0 ≡ raised e
  first_raised f (ok a) s k p = cc
  first_raised f (raised x) s k p = cc

  Raises-first : (m : Run A) (f : A → Run B) → Raises e m → Raises e (m >>= f)
  Raises-first m f t = record {
    raises = λ s. let (r, s') = m s in first_raised f r s' s (t.raises s);
  }

  then_raised :
      (f : A → Run B)
      → ((a : A) → Raises e (f a))
      → (r : Result A) (s k : Session) → Ends (λ _ _. Unit) (λ _. ⊥) (r, s)
      → (((λ _. (r, s)) >>= f) k).0 ≡ raised e
  then_raised f t (ok a) s k p = (t a).raises s
  then_raised f t (raised x) s k p = absurd p

  Raises-then :
      (m : Run A) (f : A → Run B) → Total m → ((a : A) → Raises e (f a)) → Raises e (m >>= f)
  Raises-then m f t u = record {
    raises = λ s. let (r, s') = m s in then_raised f u r s' s (t.returns s);
  }

module _ {A : Type 0} (Q : A → Session → Type 0) (E : Session → Type 0) where
  handled :
      (e : Exn) (handler : Exn → Run A) (r : Result A) (s k : Session)
      → r ≡ raised e
      → Triple Anything (handler e) Q E
      → Ends Q E (attempt (λ _. (r, s)) handler k)
  handled e handler (ok a) s k p t = cc
  handled e handler (raised x) s k p t =
      let same : e ≡ x = cc in subst (λ y. Ends Q E (handler y s)) same (t.at s tt)

  Triple-handled :
      (e : Exn) (m : Run A) (handler : Exn → Run A)
      → Raises e m
      → Triple Anything (handler e) Q E
      → Triple Anything (attempt m handler) Q E
  Triple-handled e m handler t u = record {
    at = λ s p. let (r, s') = m s in handled e handler r s' s (t.raises s) u;
  }

-- The clone of a first run.
abbrev pub clone_args : World → List String
clone_args w =
    "git"
    ∷ "clone"
    ∷ "--depth=1"
    ∷ clone_url w.github_token w.request.repository
    ∷ workspace w.request
    ∷ []

module _ (w : World) (done : Completed)
    (answers : (h : History) → w.machine.run (Call.run_command (clone_args w) none ∷ h) ≡ ok done)
    (fails : beq done.returncode 0 ≡ false) (first_run : w.request.is_retry ≡ false) where
  abbrev failure : Exn
  failure = command_failed (clone_args w) done.returncode

  run_checked-Raises : Raises failure (run_checked w (clone_args w) none)
  unfolding run_checked run_command
  run_checked-Raises = record {
    raises = λ s. rw (answers s.history, run_checked, run_command, fails) refl;
  }

  clone_git-Raises : Raises failure (clone_git w)
  unfolding clone_git
  clone_git-Raises = search (Raises-first, Raises-else, first_run, run_checked-Raises)

  clone-Raises : Raises failure (clone_repo w)
  unfolding clone_repo
  clone-Raises =
      Raises-then failure (progress w 10 "Cloning repository") (λ _. clone_git w)
        (progress-Total w 10 "Cloning repository") (λ _. clone_git-Raises)

  steps-Raises : Raises failure (run_steps w)
  unfolding run_steps
  steps-Raises = search (Raises-first, clone-Raises)

  abbrev Shown : TaskStatus → Session → Type 0
  Shown status s = status.message ≡ take_text 500 ("Agent error: " <> failure.message)

  shown : (s : Session) → Shown (failure_status w s.pr_url failure) s
  unfolding failure_status
  shown s = refl

  body-Shown : Triple Anything (run_body w) Shown (λ _. ⊥)
  unfolding run_body handle_failure failure_status
  body-Shown =
      Triple-handled Shown (λ _. ⊥) failure (run_steps w) (handle_failure w) steps-Raises
        (Triple-bind Anything (store_failure w failure) (Always Anything)
          (λ _ s. (ok (failure_status w s.pr_url failure), s)) Shown (λ _. ⊥)
          (store_failure-total w failure) (λ _. record { at = λ s p. shown s }))

-- The text stands in the message.
abbrev pub Shows : String → String → Type 0
Shows t message = (front : String) × (rest : String) × (message ≡ front <> (t <> rest))

count_text-append : (a b : String) → count_text (a <> b) ≡ count_text a + count_text b
unfolding count_text
count_text-append String.[] b = rw nil-append (omega arith)
count_text-append (String.◌∷◌ c a) b = rw cons-append (omega (arith, count_text-append a b))

take_text-append :
    (n : ℕ) (a b : String)
    → count_text a ≤ n
    → take_text n (a <> b) ≡ a <> take_text (n - count_text a) b
unfolding take_text count_text
take_text-append n String.[] b le =
    rw (nil-append, nil-append) (ap (λ k. take_text k b) (omega arith))
take_text-append zero (String.◌∷◌ c a) b le = absurd (omega arith)
take_text-append (suc n) (String.◌∷◌ c a) b le =
    rw (cons-append, cons-append, take_text-append n a b (omega arith))
      (ap (λ k. String.◌∷◌ c (a <> take_text k b)) (omega arith))

Shows-early :
    (n : ℕ) (front t rest : String)
    → count_text front + count_text t ≤ n
    → Shows t (take_text n (front <> (t <> rest)))
Shows-early n front t rest le =
    let size = count_text-append front t in
    (
      front,
      take_text (n - count_text (front <> t)) rest,
      ap (take_text n) (sym (append_assoc front t rest))
          ∙ take_text-append n (front <> t) rest (omega arith)
          ∙ append_assoc front t _,
    )

-- The parts of the message, before it is cut.
regrouped :
    (a b c d e f g h i k t u q r v z : String)
    → a
        <> (b
            <> ((c
                  <> (d <> (e <> (f <> (g <> (h <> ((i <> ((k <> (t <> u)) <> q)) <> (r <> v))))))))
                <> z))
      ≡ (a <> (b <> (c <> (d <> (e <> (f <> (g <> (h <> (i <> k)))))))))
        <> (t <> (u <> (q <> (r <> (v <> z)))))
regrouped a b c d e f g h i k t u q r v z = simp append_assoc refl

abbrev before_token : String
before_token = "Agent error: Command '['git', 'clone', '--depth=1', 'https://x-access-token:"

message_parts :
    (w : World) (code : ℕ)
    → (rest : String) × ("Agent error: " <> (command_failed (clone_args w) code).message
        ≡ before_token <> (w.github_token <> rest))
unfolding command_failed join
message_parts w code = (
  _,
  regrouped "Agent error: " "Command '[" "'git'" ", " "'clone'" ", " "'--depth=1'" ", " "'"
      "https://x-access-token:" w.github_token ("@github.com/" <> w.request.repository <> ".git")
      "'" ", " ("'" <> workspace w.request <> "'")
      ("]' returned non-zero exit status " <> decimal code <> "."),
)

-- Where the command that clones the repository for the first run of a task exits with a status other
-- than 0, the status that the run returns shows the GitHub token of the worker in its message, for a
-- token of at most 420 characters.
pub clone_failure-Shows :
    (w : World) (h : History) (done : Completed)
    → ((k : History) → w.machine.run (Call.run_command (clone_args w) none ∷ k) ≡ ok done)
    → beq done.returncode 0 ≡ false
    → w.request.is_retry ≡ false
    → count_text w.github_token ≤ 420
    → Ends (λ status _. Shows w.github_token status.message) (λ _. ⊥) (run_task w h)
unfolding count_text
clone_failure-Shows w h done answers fails first_run short =
    let (rest, e) = message_parts w done.returncode in
    let cut : Shows w.github_token (
        take_text 500
          ("Agent error: " <> (command_failed (clone_args w) done.returncode).message)) =
      subst (λ m. Shows w.github_token (take_text 500 m)) (sym e)
        (Shows-early 500 before_token w.github_token rest (omega arith)) in
    run_task_of_body w (λ status _. Shows w.github_token status.message) (λ _. ⊥)
      (Triple-weaken Anything Anything (run_body w) (Shown w done answers fails first_run)
        (λ status _. Shows w.github_token status.message) (λ _. ⊥) (λ _. ⊥) (λ s p. p)
        (λ status s shown. subst (Shows w.github_token) (sym shown) cut) (λ s p. p)
        (body-Shown w done answers fails first_run))
      h
