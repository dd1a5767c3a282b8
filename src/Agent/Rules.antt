-- ===== src/Agent/Rules.antt =====
-- What the steps of a session guarantee, by the rules of triples.
use bulletfarm.Prelude.{
  ℕ, String, ◌≡◌, refl, Bool, true, false, Option, none, some, List, [], ◌∷◌, beq, if◌then◌else◌,
}
use bulletfarm.Prelude.Exec.{Result, ok, raised, ◌>>=◌}
use bulletfarm.Prelude.Triple.{Triple, Ends, Always, Keeps, Ends-Always, Triple-bind, keeps_rules}
use bulletfarm.Outside.{Doc, Message, Call, History, Act}
use bulletfarm.Memory.Buffer.{MemoryWriteBuffer}
use bulletfarm.Agent.Keeps.{IsCalm, Keeps-call, add_task_memory-Keeps, add_shared_memory-Keeps}
use bulletfarm.Agent.Session.{
  Session, Run, World, lift, get_buffer, set_pr_url, set_result, run_command, run_checked,
  buffer_task_memory, buffer_shared_memory,
}

abbrev pub Anything : Session → Type 0
Anything s = Unit

pub Keeps-any : {A : Type 0} (m : Run A) → Keeps Anything m
Keeps-any m = record { at = λ s h. let (r, s') = m s in Ends-Always Anything r s' tt }

-- A step whose outcome does not matter, before one that ends with `Q`.
pub before :
    {A B : Type 0} {Q : B → Session → Type 0} (m : Run A) (f : A → Run B)
    → ((a : A) → Triple Anything (f a) Q Anything)
    → Triple Anything (m >>= f) Q Anything
before {Q} m f t = Triple-bind Anything m (Always Anything) f Q Anything (Keeps-any m) t

-- A predicate on the history, of a session.
abbrev pub Past : (History → Type 0) → Session → Type 0
Past P s = P s.history

module _ (P : History → Type 0) where
  lifted :
      {A : Type 0} (r : Result A) (h' : History) (s : Session)
      → Ends (Always P) P (r, h')
      → Ends (Always (Past P)) (Past P) (r, record s { history = h' })
  lifted (ok a) h' s e = e
  lifted (raised x) h' s e = e

  pub Keeps-lift : {A : Type 0} (m : Act A) → Keeps P m → Keeps (Past P) (lift m)
  Keeps-lift m k = record {
    at = λ s h. let (r, h') = m s.history in lifted r h' s (k.at s.history h);
  }

  pub Keeps-get_buffer : Keeps (Past P) get_buffer
  Keeps-get_buffer = record { at = λ s h. h }

  pub Keeps-set_pr_url : (url : String) → Keeps (Past P) (set_pr_url url)
  Keeps-set_pr_url url = record { at = λ s h. h }

  pub Keeps-set_result : (m : Option (List Message)) → Keeps (Past P) (set_result m)
  Keeps-set_result m = record { at = λ s h. h }

  -- Reading the state, or changing the buffer.
  pub Keeps-state : {A : Type 0} (f : Session → A) → Keeps (Past P) (λ s. (ok (f s), s))
  Keeps-state f = record { at = λ s h. h }

  pub Keeps-set_buffer :
      (b : MemoryWriteBuffer) → Keeps (Past P) (λ s. (ok tt, record s { buffer = b }))
  Keeps-set_buffer b = record { at = λ s h. h }

pub ruleset run_rules = (
  keeps_rules, Keeps-call, refl, Keeps-lift, Keeps-get_buffer, Keeps-set_pr_url, Keeps-set_result,
  Keeps-state, Keeps-set_buffer,
)

module _ {P : History → Type 0} (st : IsCalm P) (w : World) where
  pub run_command-Keeps :
      (args : List String) (cwd : Option String) → Keeps (Past P) (run_command w args cwd)
  unfolding run_command
  run_command-Keeps args cwd =
      Keeps-lift P _ (Keeps-call w.machine.run (Call.run_command args cwd) st refl)

  pub run_checked-Keeps :
      (args : List String) (cwd : Option String) → Keeps (Past P) (run_checked w args cwd)
  unfolding run_checked
  run_checked-Keeps args cwd = search (run_rules, run_command-Keeps)

  pub buffer_task_memory-Keeps : (doc : Doc) → Keeps (Past P) (buffer_task_memory w doc)
  unfolding buffer_task_memory
  buffer_task_memory-Keeps doc = search (run_rules, add_task_memory-Keeps)

  pub buffer_shared_memory-Keeps : (doc : Doc) → Keeps (Past P) (buffer_shared_memory w doc)
  unfolding buffer_shared_memory
  buffer_shared_memory-Keeps doc = search (run_rules, add_shared_memory-Keeps)

-- From a session to its history.
pub Ends-history :
    {A : Type 0} (Q : A → Session → Type 0) (R : A → History → Type 0) (E : Session → Type 0)
    (F : History → Type 0)
    → ((a : A) (s : Session) → Q a s → R a s.history)
    → ((s : Session) → E s → F s.history)
    → (r : Result A) (s : Session) → Ends Q E (r, s)
    → Ends R F (r, s.history)
Ends-history Q R E F q e (ok a) s h = q a s h
Ends-history Q R E F q e (raised x) s h = e s h
