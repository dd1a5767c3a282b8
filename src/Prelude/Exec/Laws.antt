-- ===== src/Prelude/Exec/Laws.antt =====
-- The state that an action leaves, where what follows it makes no change.
use mathlib.Core.Path.{◌≡◌, refl, ap}
use bulletfarm.Prelude.Exec.{Exn, Result, ok, raised, Exec, pure, attempt, ◌>>=◌}

module _ {S A : Type 0} where
  after_caught :
      (f : Exn → A) (r : Result A) (s k : S) → (attempt (λ _. (r, s)) (λ e. pure (f e)) k).1 ≡ s
  after_caught f (ok a) s k = refl
  after_caught f (raised e) s k = refl

  pub state-attempt :
      (m : Exec S A) (f : Exn → A) (s : S) → (attempt m (λ e. pure (f e)) s).1 ≡ (m s).1
  state-attempt m f s = let (r, s') = m s in after_caught f r s' s

module _ {S A B : Type 0} where
  after_value : (g : A → B) (r : Result A) (s k : S) → (((λ _. (r, s)) >>= λ a. pure (g a)) k).1 ≡ s
  after_value g (ok a) s k = refl
  after_value g (raised e) s k = refl

  pub state-bind_pure : (m : Exec S A) (g : A → B) (s : S) → ((m >>= λ a. pure (g a)) s).1 ≡ (m s).1
  state-bind_pure m g s = let (r, s') = m s in after_value g r s' s

  -- An action that returned, before another.
  pub bind-ok :
      (m : Exec S A) (f : A → Exec S B) (s : S) (a : A) (s' : S)
      → m s ≡ (ok a, s')
      → (m >>= f) s ≡ f a s'
  bind-ok m f s a s' e = ap (λ p. ((λ _. p) >>= f) s) e
