-- ===== src/Prelude/Total.antt =====
-- Actions that return from every state, one rule for each way to build one.
use mathlib.Core.Path.{◌≡◌}
use mathlib.Core.Bool.{Bool, true, false}
use bulletfarm.Prelude.Tests.{if◌then◌else◌}
use bulletfarm.Prelude.Exec.{Exn, Result, ok, raised, Exec, pure, attempt, ◌>>=◌}
use bulletfarm.Prelude.Triple.{Triple, Ends}

-- It returns, and what it returns has a property.
pub record Sure {S A : Type 0} (Q : A → Type 0) (m : Exec S A) : Type 0 where
  pub returns : (s : S) → Ends (λ a _. Q a) (λ _. ⊥) (m s)

-- It raises nothing.
pub record Total {S A : Type 0} (m : Exec S A) : Type 0 where
  pub returns : (s : S) → Ends (λ _ _. Unit) (λ _. ⊥) (m s)

module _ {S A : Type 0} where
  pub Total-pure : (a : A) → Total {S = S} (pure a)
  Total-pure a = record { returns = λ s. tt }

  -- A step that returns a value computed from the state, and may change the state.
  pub Total-step : (f : S → A) (g : S → S) → Total {S = S} (λ s. (ok (f s), g s))
  Total-step f g = record { returns = λ s. tt }

  pub Total-if : (b : Bool) (m n : Exec S A) → Total m → Total n → Total (if b then m else n)
  Total-if true m n t u = t
  Total-if false m n t u = u

  pub Total-then : (b : Bool) (m n : Exec S A) → Total m → b ≡ true → Total (if b then m else n)
  Total-then true m n t e = t
  Total-then false m n t e = cc

  caught :
      (handler : Exn → Exec S A)
      → ((e : Exn) → Total (handler e))
      → (r : Result A) (s k : S) → Ends (λ _ _. Unit) (λ _. ⊥) (attempt (λ _. (r, s)) handler k)
  caught handler t (ok a) s k = tt
  caught handler t (raised e) s k = (t e).returns s

  pub Total-attempt :
      (m : Exec S A) (handler : Exn → Exec S A)
      → ((e : Exn) → Total (handler e))
      → Total (attempt m handler)
  Total-attempt m handler t = record { returns = λ s. let (r, s') = m s in caught handler t r s' s }

  spared :
      (handler : Exn → Exec S A) (r : Result A) (s k : S)
      → Ends (λ _ _. Unit) (λ _. ⊥) (r, s)
      → Ends (λ _ _. Unit) (λ _. ⊥) (attempt (λ _. (r, s)) handler k)
  spared handler (ok a) s k e = tt
  spared handler (raised x) s k e = absurd e

  -- The handler is not needed.
  pub Total-tried : (m : Exec S A) (handler : Exn → Exec S A) → Total m → Total (attempt m handler)
  Total-tried m handler t = record {
    returns = λ s. let (r, s') = m s in spared handler r s' s (t.returns s);
  }

  unsure :
      (Q : A → Type 0) (r : Result A) (s : S)
      → Ends (λ a _. Q a) (λ _. ⊥) (r, s)
      → Ends (λ _ _. Unit) (λ _. ⊥) (r, s)
  unsure Q (ok a) s q = tt
  unsure Q (raised x) s q = absurd q

  pub Total-Sure : (Q : A → Type 0) (m : Exec S A) → Sure Q m → Total m
  Total-Sure Q m t = record { returns = λ s. let (r, s') = m s in unsure Q r s' (t.returns s) }

  known :
      (Q : A → S → Type 0) (E : S → Type 0) (r : Result A) (s : S)
      → Ends (λ _ _. Unit) (λ _. ⊥) (r, s)
      → Ends Q E (r, s)
      → Ends Q (λ _. ⊥) (r, s)
  known Q E (ok a) s t q = q
  known Q E (raised x) s t q = absurd t

  -- What holds where it returns does hold.
  pub Triple-Total :
      (P : S → Type 0) (m : Exec S A) (Q : A → S → Type 0) (E : S → Type 0)
      → Total m
      → Triple P m Q E
      → Triple P m Q (λ _. ⊥)
  Triple-Total P m Q E t k = record {
    at = λ s p. let (r, s') = m s in known Q E r s' (t.returns s) (k.at s p);
  }

module _ {S A B : Type 0} where
  bound :
      (f : A → Exec S B)
      → ((a : A) → Total (f a))
      → (r : Result A) (s k : S) → Ends (λ _ _. Unit) (λ _. ⊥) (r, s)
      → Ends (λ _ _. Unit) (λ _. ⊥) (((λ _. (r, s)) >>= f) k)
  bound f t (ok a) s k e = (t a).returns s
  bound f t (raised x) s k e = absurd e

  pub Total-bind :
      (m : Exec S A) (f : A → Exec S B) → Total m → ((a : A) → Total (f a)) → Total (m >>= f)
  Total-bind m f t u = record { returns = λ s. let (r, s') = m s in bound f u r s' s (t.returns s) }

  -- Where the value has a property that what follows needs.
  sure :
      (Q : A → Type 0) (f : A → Exec S B)
      → ((a : A) → Q a → Total (f a))
      → (r : Result A) (s k : S) → Ends (λ a _. Q a) (λ _. ⊥) (r, s)
      → Ends (λ _ _. Unit) (λ _. ⊥) (((λ _. (r, s)) >>= f) k)
  sure Q f t (ok a) s k e = (t a e).returns s
  sure Q f t (raised x) s k e = absurd e

  pub Total-bind_sure :
      (Q : A → Type 0) (m : Exec S A) (f : A → Exec S B)
      → Sure Q m
      → ((a : A) → Q a → Total (f a))
      → Total (m >>= f)
  Total-bind_sure Q m f t u = record {
    returns = λ s. let (r, s') = m s in sure Q f u r s' s (t.returns s);
  }

module _ {S A B : Type 0} where
  surely :
      (R : B → Type 0) (Q : A → Type 0) (f : A → Exec S B)
      → ((a : A) → Q a → Sure R (f a))
      → (r : Result A) (s k : S) → Ends (λ a _. Q a) (λ _. ⊥) (r, s)
      → Ends (λ b _. R b) (λ _. ⊥) (((λ _. (r, s)) >>= f) k)
  surely R Q f t (ok a) s k e = (t a e).returns s
  surely R Q f t (raised x) s k e = absurd e

  pub Sure-bind_sure :
      (Q : A → Type 0) (R : B → Type 0) (m : Exec S A) (f : A → Exec S B)
      → Sure Q m
      → ((a : A) → Q a → Sure R (f a))
      → Sure R (m >>= f)
  Sure-bind_sure Q R m f t u = record {
    returns = λ s. let (r, s') = m s in surely R Q f u r s' s (t.returns s);
  }

  pub Sure-bind :
      (R : B → Type 0) (m : Exec S A) (f : A → Exec S B)
      → Total m
      → ((a : A) → Sure R (f a))
      → Sure R (m >>= f)
  Sure-bind R m f t u =
      Sure-bind_sure (λ _. Unit) R m f (record { returns = t.returns }) (λ a _. u a)

pub Sure-if :
    {S A : Type 0} (Q : A → Type 0) (b : Bool) (m n : Exec S A)
    → Sure Q m
    → Sure Q n
    → Sure Q (if b then m else n)
Sure-if Q true m n t u = t
Sure-if Q false m n t u = u

pub ruleset total_rules = (Total-pure, Total-if, Total-attempt, Total-bind)
