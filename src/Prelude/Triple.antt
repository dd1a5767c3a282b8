-- ===== src/Prelude/Triple.antt =====
-- What an action guarantees, one rule for each way to build an action.
use mathlib.Core.Path.{◌≡◌, refl}
use mathlib.Core.Bool.{Bool, true, false}
use bulletfarm.Prelude.Tests.{if◌then◌else◌}
use bulletfarm.Prelude.Exec.{Exn, Result, ok, raised, Exec, of_result, pure, raise, attempt, ◌>>=◌}

abbrev pub Ends : {S A : Type 0} → (A → S → Type 0) → (S → Type 0) → Result A × S → Type 0
Ends Q E (ok a, s) = Q a s
Ends Q E (raised e, s) = E s

-- From a state with `P`, `m` returns with `Q` or raises with `E`.
pub record Triple {S A : Type 0} (P : S → Type 0) (m : Exec S A) (Q : A → S → Type 0)
    (E : S → Type 0) : Type 0 where
  pub at : (s : S) → P s → Ends Q E (m s)

abbrev pub Always : {S A : Type 0} → (S → Type 0) → A → S → Type 0
Always P a s = P s

-- `m` keeps `P`, whether it returns or raises.
abbrev pub Keeps : {S A : Type 0} → (S → Type 0) → Exec S A → Type 0
Keeps P m = Triple P m (Always P) P

module _ {S A : Type 0} where
  pub Triple-pure :
      (P : S → Type 0) (Q : A → S → Type 0) (E : S → Type 0) (a : A)
      → ((s : S) → P s → Q a s)
      → Triple P (pure a) Q E
  Triple-pure P Q E a h = record { at = h }

  pub Triple-raise :
      (P : S → Type 0) (Q : A → S → Type 0) (E : S → Type 0) (e : Exn)
      → ((s : S) → P s → E s)
      → Triple P (raise {A = A} e) Q E
  Triple-raise P Q E e h = record { at = h }

  pub Triple-if :
      (P : S → Type 0) (Q : A → S → Type 0) (E : S → Type 0) (b : Bool) (m n : Exec S A)
      → (b ≡ true → Triple P m Q E)
      → (b ≡ false → Triple P n Q E)
      → Triple P (if b then m else n) Q E
  Triple-if P Q E true m n f g = f refl
  Triple-if P Q E false m n f g = g refl

  Ends-weaken :
      (Q R : A → S → Type 0) (E F : S → Type 0)
      → ((a : A) (s : S) → Q a s → R a s)
      → ((s : S) → E s → F s)
      → (r : Result A) (s : S) → Ends Q E (r, s)
      → Ends R F (r, s)
  Ends-weaken Q R E F q e (ok a) s h = q a s h
  Ends-weaken Q R E F q e (raised x) s h = e s h

  pub Triple-weaken :
      (P P' : S → Type 0) (m : Exec S A) (Q R : A → S → Type 0) (E F : S → Type 0)
      → ((s : S) → P' s → P s)
      → ((a : A) (s : S) → Q a s → R a s)
      → ((s : S) → E s → F s)
      → Triple P m Q E
      → Triple P' m R F
  Triple-weaken P P' m Q R E F p q e t = record {
    at = λ s h. let (r, s') = m s in Ends-weaken Q R E F q e r s' (t.at s (p s h));
  }

  both :
      (Q R : A → S → Type 0) (E F : S → Type 0) (r : Result A) (s : S)
      → Ends Q E (r, s)
      → Ends R F (r, s)
      → Ends (λ a s. Q a s × R a s) E (r, s)
  both Q R E F (ok a) s q t = (q, t)
  both Q R E F (raised x) s q t = q

  pub Triple-both :
      {P E : S → Type 0} {m : Exec S A} {Q R : A → S → Type 0}
      → Triple P m Q E
      → Triple P m R E
      → Triple P m (λ a s. Q a s × R a s) E
  Triple-both {E} {m} {Q} {R} t u = record {
    at = λ s p. let (r, s') = m s in both Q R E E r s' (t.at s p) (u.at s p);
  }

  caught :
      (Q : A → S → Type 0) (E F : S → Type 0) (handler : Exn → Exec S A)
      → ((e : Exn) → Triple E (handler e) Q F)
      → (r : Result A) (s k : S) → Ends Q E (r, s)
      → Ends Q F (attempt (λ _. (r, s)) handler k)
  caught Q E F handler t (ok a) s k h = h
  caught Q E F handler t (raised e) s k h = (t e).at s h

  pub Triple-attempt :
      (P : S → Type 0) (m : Exec S A) (Q : A → S → Type 0) (E F : S → Type 0)
      (handler : Exn → Exec S A)
      → Triple P m Q E
      → ((e : Exn) → Triple E (handler e) Q F)
      → Triple P (attempt m handler) Q F
  Triple-attempt P m Q E F handler t u = record {
    at = λ s h. let (r, s') = m s in caught Q E F handler u r s' s (t.at s h);
  }

module _ {S A B : Type 0} where
  bound :
      (Q : A → S → Type 0) (R : B → S → Type 0) (E : S → Type 0) (f : A → Exec S B)
      → ((a : A) → Triple (Q a) (f a) R E)
      → (r : Result A) (s k : S) → Ends Q E (r, s)
      → Ends R E (((λ _. (r, s)) >>= f) k)
  bound Q R E f t (ok a) s k h = (t a).at s h
  bound Q R E f t (raised e) s k h = h

  pub Triple-bind :
      (P : S → Type 0) (m : Exec S A) (Q : A → S → Type 0) (f : A → Exec S B) (R : B → S → Type 0)
      (E : S → Type 0)
      → Triple P m Q E
      → ((a : A) → Triple (Q a) (f a) R E)
      → Triple P (m >>= f) R E
  Triple-bind P m Q f R E t u = record {
    at = λ s h. let (r, s') = m s in bound Q R E f u r s' s (t.at s h);
  }

-- A fact about the state alone, however the action ended.
pub Ends-Always :
    {S A : Type 0} (P : S → Type 0) (r : Result A) (s : S) → P s → Ends (Always P) P (r, s)
Ends-Always P (ok a) s h = h
Ends-Always P (raised e) s h = h

-- The rules for an invariant.
module _ {S A : Type 0} {P : S → Type 0} where
  pub Keeps-pure : (a : A) → Keeps P (pure a)
  Keeps-pure a = record { at = λ s h. h }

  pub Keeps-raise : (e : Exn) → Keeps P (raise {A = A} e)
  Keeps-raise e = record { at = λ s h. h }

  pub Keeps-of_result : (r : Result A) → Keeps P (of_result r)
  unfolding of_result
  Keeps-of_result r = record { at = λ s h. Ends-Always P r s h }

  pub Keeps-if : (b : Bool) (m n : Exec S A) → Keeps P m → Keeps P n → Keeps P (if b then m else n)
  Keeps-if b m n f g = Triple-if P (Always P) P b m n (λ _. f) (λ _. g)

  pub Keeps-attempt :
      (m : Exec S A) (handler : Exn → Exec S A)
      → Keeps P m
      → ((e : Exn) → Keeps P (handler e))
      → Keeps P (attempt m handler)
  Keeps-attempt m handler t u = Triple-attempt P m (Always P) P P handler t u

pub Keeps-bind :
    {S A B : Type 0} {P : S → Type 0} (m : Exec S A) (f : A → Exec S B)
    → Keeps P m
    → ((a : A) → Keeps P (f a))
    → Keeps P (m >>= f)
Keeps-bind {P} m f t u = Triple-bind P m (Always P) f (Always P) P t u

pub ruleset keeps_rules =
    (Keeps-of_result, Keeps-pure, Keeps-raise, Keeps-if, Keeps-attempt, Keeps-bind)
