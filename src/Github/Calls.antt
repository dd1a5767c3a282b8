-- ===== src/Github/Calls.antt =====
-- What a helper of github_tools.py learns from one call after another: the answer or the exception of
-- each, and the repository and the pull request of an address.
use mathlib.Core.Path.{subst}
use bulletfarm.Prelude.{ℕ, String, ◌≡◌, refl, true, inl, inr, sym, some, Bool-cases, ◌∷◌}
use bulletfarm.Prelude.Exec.{Exn, Result, ok, raised}
use bulletfarm.Prelude.Triple.{Triple, Ends, Triple-weaken}
use bulletfarm.Outside.{Repo, Pull, Call, History, Act, Github, call}
use bulletfarm.Github.PrUrl.{is_too_long, parse_pr_url}
use bulletfarm.Github.Client.{after_int}

-- The answer to a call that is the next one after `old`.
abbrev pub Answered : {A : Type 0} → (History → Result A) → Call → History → A → History → Type 0
Answered answer c old a h = (answer (c ∷ old) ≡ ok a) × (h ≡ c ∷ old)

-- The call was made right after `old`, and was answered with an exception.
abbrev pub Denied : {A : Type 0} → (History → Result A) → Call → History → History → Type 0
Denied answer c old h = (exc : Exn) × (answer (c ∷ old) ≡ raised exc) × (h ≡ c ∷ old)

denying :
    {A : Type 0} (answer : History → Result A) (c : Call) (old : History) (r : Result A)
    → answer (c ∷ old) ≡ r
    → Ends (Answered answer c old) (Denied answer c old) (r, c ∷ old)
denying answer c old (ok a) e = (e, refl)
denying answer c old (raised x) e = (x, e, refl)

call-Denied :
    {A : Type 0} (answer : History → Result A) (c : Call) (old : History)
    → Triple (λ h. h ≡ old) (call answer c) (Answered answer c old) (Denied answer c old)
call-Denied answer c old = record {
  at = λ h e.
      subst (λ k. Ends (Answered answer c old) (Denied answer c old) (call answer c k)) (sym e)
        (denying answer c old _ refl);
}

-- A call right after `old`, with what its exception leads to.
pub call_else :
    {A : Type 0} (answer : History → Result A) (c : Call) (old : History) (E : History → Type 0)
    → ((h : History) → Denied answer c old h → E h)
    → Triple (λ h. h ≡ old) (call answer c) (Answered answer c old) E
call_else answer c old E f =
    Triple-weaken (λ h. h ≡ old) (λ h. h ≡ old) _ _ _ (Denied answer c old) E (λ h q. q)
      (λ a h q. q) f (call-Denied answer c old)

module _ (gh : Github) (pr_url : String) (old : History) where
  -- The repository that GitHub answers for the name in the address.
  pub record Place : Type 0 where
    pub repo_name : String
    pub number : ℕ
    pub repo : Repo
    pub parsed : parse_pr_url pr_url ≡ some (repo_name, number)
    pub known : gh.get_repo (Call.get_repo repo_name ∷ old) ≡ ok repo

  -- The pull request that it answers for the number in the address.
  pub record Target : Type 0 where
    pub place : Place
    pub pr : Pull
    pub got :
        gh.get_pull
          (Call.get_pull place.repo.full_name place.number ∷ Call.get_repo place.repo_name ∷ old)
        ≡ ok pr

  -- The number in the address has too many digits, and nothing was called.
  abbrev pub Refused : History → Type 0
  Refused h = (is_too_long pr_url ≡ true) × (h ≡ old)

never_ends :
    {A : Type 0} (Q : A → History → Type 0) (E : History → Type 0) (r : Result A) (h : History)
    → Ends Q (λ _. ⊥) (r, h)
    → Ends Q E (r, h)
never_ends Q E (ok a) h q = q
never_ends Q E (raised x) h q = absurd q

-- The number is read first, and what follows raises nothing.
pub after_int-Ends :
    {A : Type 0} (gh : Github) (pr_url : String) (old : History) (m : Act A)
    (Q : A → History → Type 0)
    → Ends Q (λ _. ⊥) (m old)
    → Ends Q (Refused gh pr_url old) (after_int pr_url m old)
unfolding after_int
after_int-Ends gh pr_url old m Q q = elim (Bool-cases (is_too_long pr_url)) [
  | inl long ↦ rw (long, after_int) (long, refl)
  | inr short ↦
      rw (short, after_int) (let (r, h) = m old in never_ends Q (Refused gh pr_url old) r h q)
]
