-- ===== src/Agent/Run/Budget.antt =====
-- How often a run of agent.py has started the LLM, and how long it has waited for rate limits.
use bulletfarm.Prelude.{
  ℕ, zero, suc, ◌+◌, ◌≤◌, ◌≡◌, refl, Bool, true, false, ◌&&◌, [], ◌∷◌, length, keep, arith, ltb,
  if◌then◌else◌,
}
use bulletfarm.Outside.{Call, History}
use bulletfarm.Agent.Loop.{max_llm_retries, wait_secs}
use bulletfarm.Agent.Keeps.{is_watched, IsStable}

abbrev pub is_stream : Call → Bool
is_stream (Call.stream_events _) = true
is_stream _ = false

abbrev pub streams : History → ℕ
streams h = length (keep is_stream h)

-- The seconds waited so far, for the rate limit to pass.
abbrev pub waited : History → ℕ
waited [] = 0
waited (Call.wait secs ∷ h) = secs + waited h
waited (_ ∷ h) = waited h

-- A number of streams, and of seconds.
abbrev pub Budget : Type 0
Budget = ℕ × ℕ

infix 50 ◌⊑◌
abbrev pub ◌⊑◌ : Budget → Budget → Type 0
b ⊑ c = (b.0 ≤ c.0) × (b.1 ≤ c.1)

pub record Within (b : Budget) (h : History) : Type 0 where
  pub at_most : streams h ≤ b.0
  pub patient : waited h ≤ b.1

no_stream : (c : Call) → is_watched c ≡ false → is_stream c ≡ false
no_stream (Call.stream_events _) e = e
no_stream _ e = refl

no_wait : (c : Call) (h : History) → is_watched c ≡ false → waited (c ∷ h) ≡ waited h
no_wait (Call.wait secs) h e = cc
no_wait _ h e = refl

pub same_streams :
    (n : Budget) (h : History) (c : Call)
    → is_stream c ≡ false
    → waited (c ∷ h) ≡ waited h
    → Within n h
    → Within n (c ∷ h)
same_streams n h c e f p = record { at_most = rw e p.at_most; patient = rw f p.patient }

pub stable : (n : Budget) → IsStable (Within n)
stable n = record {
  calm = record { stable = λ c h e p. same_streams n h c (no_stream c e) (no_wait c h e) p };
  bulks = λ docs h p. same_streams n h _ refl refl p;
}

pub more : (m n : Budget) (h : History) → m ⊑ n → Within m h → Within n h
more m n h le p = record {
  at_most = (let few = p.at_most in let low = le.0 in omega arith);
  patient = (let few = p.patient in let low = le.1 in omega arith);
}

-- What the attempts that are left may wait, after so many tries.
unfoldable pub wait_budget : ℕ → ℕ → ℕ
wait_budget zero tries = 0
wait_budget (suc left) tries =
    (if ltb (tries + 1) max_llm_retries then wait_secs tries else 0) + wait_budget left (tries + 1)

-- Where the loop waits, the budget has the seconds.
pub budgeted :
    (limited again : Bool) (secs rest m n : ℕ)
    → limited && again ≡ true
    → m + ((if again then secs else 0) + rest) ≤ n
    → m + secs + rest ≤ n
budgeted true true secs rest m n e h = omega arith
budgeted true false secs rest m n e h = cc
budgeted false again secs rest m n e h = cc
