-- ===== src/Agent/Run/Percents.antt =====
-- The percents among the calls of a run, latest first, and when they rise.
use bulletfarm.Prelude.{ℕ, ◌≤◌, ◌≡◌, refl, true, false, List, [], ◌∷◌, ◌++◌, leb, arith}
use bulletfarm.Outside.{Call, History}
use bulletfarm.Agent.Keeps.{is_watched, IsStable}

abbrev pub percent_of : Call → List ℕ
percent_of (Call.report _ n _) = n ∷ []
percent_of _ = []

-- The percents that were reported, latest first.
abbrev pub percents : History → List ℕ
percents [] = []
percents (c ∷ h) = percent_of c ++ percents h

-- From the percents `old`, further ones that never fall, the last of them `n`, or 0 if there is none.
pub data Rises (old : List ℕ) : ℕ → List ℕ → Type 0 where
  unreported : Rises old 0 old
  reported : (n m : ℕ) (l : List ℕ) → n ≤ m → Rises old n l → Rises old m (m ∷ l)

-- The last of the new percents is at most `n`.
pub record UpTo (old : List ℕ) (n : ℕ) (h : History) : Type 0 where
  pub last : ℕ
  pub below : last ≤ n
  pub rises : Rises old last (percents h)

pub no_percent : (c : Call) → is_watched c ≡ false → percent_of c ≡ []
no_percent (Call.report _ _ _) e = ground arith
no_percent _ e = refl

pub UpTo-mono : (old : List ℕ) (a b : ℕ) (h : History) → a ≤ b → UpTo old a h → UpTo old b h
UpTo-mono old a b h le u = record {
  last = u.last;
  below = (let low = u.below in omega arith);
  rises = u.rises;
}

pub leb_refl : (n : ℕ) → leb n n ≡ true
leb_refl n = ground arith

pub same_percents :
    (old : List ℕ) (n : ℕ) (h : History) (c : Call)
    → percent_of c ≡ []
    → UpTo old n h
    → UpTo old n (c ∷ h)
same_percents old n h c e p = record { last = p.last; below = p.below; rises = rw e p.rises }

pub stable : (old : List ℕ) (n : ℕ) → IsStable (UpTo old n)
stable old n = record {
  calm = record {
    stable =
        λ c h e p. record { last = p.last; below = p.below; rises = rw (no_percent c e) p.rises };
  };
  bulks = λ docs h p. record { last = p.last; below = p.below; rises = p.rises };
}
