-- ===== src/Prelude/Fallible.antt =====
-- The chain of results that call nothing, for do blocks.
use bulletfarm.Prelude.Exec.{Result, ok, raised}

infixl 10 ◌>>=◌
abbrev pub ◌>>=◌ : {A B : Type 0} → Result A → (A → Result B) → Result B
ok a >>= f = f a
raised e >>= f = raised e
