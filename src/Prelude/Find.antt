-- ===== src/Prelude/Find.antt =====
-- Python's searching in texts: `in`, `startswith`, `endswith`, `replace`, and the scan of
-- `re.findall`.
pub mod Laws
use Prim.Native.Nat.{ℕ, zero, suc, ◌-◌}
use Prim.Native.Char.{code}
use Prim.Native.String.{String, ◌++◌ as ◌<>◌}
use mathlib.Core.Bool.{Bool, true, false, ◌||◌}
use mathlib.Core.Option.{Option, none, some}
use mathlib.Core.List.{List, [], ◌∷◌}
use text.Mathlib.Text.{◌==◌}
use bulletfarm.Prelude.Tests.{beq, if◌then◌else◌}
use bulletfarm.Prelude.Texts.{count_text}

-- What is left of a text after a prefix.
unfoldable pub strip_prefix : String → String → Option String
strip_prefix String.[] s = some s
strip_prefix (String.◌∷◌ d p) String.[] = none
strip_prefix (String.◌∷◌ d p) (String.◌∷◌ c s) =
    let rest = strip_prefix p s in if beq (code c) (code d) then rest else none

abbrev pub is_some {ℓ} : {A : Type ℓ} → Option A → Bool
is_some none = false
is_some (some a) = true

-- `s.startswith(p)`
abbrev pub starts_text : String → String → Bool
starts_text p s = is_some (strip_prefix p s)

-- `s.endswith(p)`
unfoldable pub ends_text : String → String → Bool
ends_text p String.[] = p == ""
ends_text p (String.◌∷◌ c s) = (String.◌∷◌ c s == p) || ends_text p s

-- What stands before and after the first `p` in a text.
unfoldable pub find_first : String → String → Option (String × String)
unfolding strip_prefix
find_first p String.[] = elim (strip_prefix p "") [ none ↦ none | some v ↦ some ("", v) ]
find_first p (String.◌∷◌ c s) = elim (strip_prefix p (String.◌∷◌ c s)) [
  | some v ↦ some ("", v)
  | none ↦ elim (find_first p s) [ none ↦ none | some (u, v) ↦ some (String.◌∷◌ c u, v) ]
]

-- `p in s`
abbrev pub contains_text : String → String → Bool
contains_text p s = is_some (find_first p s)

-- `s.replace(old, new)` for an `old` that is not empty. The number counts the characters of a match
-- that are still to be passed over.
unfoldable pub replace_from : String → String → ℕ → String → String
unfolding strip_prefix count_text
replace_from old new n String.[] = ""
replace_from old new (suc n) (String.◌∷◌ c s) = replace_from old new n s
replace_from old new zero (String.◌∷◌ c s) =
    if starts_text old (String.◌∷◌ c s)
    then new <> replace_from old new (count_text old - 1) s
    else String.◌∷◌ c (replace_from old new 0 s)

-- `[_]*` for a class of characters: the longest stretch in front, and what is left.
unfoldable pub split_while : (ℕ → Bool) → String → String × String
split_while p String.[] = ("", "")
split_while p (String.◌∷◌ c s) =
    let (run, rest) = split_while p s in
    if p (code c) then (String.◌∷◌ c run, rest) else ("", String.◌∷◌ c s)

-- `[_]+`
unfoldable pub split_some : (ℕ → Bool) → String → Option (String × String)
unfolding split_while
split_some p s = let (run, rest) = split_while p s in if run == "" then none else some (run, rest)

-- `re.findall`, for an expression that matches in one way only and never the empty text: `m` gives
-- the groups of a match in front and what is left after it.
unfoldable pub find_all {ℓ} : {A : Type ℓ} → (String → Option (A × String)) → ℕ → String → List A
unfolding count_text
find_all m n String.[] = []
find_all m (suc n) (String.◌∷◌ c s) = find_all m n s
find_all m zero (String.◌∷◌ c s) = elim (m (String.◌∷◌ c s)) [
  | none ↦ find_all m 0 s
  | some (groups, rest) ↦ groups ∷ find_all m (count_text s - count_text rest) s
]
