-- ===== src/Prelude/Texts.antt =====
-- Python's text operations, on the native `String`, character by character.
use mathlib.Core.Path.{◌≡◌, refl, ap}
use Prim.Native.Nat.{ℕ, zero, suc, ◌+◌, ◌≤◌}
use Prim.Native.Char.{code}
use Prim.Native.String.{String, ◌++◌ as ◌<>◌}
use mathlib.Core.Bool.{Bool, true, false, ◌&&◌, ◌||◌}
use mathlib.Core.List.{List, [], ◌∷◌, map}
use text.Mathlib.Text.{◌==◌}
use native.Mathlib.Omega.{arith}
use bulletfarm.Prelude.Tests.{beq, leb, if◌then◌else◌}

-- `s[:n]`
unfoldable pub take_text : ℕ → String → String
take_text zero s = ""
take_text (suc n) String.[] = ""
take_text (suc n) (String.◌∷◌ c s) = String.◌∷◌ c (take_text n s)

-- `len(s)`, in characters
unfoldable pub count_text : String → ℕ
count_text String.[] = 0
count_text (String.◌∷◌ c s) = suc (count_text s)

-- The code points of a text.
abbrev pub codes : String → List ℕ
codes String.[] = []
codes (String.◌∷◌ c s) = code c ∷ codes s

-- `s.lower()`, on the ASCII letters; other characters stay.
unfoldable pub lower_code : ℕ → ℕ
lower_code c = if leb b'A' c && leb c b'Z' then c + 32 else c

unfoldable pub lower : String → List ℕ
unfolding lower_code
lower s = map lower_code (codes s)

unfoldable pub starts_codes : List ℕ → List ℕ → Bool
starts_codes s [] = true
starts_codes [] (d ∷ p) = false
starts_codes (c ∷ s) (d ∷ p) = beq c d && starts_codes s p

-- `p in s`
unfoldable pub contains_codes : List ℕ → List ℕ → Bool
unfolding starts_codes
contains_codes [] p = starts_codes [] p
contains_codes (c ∷ s) p = starts_codes (c ∷ s) p || contains_codes s p

-- `p in s.lower()`
abbrev pub lower_contains : String → String → Bool
lower_contains s p = contains_codes (lower s) (codes p)

-- `s.isspace()` for one ASCII character
abbrev pub is_space : ℕ → Bool
is_space c = beq c 32 || (leb 9 c && leb c 13 || leb 28 c && leb c 31)

-- `not s.strip()`: nothing but white space
unfoldable pub is_blank : String → Bool
is_blank String.[] = true
is_blank (String.◌∷◌ c s) = is_space (code c) && is_blank s

-- `s.rstrip()`
unfoldable pub strip_right : String → String
unfolding is_blank
strip_right String.[] = ""
strip_right (String.◌∷◌ c s) =
    if is_blank (String.◌∷◌ c s) then "" else String.◌∷◌ c (strip_right s)

-- `s.strip()`
unfoldable pub strip : String → String
unfolding strip_right
strip String.[] = ""
strip (String.◌∷◌ c s) =
    let rest = strip s in if is_space (code c) then rest else strip_right (String.◌∷◌ c s)

-- The lines of `s.split("\n")` that are not empty, after the line `current` that is being read.
unfoldable pub lines_from : String → String → List String
lines_from current String.[] = if current == "" then [] else current ∷ []
lines_from current (String.◌∷◌ c s) =
    let here = lines_from "" s in
    let more = lines_from (current <> String.◌∷◌ c "") s in
    if beq (code c) 10 then (if current == "" then here else current ∷ here) else more

-- `sep.join(parts)`
unfoldable pub join : String → List String → String
join sep [] = ""
join sep (x ∷ []) = x
join sep (x ∷ y ∷ xs) = x <> sep <> join sep (y ∷ xs)

-- A slice is never longer than its bound.
-- The shorter of two prefixes is left.
pub take_text-take_text :
    (m n : ℕ) (s : String) → m ≤ n → take_text m (take_text n s) ≡ take_text m s
unfolding take_text
take_text-take_text zero n s h = refl
take_text-take_text (suc m) zero s h = absurd (omega arith)
take_text-take_text (suc m) (suc n) String.[] h = refl
take_text-take_text (suc m) (suc n) (String.◌∷◌ c s) h =
    ap (String.◌∷◌ c) (take_text-take_text m n s (omega arith))

pub count_text-take_text : (n : ℕ) (s : String) → count_text (take_text n s) ≤ n
unfolding take_text count_text
count_text-take_text zero s = omega arith
count_text-take_text (suc n) String.[] = omega arith
count_text-take_text (suc n) (String.◌∷◌ c s) = omega (arith, count_text-take_text n s)
