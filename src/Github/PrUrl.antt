-- ===== src/Github/PrUrl.antt =====
-- The pull request addresses that github_tools.py reads with
-- `re.match(r"https://github\.com/([^/]+/[^/]+)/pull/(\d+)", pr_url)`. The digits are the ASCII ones.
pub mod RoundTrip
pub mod Sound
use Prim.Native.Char.{code}
use bulletfarm.Prelude.Find.{strip_prefix}
use bulletfarm.Prelude.{
  ℕ, ◌+◌, ◌-◌, ◌*◌, String, ◌<>◌, Bool, ◌&&◌, Option, none, some, beq, leb, ltb, false, ◌==◌,
  if◌then◌else◌,
}

abbrev pub is_slash : ℕ → Bool
is_slash c = beq c b'/'

abbrev pub is_digit : ℕ → Bool
is_digit c = leb b'0' c && leb c b'9'

-- `[^/]*`, and what is left
unfoldable pub split_segment : String → String × String
split_segment String.[] = ("", "")
split_segment (String.◌∷◌ c s) =
    let (segment, rest) = split_segment s in
    if is_slash (code c) then ("", String.◌∷◌ c s) else (String.◌∷◌ c segment, rest)

-- `[^/]+`, and what is left
unfoldable pub segment : String → Option (String × String)
unfolding split_segment
segment s = let (part, rest) = split_segment s in if part == "" then none else some (part, rest)

-- `int` of the digits in front, after those whose value is `acc`
unfoldable pub leading_number : ℕ → String → ℕ
leading_number acc String.[] = acc
leading_number acc (String.◌∷◌ c s) =
    let more = leading_number (acc * 10 + (code c - b'0')) s in
    if is_digit (code c) then more else acc

-- `(\d+)`
unfoldable pub number_group : String → Option ℕ
unfolding leading_number
number_group String.[] = none
number_group (String.◌∷◌ c s) =
    if is_digit (code c) then some (leading_number 0 (String.◌∷◌ c s)) else none

-- How many digits there are in front.
unfoldable pub count_digits : String → ℕ
count_digits String.[] = 0
count_digits (String.◌∷◌ c s) =
    let more = count_digits s in if is_digit (code c) then 1 + more else 0

infixl 10 ◌>>=◌
abbrev ◌>>=◌ : {A B : Type 0} → Option A → (A → Option B) → Option B
none >>= f = none
some a >>= f = f a

abbrev pub github_prefix : String
github_prefix = "https://github.com/"

-- The repository's name, `match.group(1)`, and the number that the digits `match.group(2)` stand for.
unfoldable pub parse_pr_url : String → Option (String × ℕ)
unfolding strip_prefix segment number_group
parse_pr_url url = do
  path ← strip_prefix github_prefix url
  first ← segment path
  after_owner ← strip_prefix "/" first.1
  second ← segment after_owner
  after_repo ← strip_prefix "/pull/" second.1
  number ← number_group after_repo
  some (first.0 <> "/" <> second.0, number)

-- `len(match.group(2))`, where the address matches
unfoldable pub number_length : String → Option ℕ
unfolding strip_prefix segment count_digits
number_length url = do
  path ← strip_prefix github_prefix url
  first ← segment path
  after_owner ← strip_prefix "/" first.1
  second ← segment after_owner
  after_repo ← strip_prefix "/pull/" second.1
  some (count_digits after_repo)

-- Python reads no number of more than 4300 digits.
abbrev pub max_str_digits : ℕ
max_str_digits = 4300

-- `int(match.group(2))` raises.
unfoldable pub is_too_long : String → Bool
unfolding number_length
is_too_long url = elim (number_length url) [ none ↦ false | some n ↦ ltb max_str_digits n ]
