-- ===== src/Github/PrUrl/RoundTrip.antt =====
-- The reading of pull request addresses by github_tools.py, against their writing.
use Prim.Native.Char.{Char, code}
use text.Mathlib.TextLemmas.{nil-append, cons-append, append_assoc}
use bulletfarm.Prelude.{
  ℕ, zero, suc, ◌+◌, ◌-◌, ◌*◌, ◌/◌, ◌%◌, ◌<◌, String, ◌<>◌, ◌≡◌, refl, ◌∙◌, ap, Bool, true, false,
  not, ◌&&◌, some, Bool-cases, ltb, inl, inr, arith, decimal, ◌==◌,
}
use bulletfarm.Prelude.Decimal.{digit, nth_text, decimal_fuel}
use bulletfarm.Prelude.Find.Laws.{strip_prefix-append}
use bulletfarm.Github.PrUrl.{
  is_slash, is_digit, split_segment, segment, leading_number, number_group, github_prefix,
  parse_pr_url,
}

-- The digit of a number below ten, as a text of one character.
abbrev DigitOf : ℕ → Char → Type 0
DigitOf d c = (digit d ≡ String.◌∷◌ c "") × (is_digit (code c) ≡ true) × (code c - b'0' ≡ d)

digit-DigitOf : (d : ℕ) → d < 10 → (c : Char) × DigitOf d c
unfolding digit nth_text
digit-DigitOf zero le = ("0", (refl, refl, refl))
digit-DigitOf (suc zero) le = ("1", (refl, refl, refl))
digit-DigitOf (suc (suc zero)) le = ("2", (refl, refl, refl))
digit-DigitOf (suc (suc (suc zero))) le = ("3", (refl, refl, refl))
digit-DigitOf (suc (suc (suc (suc zero)))) le = ("4", (refl, refl, refl))
digit-DigitOf (suc (suc (suc (suc (suc zero))))) le = ("5", (refl, refl, refl))
digit-DigitOf (suc (suc (suc (suc (suc (suc zero)))))) le = ("6", (refl, refl, refl))
digit-DigitOf (suc (suc (suc (suc (suc (suc (suc zero))))))) le = ("7", (refl, refl, refl))
digit-DigitOf (suc (suc (suc (suc (suc (suc (suc (suc zero)))))))) le = ("8", (refl, refl, refl))
digit-DigitOf (suc (suc (suc (suc (suc (suc (suc (suc (suc zero))))))))) le =
    ("9", (refl, refl, refl))
digit-DigitOf (suc (suc (suc (suc (suc (suc (suc (suc (suc (suc d)))))))))) le =
    absurd (omega arith)

-- Reading one more digit.
digit_step :
    (a d : ℕ) (t : String)
    → d < 10
    → leading_number a (digit d <> t) ≡ leading_number (a * 10 + d) t
unfolding leading_number
digit_step a d t le =
    let (c, (e, is, value)) = digit-DigitOf d le in rw (e, cons-append, nil-append, is, value) refl

digit_start :
    (d : ℕ) (t : String) → d < 10 → number_group (digit d <> t) ≡ some (leading_number d t)
unfolding number_group leading_number
digit_start d t le =
    let (c, (e, is, value)) = digit-DigitOf d le in
    rw (e, cons-append, nil-append, is, value) (ap (λ m. some (leading_number m t)) (omega arith))

decimal_short : (f n : ℕ) → ltb n 10 ≡ true → decimal_fuel (suc f) n ≡ digit n
unfolding decimal_fuel
decimal_short f n small = rw small refl

decimal_long :
    (f n : ℕ)
    → ltb n 10 ≡ false
    → decimal_fuel (suc f) n ≡ decimal_fuel f (n / 10) <> digit (n % 10)
unfolding decimal_fuel
decimal_long f n large = rw large refl

-- The number that is read is `n`, whatever comes after its digits.
number_group-fuel :
    (f n : ℕ) (t : String)
    → n < f
    → number_group (decimal_fuel f n <> t) ≡ some (leading_number n t)
unfolding decimal_fuel
number_group-fuel zero n t le = absurd (omega arith)
number_group-fuel (suc f) n t le = elim (Bool-cases (ltb n 10)) [
  | inl small ↦ rw (decimal_short f n small) (digit_start n t (ground arith))
  | inr large ↦
      rw
        (
          decimal_long f n large,
          append_assoc,
          number_group-fuel f (n / 10) (digit (n % 10) <> t) (ground arith),
          digit_step (n / 10) (n % 10) t (omega arith),
        )
        (ap (λ m. some (leading_number m t)) (omega arith))
]

-- A text that does not start with a digit.
unfoldable pub no_digit : String → Bool
no_digit String.[] = true
no_digit (String.◌∷◌ c s) = not (is_digit (code c))

leading_number-stop : (n : ℕ) (t : String) → no_digit t ≡ true → leading_number n t ≡ n
unfolding leading_number no_digit
leading_number-stop n String.[] e = refl
leading_number-stop n (String.◌∷◌ c t) e = ground arith

number_group-decimal :
    (n : ℕ) (t : String) → no_digit t ≡ true → number_group (decimal n <> t) ≡ some n
unfolding decimal
number_group-decimal n t e =
    number_group-fuel (suc n) n t (omega arith) ∙ ap some (leading_number-stop n t e)

-- A name without a slash.
unfoldable pub no_slash : String → Bool
no_slash String.[] = true
no_slash (String.◌∷◌ c s) = not (is_slash (code c)) && no_slash s

split_segment-append :
    (s t : String) → no_slash s ≡ true → split_segment (s <> ("/" <> t)) ≡ (s, "/" <> t)
unfolding split_segment no_slash
split_segment-append String.[] t e = rw (nil-append, cons-append) refl
split_segment-append (String.◌∷◌ c s) t e =
    let rest = split_segment-append s t (ground arith) in rw (cons-append, rest) (ground arith)

segment-append :
    (s t : String)
    → no_slash s ≡ true
    → (s == "") ≡ false
    → segment (s <> ("/" <> t)) ≡ some (s, "/" <> t)
unfolding segment
segment-append s t e ne = rw (split_segment-append s t e, ne) refl

pull_slash : (t : String) → "/pull/" <> t ≡ "/" <> ("pull/" <> t)
pull_slash t = append_assoc "/" "pull/" t

-- The address of a pull request.
abbrev pub pr_url : String → String → ℕ → String → String
pr_url owner name n rest =
    github_prefix <> (owner <> ("/" <> (name <> ("/pull/" <> (decimal n <> rest)))))

-- An address of GitHub is read back, before `int` applies its limit on the digits: for an owner and a
-- name without a slash, neither of them empty, and for any number, whatever follows the number, so
-- long as that is not a digit.
pub parse_pr_url-pr_url :
    (owner name rest : String) (n : ℕ)
    → no_slash owner ≡ true
    → (owner == "") ≡ false
    → no_slash name ≡ true
    → (name == "") ≡ false
    → no_digit rest ≡ true
    → parse_pr_url (pr_url owner name n rest) ≡ some (owner <> "/" <> name, n)
unfolding parse_pr_url
parse_pr_url-pr_url owner name rest n plain some_owner plain_name some_name stop =
    rw
      (
        strip_prefix-append,
        segment-append owner _ plain some_owner,
        strip_prefix-append,
        pull_slash,
        segment-append name _ plain_name some_name,
        ← pull_slash,
        strip_prefix-append,
        number_group-decimal n rest stop,
      )
      refl
