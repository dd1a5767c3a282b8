-- ===== src/Prelude/Decimal.antt =====
-- `str(n)` for a natural number.
use Prim.Native.Nat.{ℕ, zero, suc, ◌/◌, ◌%◌}
use Prim.Native.String.{String, ◌++◌ as ◌<>◌}
use mathlib.Core.List.{List, [], ◌∷◌}
use bulletfarm.Prelude.Tests.{ltb, if◌then◌else◌}

unfoldable pub nth_text : List String → ℕ → String
nth_text [] i = ""
nth_text (x ∷ xs) zero = x
nth_text (x ∷ xs) (suc i) = nth_text xs i

abbrev pub digit_texts : List String
digit_texts = "0" ∷ "1" ∷ "2" ∷ "3" ∷ "4" ∷ "5" ∷ "6" ∷ "7" ∷ "8" ∷ "9" ∷ []

unfoldable pub digit : ℕ → String
unfolding nth_text
digit n = nth_text digit_texts n

-- The quotient by ten is below `n`, so `suc n` rounds are enough.
unfoldable pub decimal_fuel : ℕ → ℕ → String
unfolding digit
decimal_fuel zero n = ""
decimal_fuel (suc f) n =
    let more = decimal_fuel f (n / 10) <> digit (n % 10) in if ltb n 10 then digit n else more

unfoldable pub decimal : ℕ → String
unfolding decimal_fuel
decimal n = decimal_fuel (suc n) n
