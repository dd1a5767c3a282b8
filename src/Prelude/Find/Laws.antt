-- ===== src/Prelude/Find/Laws.antt =====
-- What the search for a text in a text finds.
use Prim.Native.Nat.{ℕ, suc, ◌≤◌}
use Prim.Native.Char.{code, Char}
use Prim.Native.String.{String, ◌++◌ as ◌<>◌}
use mathlib.Core.Path.{◌≡◌, refl, sym, ◌∙◌}
use mathlib.Core.Bool.{true}
use mathlib.Core.Logic.{inl, inr}
use mathlib.Core.Option.{Option, none, some}
use native.Mathlib.Omega.{arith}
use text.Mathlib.TextEquality.{Char-path}
use text.Mathlib.TextLemmas.{nil-append, cons-append}
use bulletfarm.Prelude.Tests.{beq, Option-cases, Bool-cases}
use bulletfarm.Prelude.Texts.{count_text}
use bulletfarm.Prelude.Find.{strip_prefix, find_first}

pub beq_of_self : (n : ℕ) → beq n n ≡ true
beq_of_self n = ground arith

beq→path : (c d : Char) → beq (code c) (code d) ≡ true → c ≡ d
beq→path c d e = Char-path c d (ground arith)

pub strip_prefix-append : (p s : String) → strip_prefix p (p <> s) ≡ some s
unfolding strip_prefix
strip_prefix-append String.[] s = rw nil-append refl
strip_prefix-append (String.◌∷◌ d p) s =
    rw (cons-append, beq_of_self (code d)) (strip_prefix-append p s)

pub none-some : {A : Type 0} {a : A} → none ≡ some a → ⊥
none-some e = cc

pub some_inj : {A : Type 0} {a b : A} → some a ≡ some b → a ≡ b
some_inj e = cc

pub strip_prefix_sound : (p s r : String) → strip_prefix p s ≡ some r → s ≡ p <> r
unfolding strip_prefix
strip_prefix_sound String.[] s r e = some_inj e ∙ sym (nil-append r)
strip_prefix_sound (String.◌∷◌ d p) String.[] r e = absurd (none-some e)
strip_prefix_sound (String.◌∷◌ d p) (String.◌∷◌ c s) r e =
    elim (Bool-cases (beq (code c) (code d))) [
      | inl same ↦
          let tail : s ≡ p <> r = strip_prefix_sound p s r (rw same at e) in
          rw (cons-append, beq→path c d same, tail) refl
      | inr other ↦ absurd (none-some (rw other at e))
    ]

-- What a successful search says: the parts make up the text.
pub find_first_sound :
    (p s : String) (r : String × String) → find_first p s ≡ some r → s ≡ r.0 <> (p <> r.1)
unfolding find_first
find_first_sound p String.[] r e = elim (Option-cases (strip_prefix p "")) [
  | inl miss ↦ absurd (none-some (rw (miss, find_first) at e))
  | inr (v, hit) ↦
      let at_once : ("", v) ≡ r = some_inj (rw (hit, find_first) at e) in
      rw (← at_once, nil-append) (strip_prefix_sound p "" v hit)
]
find_first_sound p (String.◌∷◌ c s) r e = elim (Option-cases (strip_prefix p (String.◌∷◌ c s))) [
  | inl miss ↦ elim (Option-cases (find_first p s)) [
    | inl never ↦ absurd (none-some (rw (miss, never, find_first) at e))
    | inr ((u, v), later) ↦
        let found : (String.◌∷◌ c u, v) ≡ r = some_inj (rw (miss, later, find_first) at e) in
        rw (← found, cons-append, ← find_first_sound p s (u, v) later) refl
  ]
  | inr (v, hit) ↦
      let at_once : ("", v) ≡ r = some_inj (rw (hit, find_first) at e) in
      rw (← at_once, nil-append) (strip_prefix_sound p (String.◌∷◌ c s) v hit)
]

-- At the start of the text.
find_first-hit : (p s v : String) → strip_prefix p s ≡ some v → find_first p s ≡ some ("", v)
unfolding find_first
find_first-hit p String.[] v e = rw (e, find_first) refl
find_first-hit p (String.◌∷◌ c s) v e = rw (e, find_first) refl

-- The search found the text, with at most `n` characters before it.
abbrev pub FoundWithin : ℕ → Option (String × String) → Type 0
FoundWithin n o = (r : String × String) × (o ≡ some r) × (count_text r.0 ≤ n)

find_later :
    (p : String) (c : Char) (s : String) (n : ℕ)
    → FoundWithin n (find_first p s)
    → FoundWithin (suc n) (find_first p (String.◌∷◌ c s))
unfolding find_first count_text
find_later p c s n ((u, v), found, early) = elim (Option-cases (strip_prefix p (String.◌∷◌ c s))) [
  | inl miss ↦ ((String.◌∷◌ c u, v), rw (miss, found, find_first) refl, omega arith)
  | inr (w, hit) ↦ (("", w), rw (hit, find_first) refl, omega arith)
]

-- A text that stands in another is found, and no later than it stands there.
pub find_first-least : (p u v : String) → FoundWithin (count_text u) (find_first p (u <> (p <> v)))
unfolding count_text
find_first-least p String.[] v =
    (("", v), rw nil-append (find_first-hit p (p <> v) v (strip_prefix-append p v)), omega arith)
find_first-least p (String.◌∷◌ c u) v =
    rw cons-append (find_later p c (u <> (p <> v)) (count_text u) (find_first-least p u v))
