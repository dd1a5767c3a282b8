-- ===== src/Agent/Tools/Laws.antt =====
-- What `test_generator` of agent.py answers.
use Prim.Native.Char.{Char, code}
use bulletfarm.Prelude.{
  String, ◌<>◌, ◌≡◌, refl, false, ◌∷◌, inl, inr, Bool-cases, is_blank, is_space, ◌||◌,
}
use bulletfarm.Prelude.Exec.{ok}
use text.Mathlib.TextLemmas.{cons-append}
use bulletfarm.Prelude.Find.{ends_text}
use bulletfarm.Outside.{Call, History, Machine}
use bulletfarm.Agent.Tools.Generate.{test_code, python_tests, js_tests, generated, test_generator}

-- A text with a first character that is not white space.
abbrev Visible : String → Type 0
Visible s = (c : Char) × (t : String) × (s ≡ String.◌∷◌ c t) × (is_space (code c) ≡ false)

Visible-append : (s t : String) → Visible s → Visible (s <> t)
Visible-append s t (c, u, e, seen) = (c, u <> t, rw (e, cons-append) refl, seen)

Visible-not_blank : (s : String) → Visible s → is_blank s ≡ false
unfolding is_blank
Visible-not_blank s (c, t, e, seen) = rw (e, is_blank, seen) refl

test_code-Visible : (path content : String) → Visible (test_code path content)
unfolding test_code python_tests js_tests
test_code-Visible path content = elim (Bool-cases (ends_text ".py" path)) [
  | inl python ↦
      rw (python, test_code) (Visible-append _ _ (Visible-append _ _ ("\"", _, refl, refl)))
  | inr other ↦ elim (Bool-cases (ends_text ".js" path || ends_text ".ts" path)) [
    | inl js ↦
        rw (other, js, test_code) (Visible-append _ _ (Visible-append _ _ ("/", _, refl, refl)))
    | inr neither ↦ rw (other, neither, test_code) (Visible-append _ _ ("/", _, refl, refl))
  ]
]

-- Where the file can be read, `test_generator` answers with its test code, whatever the file holds:
-- also where it has no function and no route, the reply for blank code is not given.
pub test_generator_writes :
    (m : Machine) (path framework content : String) (h : History)
    → m.read_file (Call.read_file path ∷ h) ≡ ok content
    → (test_generator m path framework h).0 ≡ ok (test_code path content)
unfolding test_generator generated
test_generator_writes m path framework content h reads =
    rw (reads, test_generator, generated, Visible-not_blank _ (test_code-Visible path content)) refl
