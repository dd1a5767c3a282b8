-- ===== src/Service/Operator/Skills.antt =====
-- What `mergeSkills` of the operator keeps.
use bulletfarm.Prelude.{
  String, ◌≡◌, refl, ap, sym, ◌∙◌, Bool, true, false, ◌||◌, inl, inr, List, [], ◌∷◌, ◌++◌, any,
  arith, Bool-cases, ◌==◌, eq_iff,
}
use bulletfarm.Service.Operator.{merge_loop, merge_skills}

abbrev pub member : String → List String → Bool
member s l = any (λ x. x == s) l

-- No member occurs twice.
abbrev pub Distinct : List String → Type 0
Distinct [] = Unit
Distinct (x ∷ l) = (member x l ≡ false) × Distinct l

member-append : (k s : String) (l : List String) → member k (l ++ (s ∷ [])) ≡ member k l || (s == k)
member-append k s [] = ground arith
member-append k s (x ∷ l) = ground (arith, member-append k s l)

member_at :
    (k s : String) (l : List String) → member s l ≡ true → (s == k) ≡ true → member k l ≡ true
member_at k s l e same = ap (λ t. member t l) (sym ((eq_iff s k).0 same)) ∙ e

member-merge_loop :
    (k : String) (merged l : List String)
    → member k (merge_loop merged l) ≡ member k merged || member k l
unfolding merge_loop
member-merge_loop k merged [] = ground arith
member-merge_loop k merged (s ∷ rest) = elim (Bool-cases (member s merged)) [
  | inl old ↦
      let ih = member-merge_loop k merged rest in
      let both = member_at k s merged old in rw (old, merge_loop) (ground (arith, ih, both))
  | inr new ↦
      let ih = member-merge_loop k (merged ++ (s ∷ [])) rest in
      let end = member-append k s merged in rw (new, merge_loop) (ground (arith, ih, end))
]

Distinct-append :
    (s : String) (l : List String) → Distinct l → member s l ≡ false → Distinct (l ++ (s ∷ []))
Distinct-append s [] d e = (refl, tt)
Distinct-append s (x ∷ l) (apart, d) e =
    let end = member-append x s l in
    (ground (arith, eq_iff s x, eq_iff x s), Distinct-append s l d (ground arith))

Distinct-merge_loop : (merged l : List String) → Distinct merged → Distinct (merge_loop merged l)
unfolding merge_loop
Distinct-merge_loop merged [] d = d
Distinct-merge_loop merged (s ∷ rest) d = elim (Bool-cases (member s merged)) [
  | inl old ↦ rw (old, merge_loop) (Distinct-merge_loop merged rest d)
  | inr new ↦
      rw (new, merge_loop)
        (Distinct-merge_loop (merged ++ (s ∷ [])) rest (Distinct-append s merged d new))
]

-- The merged skills are those of the agent and those of the task, each once.
pub merge_skills_members :
    (defaults skills : List String)
    → ((k : String)
        → member k (merge_skills defaults skills) ≡ member k defaults || member k skills)
      × Distinct (merge_skills defaults skills)
unfolding merge_skills
merge_skills_members defaults skills = (
  λ k.
      let first = member-merge_loop k [] defaults in
      let second = member-merge_loop k (merge_loop [] defaults) skills in
      ground (arith, first, second),
  Distinct-merge_loop (merge_loop [] defaults) skills (Distinct-merge_loop [] defaults tt),
)
