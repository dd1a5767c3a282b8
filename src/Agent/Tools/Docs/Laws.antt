-- ===== src/Agent/Tools/Docs/Laws.antt =====
-- What `doc_update` of agent.py makes of a document.
use Prim.Native.Char.{Char}
use bulletfarm.Prelude.{
  ◌-◌, String, ◌<>◌, ◌≡◌, refl, sym, ap, ◌∙◌, true, false, none, some, inl, inr, count_text, arith,
  Option-cases, Bool-cases, if◌then◌else◌,
}
use text.Mathlib.TextLemmas.{nil-append, cons-append, append_assoc, append-nil, tail-eq_of_cons-eq}
use bulletfarm.Prelude.Find.{strip_prefix, contains_text, find_first}
use bulletfarm.Prelude.Find.Laws.{none-some, some_inj, strip_prefix_sound}
use bulletfarm.Agent.Tools.Docs.{copying, in_header, in_body, body_ends, substitute}

-- What stands before the next section, and what is left from there.
unfoldable pub split_body : String → String × String
unfolding strip_prefix
split_body String.[] = ("", "")
split_body (String.◌∷◌ c s) =
    let (body, rest) = split_body s in
    if body_ends (String.◌∷◌ c s) then ("", String.◌∷◌ c s) else (String.◌∷◌ c body, rest)

absent_tail :
    (p : String) (c : Char) (s : String)
    → contains_text p (String.◌∷◌ c s) ≡ false
    → (strip_prefix p (String.◌∷◌ c s) ≡ none) × (contains_text p s ≡ false)
unfolding find_first
absent_tail p c s e = elim (Option-cases (strip_prefix p (String.◌∷◌ c s))) [
  | inl miss ↦ elim (Option-cases (find_first p s)) [
    | inl never ↦ (miss, rw never refl)
    | inr (r, later) ↦ absurd (true_false (rw (miss, later, find_first) at e))
  ]
  | inr (v, hit) ↦ absurd (true_false (rw (hit, find_first) at e))
]
  where
    true_false : true ≡ false → ⊥
    true_false e = cc

module _ (header : String) (put : String → String → String) where
  -- A document without the header stays as it is.
  pub substitute-absent :
      (s : String) → contains_text header s ≡ false → substitute header put copying s ≡ s
  unfolding substitute
  substitute-absent String.[] e = refl
  substitute-absent (String.◌∷◌ c s) e =
      let (miss, tail) = absent_tail header c s e in
      rw (miss, substitute) (ap (λ t. String.◌∷◌ c t) (substitute-absent s tail))

  -- The rest of a header is passed over.
  substitute-header :
      (t v : String)
      → substitute header put (in_header (count_text t)) (t <> v)
        ≡ substitute header put (in_header 0) v
  unfolding substitute
  substitute-header String.[] v = rw nil-append refl
  substitute-header (String.◌∷◌ c t) v = rw cons-append (substitute-header t v)

  header_end :
      (v : String) → substitute header put (in_header 0) v ≡ substitute header put (in_body "") v
  unfolding substitute
  header_end String.[] = refl
  header_end (String.◌∷◌ c s) = rw (nil-append (String.◌∷◌ c "")) refl

  -- A body is replaced, and what follows it stays where it has no header.
  substitute-body :
      (v body : String)
      → contains_text header (split_body v).1 ≡ false
      → substitute header put (in_body body) v
        ≡ put header (body <> (split_body v).0) <> (split_body v).1
  unfolding substitute split_body
  substitute-body String.[] body e = rw append-nil (sym (ap (put header) (append-nil body)))
  substitute-body (String.◌∷◌ c s) body e = elim (Bool-cases (body_ends (String.◌∷◌ c s))) [
    | inl ends ↦
        let rest = absent_tail header c s (rw (ends, split_body) at e) in
        rw (ends, substitute, split_body, append-nil, substitute-absent s rest.1) refl
    | inr more ↦
        rw
          (
            more,
            substitute,
            split_body,
            substitute-body s (body <> String.◌∷◌ c "") (rw (more, split_body) at e),
            append_assoc,
            cons-append,
            nil-append,
          )
          refl
  ]

-- A header with its first character set apart.
module _ (d : Char) (t : String) (put : String → String → String) where
  abbrev heading : String
  heading = String.◌∷◌ d t

  replaced : String → String
  replaced v = put heading (split_body v).0 <> (split_body v).1

  after_header :
      (v : String)
      → contains_text heading (split_body v).1 ≡ false
      → substitute heading put (in_header (count_text heading - 1)) (t <> v) ≡ replaced v
  unfolding count_text replaced
  after_header v rest =
      let short : count_text heading - 1 ≡ count_text t = omega arith in
      ap (λ n. substitute heading put (in_header n) (t <> v)) short
      ∙ substitute-header heading put t v
      ∙ header_end heading put v
      ∙ substitute-body heading put v "" rest
      ∙ ap (λ b. put heading b <> (split_body v).1) (nil-append (split_body v).0)

  -- The first header, and the body behind it, are replaced.
  substitute-found :
      (s : String) (r : String × String)
      → find_first heading s ≡ some r
      → contains_text heading (split_body r.1).1 ≡ false
      → substitute heading put copying s ≡ r.0 <> replaced r.1
  unfolding substitute find_first
  substitute-found String.[] r e rest = absurd (none-some e)
  substitute-found (String.◌∷◌ c s) r e rest =
      elim (Option-cases (strip_prefix heading (String.◌∷◌ c s))) [
        | inl miss ↦ elim (Option-cases (find_first heading s)) [
          | inl never ↦ absurd (none-some (rw (miss, never, find_first) at e))
          | inr ((u, v), later) ↦
              let found : (String.◌∷◌ c u, v) ≡ r = some_inj (rw (miss, later, find_first) at e) in
              rw (miss, substitute, ← found, cons-append)
                (ap (λ t. String.◌∷◌ c t) (substitute-found s (u, v) later (rw (← found) at rest)))
        ]
        | inr (w, hit) ↦
            let at_once : ("", w) ≡ r = some_inj (rw (hit, find_first) at e) in
            let tail : s ≡ t <> w =
              tail-eq_of_cons-eq
                (strip_prefix_sound heading (String.◌∷◌ c s) w hit ∙ cons-append d t w) in
            rw (hit, substitute, ← at_once, nil-append, tail)
              (after_header w (rw (← at_once) at rest))
      ]

pub substitute-section :
    (header : String) (d : Char) (t : String) (put : String → String → String)
    → header ≡ String.◌∷◌ d t
    → (s : String) (r : String × String) → find_first header s ≡ some r
    → contains_text header (split_body r.1).1 ≡ false
    → substitute header put copying s ≡ r.0 <> (put header (split_body r.1).0 <> (split_body r.1).1)
unfolding replaced
substitute-section header d t put e s r found last =
    rw e (substitute-found d t put s r (rw e at found) (rw e at last))
