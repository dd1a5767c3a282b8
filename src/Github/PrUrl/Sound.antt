-- ===== src/Github/PrUrl/Sound.antt =====
-- What github_tools.py reads out of a pull request address.
use Prim.Native.Char.{code}
use text.Mathlib.TextLemmas.{nil-append, cons-append}
use bulletfarm.Prelude.{
  ℕ, String, ◌<>◌, ◌≡◌, refl, sym, ap, ◌∙◌, true, false, some, inl, inr, arith, Bool-cases,
  Option-cases, ◌==◌,
}
use bulletfarm.Prelude.Find.{strip_prefix}
use bulletfarm.Prelude.Find.Laws.{strip_prefix_sound, none-some, some_inj}
use bulletfarm.Github.PrUrl.{
  ◌>>=◌, is_slash, split_segment, segment, number_group, github_prefix, parse_pr_url,
}
use bulletfarm.Github.PrUrl.RoundTrip.{no_slash}

-- A segment: what it was cut from, and that it has no slash.
split_segment_sound :
    (s : String)
    → (s ≡ (split_segment s).0 <> (split_segment s).1) × (no_slash (split_segment s).0 ≡ true)
unfolding split_segment no_slash
split_segment_sound String.[] = (sym (nil-append ""), refl)
split_segment_sound (String.◌∷◌ c s) = elim (Bool-cases (is_slash (code c))) [
  | inl slash ↦ rw (slash, split_segment) (sym (nil-append (String.◌∷◌ c s)), refl)
  | inr plain ↦
      let (whole, rest) = split_segment_sound s in
      rw (plain, split_segment)
        (
          ap (λ t. String.◌∷◌ c t) whole
              ∙ sym (cons-append c (split_segment s).0 (split_segment s).1),
          ground (arith, plain, rest),
        )
]

-- A part between slashes.
pub record IsName (name : String) : Type 0 where
  pub plain : no_slash name ≡ true
  pub filled : (name == "") ≡ false

segment_sound :
    (s : String) (r : String × String) → segment s ≡ some r → (s ≡ r.0 <> r.1) × IsName r.0
unfolding segment
segment_sound s r e = elim (Bool-cases ((split_segment s).0 == "")) [
  | inl blank ↦ absurd (none-some (rw (blank, segment) at e))
  | inr filled ↦
      let (whole, plain) = split_segment_sound s in
      let same : split_segment s ≡ r = some_inj (rw (filled, segment) at e) in
      rw (← same) (whole, record { plain = plain; filled = filled })
]

-- An address is the prefix, an owner, a name, `/pull/`, and a text that starts with the digits of a
-- number; and the repository is the owner and the name.
pub record IsAddress (url repo : String) (n : ℕ) : Type 0 where
  pub owner : String
  pub name : String
  pub tail : String
  pub whole : url ≡ github_prefix <> (owner <> ("/" <> (name <> ("/pull/" <> tail))))
  pub owner_name : IsName owner
  pub repo_name : IsName name
  pub full_name : repo ≡ owner <> "/" <> name
  pub number : number_group tail ≡ some n

module _ (url : String) (r : String × ℕ) where
  with_number :
      (owner name tail : String)
      → url ≡ github_prefix <> (owner <> ("/" <> (name <> ("/pull/" <> tail))))
      → IsName owner
      → IsName name
      → (number_group tail >>= λ n. some (owner <> "/" <> name, n)) ≡ some r
      → IsAddress url r.0 r.1
  with_number owner name tail whole own rep e = elim (Option-cases (number_group tail)) [
    | inl miss ↦ absurd (none-some (rw miss at e))
    | inr (n, hit) ↦
        let same : (owner <> "/" <> name, n) ≡ r = some_inj (rw hit at e) in
        record {
          owner = owner;
          name = name;
          tail = tail;
          whole = whole;
          owner_name = own;
          repo_name = rep;
          full_name = sym (ap (λ p. p.0) same);
          number = hit ∙ ap (λ p. some p.1) same;
        }
  ]

  with_name :
      (owner rest : String)
      → url ≡ github_prefix <> (owner <> ("/" <> rest))
      → IsName owner
      → (segment rest >>= λ second. strip_prefix "/pull/" second.1 >>= λ after_repo.
          number_group after_repo >>= λ n. some (owner <> "/" <> second.0, n))
        ≡ some r
      → IsAddress url r.0 r.1
  with_name owner rest whole own e = elim (Option-cases (segment rest)) [
    | inl miss ↦ absurd (none-some (rw miss at e))
    | inr ((name, more), hit) ↦ elim (Option-cases (strip_prefix "/pull/" more)) [
      | inl miss ↦ absurd (none-some (rw (hit, miss) at e))
      | inr (tail, pull) ↦
          let (cut, rep) = segment_sound rest (name, more) hit in
          let end : rest ≡ name <> ("/pull/" <> tail) =
            cut ∙ ap (λ t. name <> t) (strip_prefix_sound "/pull/" more tail pull) in
          with_number owner name tail (whole ∙ ap (λ t. github_prefix <> (owner <> ("/" <> t))) end)
            own rep (rw (hit, pull) at e)
    ]
  ]

  -- An address from which a repository and a number are read is one of a pull request of that
  -- repository: the text `https://github.com/`, an owner and a name, neither of them empty and without
  -- a slash, then `/pull/`, and a text that starts with the digits of the number.
  pub parse_pr_url_sound : parse_pr_url url ≡ some r → IsAddress url r.0 r.1
  unfolding parse_pr_url
  parse_pr_url_sound e = elim (Option-cases (strip_prefix github_prefix url)) [
    | inl miss ↦ absurd (none-some (rw (miss, parse_pr_url) at e))
    | inr (path, hit) ↦ elim (Option-cases (segment path)) [
      | inl miss ↦ absurd (none-some (rw (hit, miss, parse_pr_url) at e))
      | inr ((owner, after), first) ↦ elim (Option-cases (strip_prefix "/" after)) [
        | inl miss ↦ absurd (none-some (rw (hit, first, miss, parse_pr_url) at e))
        | inr (rest, slash) ↦
            let (cut, own) = segment_sound path (owner, after) first in
            let end : path ≡ owner <> ("/" <> rest) =
              cut ∙ ap (λ t. owner <> t) (strip_prefix_sound "/" after rest slash) in
            with_name owner rest
              (strip_prefix_sound github_prefix url path hit ∙ ap (λ t. github_prefix <> t) end) own
              (rw (hit, first, slash, parse_pr_url) at e)
      ]
    ]
  ]
