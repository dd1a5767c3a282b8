-- ===== src/Prelude/Dict.antt =====
-- Python's `dict` with text keys, as an association list. No modelled code depends on the order
-- of a dict's entries.
use Prim.Native.String.{String}
use mathlib.Core.Path.{◌≡◌, refl, ◌∙◌}
use mathlib.Core.Logic.{inl, inr}
use mathlib.Core.Bool.{true, false}
use mathlib.Core.Option.{Option, none, some}
use mathlib.Core.List.{List, [], ◌∷◌}
use native.Mathlib.Omega.{arith}
use text.Mathlib.Text.{◌==◌}
use text.Mathlib.TextEquality.{eq_iff}
use bulletfarm.Prelude.Tests.{if◌then◌else◌, Bool-cases}
use bulletfarm.Prelude.Lists.{any}

abbrev pub Dict {ℓ} : Type ℓ → Type ℓ
Dict V = List (String × V)

module _ {ℓ} {V : Type ℓ} where
  -- `d.get(k)`
  unfoldable pub get : Dict V → String → Option V
  get [] k = none
  get ((j, v) ∷ d) k = if j == k then some v else get d k

  -- `d[k] = v`
  unfoldable pub put : Dict V → String → V → Dict V
  put [] k v = (k, v) ∷ []
  put ((j, w) ∷ d) k v = if j == k then (j, v) ∷ d else (j, w) ∷ put d k v

  -- `{**d, **e}`
  unfoldable pub update : Dict V → Dict V → Dict V
  unfolding put
  update d [] = d
  update d ((k, v) ∷ e) = update (put d k v) e

  pub get-put :
      (d : Dict V) (k j : String) (v : V) → get (put d k v) j ≡ (if k == j then some v else get d j)
  unfolding get put
  get-put [] k j v = refl
  get-put ((i, w) ∷ d) k j v = ground (arith, eq_iff i k, eq_iff i j, eq_iff k j, get-put d k j v)

  pub get-put_own : (d : Dict V) (k : String) (v : V) → get (put d k v) k ≡ some v
  get-put_own d k v = rw (get-put d k k v, (eq_iff k k).1 refl) refl

  pub get-put_other :
      (d : Dict V) (k : String) (v : V) (j : String)
      → (k == j) ≡ false
      → get (put d k v) j ≡ get d j
  get-put_other d k v j other = rw (get-put d k j v, other) refl

  -- An update leaves a key alone that it does not have.
  pub get-update_other :
      (d e : Dict V) (k : String) → any (λ p. p.0 == k) e ≡ false → get (update d e) k ≡ get d k
  unfolding update
  get-update_other d [] k absent = refl
  get-update_other d ((j, v) ∷ e) k absent = elim (Bool-cases (j == k)) [
    | inl same ↦ absurd (true_false (rw same at absent))
    | inr other ↦
        get-update_other (put d j v) e k (rw other at absent) ∙ get-put_other d j v k other
  ]
    where
      true_false : true ≡ false → ⊥
      true_false e = cc
