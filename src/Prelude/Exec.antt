-- ===== src/Prelude/Exec.antt =====
-- Calls that may raise, over a state. What was done before a raise stays done, so the state comes
-- back beside the exception.
pub mod Laws
use Prim.Native.String.{String}

-- The classes of exception that the program tells apart.
pub data ExnKind : Type 0 where
  connection_timeout connection_error transport_error github_error key_error file_not_found :
      ExnKind
  other_error : ExnKind

-- An exception: its class and `str(exc)`.
pub record Exn : Type 0 where
  pub kind : ExnKind
  pub message : String

pub data Result {ℓ} (A : Type ℓ) : Type ℓ where
  ok : A → Result A
  raised : Exn → Result A

abbrev pub Exec {ℓ} : Type ℓ → Type ℓ → Type ℓ
Exec S A = S → Result A × S

module _ {ℓ} {S A : Type ℓ} where
  abbrev pub pure : A → Exec S A
  pure a s = (ok a, s)

  abbrev pub raise : Exn → Exec S A
  raise e s = (raised e, s)

  -- A result of a computation that calls nothing.
  unfoldable pub of_result : Result A → Exec S A
  of_result r s = (r, s)

  -- `try: m` with `except Exception as e: handler(e)`
  abbrev pub attempt : Exec S A → (Exn → Exec S A) → Exec S A
  attempt m handler s = let (r, s') = m s in elim r [ ok a ↦ (ok a, s') | raised e ↦ handler e s' ]

infixl 10 ◌>>=◌ ◌>>◌
abbrev pub ◌>>=◌ {ℓ} : {S A B : Type ℓ} → Exec S A → (A → Exec S B) → Exec S B
◌>>=◌ m f s = let (r, s') = m s in elim r [ ok a ↦ f a s' | raised e ↦ (raised e, s') ]

abbrev pub ◌>>◌ {ℓ} : {S A B : Type ℓ} → Exec S A → Exec S B → Exec S B
m >> n = m >>= λ _. n

-- The value of a result, or a default where it raised.
abbrev pub result_or {ℓ} : {A : Type ℓ} → A → Result A → A
result_or a (ok b) = b
result_or a (raised e) = a
