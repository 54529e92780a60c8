-- ===== src/Base/Errors.antt =====
-- Functions that may raise, and actions that may raise and change a state on the way.
use Prim.Native.String.{String}
use mathlib.Core.Path.{◌≡◌, refl}
use mathlib.Core.Logic.{◌⊎◌, inl, inr}

-- The Python exceptions that the code raises or lets through. `UnicodeDecodeError` and
-- `JSONDecodeError` are `ValueError`s.
pub data Exn : Type 0 where
  value_error : String → Exn
  os_error : Exn
  subprocess_error : Exn
  overflow_error : Exn
  attribute_error : Exn
  type_error : Exn
  key_error : Exn
  runtime_error : String → Exn
  -- `KeyboardInterrupt`, and the subclass `ActiveRunnerError` of `RuntimeError`.
  interrupted : Exn
  active_runner : String → Exn

pub data Result {ℓ} (A : Type ℓ) : Type ℓ where
  ok : A → Result A
  raised : Exn → Result A

pub Result-cases {ℓ} :
    {A : Type ℓ} (r : Result A) → ((a : A) × (r ≡ ok a)) ⊎ ((e : Exn) × (r ≡ raised e))
Result-cases (ok a) = inl (a, refl)
Result-cases (raised e) = inr (e, refl)

-- What was written before an exception stays written.
abbrev pub Exec {ℓ κ} : Type ℓ → Type κ → Type (ℓ ⊔ κ)
Exec S A = S → Result A × S

module _ {ℓ κ} {S : Type ℓ} {A : Type κ} where
  unfoldable pub pure : A → Exec S A
  pure a s = (ok a, s)

  unfoldable pub raise : Exn → Exec S A
  raise e s = (raised e, s)

  unfoldable pub lift : Result A → Exec S A
  lift r s = (r, s)

  unfoldable pub gets : (S → A) → Exec S A
  gets f s = (ok (f s), s)

-- The two halves of what an action gives.
module _ {ℓ κ} {S : Type ℓ} {A : Type κ} where
  abbrev pub result : Result A × S → Result A
  result p = p.0

  abbrev pub final : Result A × S → S
  final p = p.1
