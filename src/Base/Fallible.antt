-- ===== src/Base/Fallible.antt =====
-- `do` blocks of functions that may raise.
use mathlib.Core.Path.{◌≡◌, refl, subst}
use mathlib.Core.Bool.{Bool, true, false}
use fedora_config.Base.Tests.{if◌then◌else◌}
use fedora_config.Base.Errors.{Result, ok, raised, Exn}

infixl 5 ◌>>=◌ ◌>>◌
abbrev pub ◌>>=◌ {ℓ κ} : {A : Type ℓ} {B : Type κ} → Result A → (A → Result B) → Result B
ok a >>= f = f a
raised e >>= f = raised e

abbrev pub ◌>>◌ {ℓ} : {B : Type ℓ} → Result (Unit {0}) → Result B → Result B
m >> k = m >>= λ _. k

-- `if test: raise error`
abbrev pub refuse_if : Bool → Exn → Result (Unit {0})
refuse_if true e = raised e
refuse_if false e = ok tt

-- The same, shut, for the proofs about long blocks.
unfoldable pub raise_if : Bool → Exn → Result (Unit {0})
raise_if true e = raised e
raise_if false e = ok tt

-- `test and rest`, where the rest is evaluated only if the test passes.
abbrev pub and_then : Result Bool → Result Bool → Result Bool
and_then (ok true) rest = rest
and_then (ok false) rest = ok false
and_then (raised e) rest = raised e

module _ {ℓ κ} {A : Type ℓ} {B : Type κ} where
  -- What a `do` block that returned went through.
  pub bind-eq-ok :
      (r : Result A) (f : A → Result B) {b : B}
      → (r >>= f) ≡ ok b
      → (a : A) × (r ≡ ok a) × (f a ≡ ok b)
  bind-eq-ok (raised x) f e = absurd (cc)
  bind-eq-ok (ok a) f e = (a, refl, e)

module _ {ℓ} {A : Type ℓ} where
  -- A test that must have passed, and one that must have failed.
  pub passed :
      (b : Bool) (m : Result A) (e : Exn) {a : A}
      → (if b then m else raised e) ≡ ok a
      → (b ≡ true) × (m ≡ ok a)
  passed true m e h = (refl, h)
  passed false m e h = absurd (cc)

  pub not_refused :
      (b : Bool) (m : Result A) (e : Exn) {a : A}
      → (if b then raised e else m) ≡ ok a
      → (b ≡ false) × (m ≡ ok a)
  not_refused true m e h = absurd (cc)
  not_refused false m e h = (refl, h)

  -- The rest of a `do` block behind a test that did not raise.
  pub unrefused :
      (b : Bool) (e : Exn) (r : Result A) {a : A}
      → (raise_if b e >> r) ≡ ok a
      → (b ≡ false) × (r ≡ ok a)
  unfolding raise_if
  unrefused true e r h = absurd (cc)
  unrefused false e r h = (refl, h)

  pub ok_injective : {a b : A} → ok a ≡ ok b → a ≡ b
  ok_injective h = cc

  -- A property of the value that was returned.
  pub of_ok {κ} : (P : A → Type κ) {a b : A} → ok a ≡ ok b → P a → P b
  of_ok P h p = subst P (ok_injective h) p
