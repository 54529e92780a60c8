-- ===== src/Base/Triple.antt =====
-- What an action leaves when it returns a value, and when it raises.
use mathlib.Core.Path.{◌≡◌, refl}
use mathlib.Core.Bool.{Bool, true, false}
use fedora_config.Base.Tests.{if◌then◌else◌}
use fedora_config.Base.Errors.{Result, ok, raised, Exn, Exec, pure, raise, lift}
use fedora_config.Base.Action.{refuse_if, continue, ◌>>=◌}

-- `Q` of the value and the state, or `E` of the exception and the state.
abbrev pub Ends : {S A : Type 0} → (A → S → Type 0) → (Exn → S → Type 0) → Result A × S → Type 0
Ends Q E (ok a, s) = Q a s
Ends Q E (raised e, s) = E e s

pub record Triple {S A : Type 0} (P : S → Type 0) (Q : A → S → Type 0) (E : Exn → S → Type 0)
    (m : Exec S A) : Type 0 where
  pub at : (s : S) → P s → Ends Q E (m s)

module _ {S A : Type 0} {P : S → Type 0} {Q : A → S → Type 0} {E : Exn → S → Type 0} where
  pub Triple-pure : (a : A) → ((s : S) → P s → Q a s) → Triple P Q E (pure a)
  unfolding pure
  Triple-pure a h = record { at = h }

  pub Triple-raise : (e : Exn) → ((s : S) → P s → E e s) → Triple P Q E (raise e)
  unfolding raise
  Triple-raise e h = record { at = h }

  pub Triple-lift :
      (r : Result A)
      → ((a : A) → r ≡ ok a → (s : S) → P s → Q a s)
      → ((e : Exn) → r ≡ raised e → (s : S) → P s → E e s)
      → Triple P Q E (lift r)
  unfolding lift
  Triple-lift (ok a) q e = record { at = q a refl }
  Triple-lift (raised x) q e = record { at = e x refl }

  pub Triple-if :
      (b : Bool) (m n : Exec S A)
      → (b ≡ true → Triple P Q E m)
      → (b ≡ false → Triple P Q E n)
      → Triple P Q E (if b then m else n)
  Triple-if true m n km kn = km refl
  Triple-if false m n km kn = kn refl

module _ {S : Type 0} {P : S → Type 0} {Q : Unit {0} → S → Type 0} {E : Exn → S → Type 0} where
  pub Triple-refuse_if :
      (b : Bool) (e : Exn)
      → (b ≡ false → (s : S) → P s → Q tt s)
      → ((s : S) → P s → E e s)
      → Triple P Q E (refuse_if b e)
  unfolding refuse_if
  Triple-refuse_if true e q h = record { at = h }
  Triple-refuse_if false e q h = record { at = q refl }

module _ {S A B : Type 0} {Q : B → S → Type 0} {E : Exn → S → Type 0} where
  continue-Ends :
      (R : A → S → Type 0) (r : Result A × S) (f : A → Exec S B)
      → Ends R E r
      → ((a : A) → Triple (R a) Q E (f a))
      → Ends Q E (continue r.0 f r.1)
  continue-Ends R (ok a, s) f h k = (k a).at s h
  continue-Ends R (raised e, s) f h k = h

module _ {S A B : Type 0} {P : S → Type 0} {Q : B → S → Type 0} {E : Exn → S → Type 0} where
  pub Triple-bind :
      (R : A → S → Type 0) (m : Exec S A) (f : A → Exec S B)
      → Triple P R E m
      → ((a : A) → Triple (R a) Q E (f a))
      → Triple P Q E (m >>= f)
  unfolding ◌>>=◌
  Triple-bind R m f km kf = record { at = λ s p. continue-Ends R (m s) f (km.at s p) kf }

  -- The rest may use what the call gave.
  pub Triple-bind_lift :
      (r : Result A) (f : A → Exec S B)
      → ((a : A) → r ≡ ok a → Triple P Q E (f a))
      → ((e : Exn) (s : S) → P s → E e s)
      → Triple P Q E (lift r >>= f)
  unfolding ◌>>=◌
  Triple-bind_lift (ok a) f k h = k a refl
  Triple-bind_lift (raised e) f k h = record { at = h e }

module _ {S A : Type 0} {Q Q' : A → S → Type 0} {E E' : Exn → S → Type 0} where
  pub Ends-weaken :
      (r : Result A × S)
      → ((a : A) (s : S) → Q a s → Q' a s)
      → ((e : Exn) (s : S) → E e s → E' e s)
      → Ends Q E r
      → Ends Q' E' r
  Ends-weaken (ok a, s) q e h = q a s h
  Ends-weaken (raised x, s) q e h = e x s h

module _ {S A : Type 0} {P P' : S → Type 0} {Q Q' : A → S → Type 0} {E E' : Exn → S → Type 0} where
  pub Triple-weaken :
      (m : Exec S A)
      → ((s : S) → P' s → P s)
      → ((a : A) (s : S) → Q a s → Q' a s)
      → ((e : Exn) (s : S) → E e s → E' e s)
      → Triple P Q E m
      → Triple P' Q' E' m
  Triple-weaken m p q e k = record { at = λ s h. Ends-weaken (m s) q e (k.at s (p s h)) }
