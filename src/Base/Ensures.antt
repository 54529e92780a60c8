-- ===== src/Base/Ensures.antt =====
-- What an action ensures when it starts from a state with `P`, whether it returns or raises.
use mathlib.Core.Path.{◌≡◌, refl}
use mathlib.Core.Bool.{Bool, true, false}
use fedora_config.Base.Tests.{if◌then◌else◌}
use fedora_config.Base.Errors.{Result, ok, raised, Exec, lift, gets}
use fedora_config.Base.Action.{Keeps, ◌>>=◌, continue}

pub record Ensures {S A : Type 0} (P Q : S → Type 0) (m : Exec S A) : Type 0 where
  pub at : (s : S) → P s → Q (m s).1

module _ {S A : Type 0} {P Q : S → Type 0} where
  pub Ensures-Keeps : (m : Exec S A) → ((s : S) → P s → Q s) → Keeps P m → Ensures P Q m
  Ensures-Keeps m sub k = record { at = λ s p. sub (m s).1 (k.at s p) }

  pub Ensures-if :
      (b : Bool) (m n : Exec S A)
      → (b ≡ true → Ensures P Q m)
      → (b ≡ false → Ensures P Q n)
      → Ensures P Q (if b then m else n)
  Ensures-if true m n km kn = km refl
  Ensures-if false m n km kn = kn refl

module _ {S A B : Type 0} {P Q : S → Type 0} (sub : (s : S) → P s → Q s) where
  continue-Ensures :
      (r : Result A) (f : A → Exec S B)
      → ((a : A) → Ensures P Q (f a))
      → (s : S) → P s
      → Q (continue r f s).1
  continue-Ensures (ok a) f kf s h = (kf a).at s h
  continue-Ensures (raised e) f kf s h = sub s h

  pub Ensures-bind :
      (m : Exec S A) (f : A → Exec S B)
      → Keeps P m
      → ((a : A) → Ensures P Q (f a))
      → Ensures P Q (m >>= f)
  unfolding ◌>>=◌
  Ensures-bind m f km kf = record { at = λ s h. continue-Ensures (m s).0 f kf (m s).1 (km.at s h) }

  pub Ensures-bind_lift :
      (r : Result A) (f : A → Exec S B)
      → ((a : A) → r ≡ ok a → Ensures P Q (f a))
      → Ensures P Q (lift r >>= f)
  unfolding ◌>>=◌
  Ensures-bind_lift (ok a) f kf = kf a refl
  Ensures-bind_lift (raised e) f kf = record { at = sub }

module _ {S A B : Type 0} {P Q : S → Type 0} where
  -- The rest may use what is known of the value that was read.
  pub Ensures-bind_gets :
      (g : S → A) (f : A → Exec S B)
      → ((s : S) → P s → Ensures P Q (f (g s)))
      → Ensures P Q (gets g >>= f)
  unfolding ◌>>=◌
  Ensures-bind_gets g f kf = record { at = λ s h. (kf s h).at s h }

module _ {S A B : Type 0} {Q : S → Type 0} where
  continue-keeps :
      (r : Result A) (f : A → Exec S B)
      → ((a : A) → Keeps Q (f a))
      → (s : S) → Q s
      → Q (continue r f s).1
  continue-keeps (ok a) f kf s h = (kf a).at s h
  continue-keeps (raised e) f kf s h = h

module _ {S A B : Type 0} {P Q : S → Type 0} where
  -- The first action ensures it, and the rest keeps it.
  pub Ensures-then :
      (m : Exec S A) (f : A → Exec S B)
      → Ensures P Q m
      → ((a : A) → Keeps Q (f a))
      → Ensures P Q (m >>= f)
  unfolding ◌>>=◌
  Ensures-then m f em kf = record { at = λ s p. continue-keeps (m s).0 f kf (m s).1 (em.at s p) }
